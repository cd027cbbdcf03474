-- ===== src/Trade/Accepting.antt =====
-- Trades of src/game.cpp are started and accepted.
use otservbr_global.Common.{
  ℕ, ◌≡◌, refl, sym, ap, ◌∙◌, ◌≢◌, inl, inr, true, false, ◌||◌, some, arith, Bool-cases,
  Option-cases,
}
use mathlib.Core.Path.{subst}
use otservbr_global.Common.Places.{points_to}
use otservbr_global.Trade.{
  TradeState, no_trade, initiated, accepted, acknowledged, transferring, Trader, Trades,
  is_acknowledged, is_initiated, is_accepted, is_transferring, free_trader, set_trader, cancel_item,
  close_all, Scene, transfer, accept_with, player_accept_trade,
}
use otservbr_global.Trade.Fair.{
  IsFair, IsShaped, offer, has_some, points_to_self, points_to-some, ArePartners, PairStep,
  PairStep-IsFair, others-away,
}
use otservbr_global.Trade.Clearing.{
  cleared, cleared-PairStep, set_trader-same, set_trader-other, cancel_two_set, offer_item,
}
use otservbr_global.Trade.Closing.{internal_close_trade-IsFair, close_all_lem}

-- Two players are set anew, and the table stays.
pub settled-PairStep :
    (w : Trades) (p q : ℕ) (x y : Trader)
    → IsFair w
    → (w.traders p).partner ≡ some q
    → ArePartners p q x y
    → IsShaped x
    → IsShaped y
    → ((i : ℕ) → points_to (offer x) i ≡ points_to (offer (w.traders p)) i)
    → ((i : ℕ) → points_to (offer y) i ≡ points_to (offer (w.traders q)) i)
    → PairStep w p q (set_trader q y (set_trader p x w))
unfolding set_trader
settled-PairStep w p q x y h partner together shaped_x shaped_y offer_x offer_y = record {
  two = two;
  others = λ r np nq. set_trader-other q r y (set_trader p x w) nq ∙ set_trader-other p r x w np;
  away = λ r np nq. (others-away w p q r h partner nq, others-away w q p r h partner' np);
  together =
      subst (λ u. ArePartners p q u (after.traders q)) (sym at_p)
        (subst (ArePartners p q x) (sym at_q) together);
  first_shaped = subst IsShaped (sym at_p) shaped_x;
  second_shaped = subst IsShaped (sym at_q) shaped_y;
  others_items = λ r i np nq. refl;
  first_items = λ i. ap (λ u. points_to (offer u) i) at_p ∙ (offer_x i ∙ h.registered p i);
  second_items = λ i. ap (λ u. points_to (offer u) i) at_q ∙ (offer_y i ∙ h.registered q i);
  counted' = h.counted;
}
  where
    after : Trades
    after = set_trader q y (set_trader p x w)

    two : p ≢ q
    two e = ground (arith, h.alone p, ap (λ o. points_to o p) partner)

    partner' : (w.traders q).partner ≡ some p
    partner' =
        points_to-some ((w.traders q).partner) p
          (h.mutual_partner p q (ap (λ o. points_to o q) partner ∙ points_to_self q)).0

    at_q : after.traders q ≡ y
    at_q = set_trader-same q y (set_trader p x w)

    at_p : after.traders p ≡ x
    at_p = set_trader-other q p y (set_trader p x w) two ∙ set_trader-same p x w

-- The facts about two partners.
pub partner_back :
    (w : Trades) (p q : ℕ)
    → IsFair w
    → (w.traders p).partner ≡ some q
    → (w.traders q).partner ≡ some p
partner_back w p q h partner =
    points_to-some ((w.traders q).partner) p
      (h.mutual_partner p q (ap (λ o. points_to o q) partner ∙ points_to_self q)).0

pub partner_together :
    (w : Trades) (p q : ℕ)
    → IsFair w
    → (w.traders p).partner ≡ some q
    → is_transferring ((w.traders p).state) ≡ is_transferring ((w.traders q).state)
partner_together w p q h partner =
    (h.mutual_partner p q (ap (λ o. points_to o q) partner ∙ points_to_self q)).1

-- What both players bring into a trade that is carried out, what comes of it, and that both are free
-- afterwards with nothing of theirs on the table.
pub transfer-IsFair :
    (s : Scene) (p q : ℕ) (w : Trades)
    → IsFair w
    → (w.traders p).partner ≡ some q
    → is_transferring ((w.traders p).state) ≡ false
    → IsFair (transfer s p q w).0
      × ((transfer s p q w).0.traders p ≡ free_trader)
      × ((transfer s p q w).0.traders q ≡ free_trader)
unfolding transfer
transfer-IsFair s p q w h partner still =
    let x = w.traders p in
    let y = w.traders q in
    let x' = record x { state = transferring } in
    let y' = record y { state = transferring } in
    let back = partner_back w p q h partner in
    let two : p ≢ q = λ e. ground (arith, h.alone p, ap (λ o. points_to o p) partner) in
    let begun = cleared w p q x' y' in
    let order : cancel_item y.item (cancel_item x.item (set_trader q y' (set_trader p x' w)))
        ≡ begun =
      cancel_two_set x.item y.item p q x' y' w in
    let fair = PairStep-IsFair w p q begun h (
      cleared-PairStep w p q x' y' h partner still (refl, refl) (inl (partner, back, refl))
        (ap has_some partner) (ap has_some back)) in
    let at_q : begun.traders q ≡ y' = set_trader-same q y' _ in
    let at_p : begun.traders p ≡ x' = set_trader-other q p y' _ two ∙ set_trader-same p x' _ in
    let (fair', same, same') =
      close_all_lem s.closings begun p q fair (ap (λ u. is_transferring u.state) at_p)
        (ap (λ u. is_transferring u.state) at_q) in
    let done = close_all s.closings begun in
    let final = set_trader q free_trader (set_trader p free_trader done) in
    let last =
      settled-PairStep done p q free_trader free_trader fair'
        (ap (λ u. u.partner) (same ∙ at_p) ∙ partner) (inr (refl, refl)) (refl, refl) (refl, refl)
        (λ i. sym (ap (λ u. points_to (offer u) i) (same ∙ at_p)))
        (λ i. sym (ap (λ u. points_to (offer u) i) (same' ∙ at_q))) in
    let result : IsFair final × (final.traders p ≡ free_trader) × (final.traders q ≡ free_trader) =
      (
        PairStep-IsFair done p q final fair' last,
        set_trader-other q p free_trader _ two ∙ set_trader-same p free_trader done,
        set_trader-same q free_trader _,
      ) in
    subst
      (λ u.
        let v = set_trader q free_trader (set_trader p free_trader (close_all s.closings u)) in
        IsFair v × (v.traders p ≡ free_trader) × (v.traders q ≡ free_trader))
      (sym order) result

-- A player accepts.
pub accepting-IsFair :
    (w : Trades) (p q : ℕ)
    → IsFair w
    → (w.traders p).partner ≡ some q
    → is_acknowledged ((w.traders p).state) || is_initiated ((w.traders p).state) ≡ true
    → PairStep w p q (set_trader p (record (w.traders p) { state = accepted }) w)
unfolding set_trader
accepting-IsFair w p q h partner open_ =
    let x = w.traders p in
    let y = w.traders q in
    let x' = record x { state = accepted } in
    let back = partner_back w p q h partner in
    let two : p ≢ q = λ e. ground (arith, h.alone p, ap (λ o. points_to o p) partner) in
    let still : is_transferring x.state ≡ false = not_busy x.state open_ in
    let after = set_trader p x' w in
    let at_p = set_trader-same p x' w in
    let at_q = set_trader-other p q x' w (λ e. two (sym e)) in
    record {
      two = two;
      others = λ r np nq. set_trader-other p r x' w np;
      away = λ r np nq. (others-away w p q r h partner nq, others-away w q p r h back np);
      together =
          subst (λ u. ArePartners p q u (after.traders q)) (sym at_p)
            (subst (ArePartners p q x') (sym at_q)
              (inl (partner, back, sym still ∙ partner_together w p q h partner)));
      first_shaped = subst IsShaped (sym at_p) (ap has_some partner);
      second_shaped = subst IsShaped (sym at_q) (h.shaped q);
      others_items = λ r i np nq. refl;
      first_items = λ i.
          ap (λ u. points_to (offer u) i) at_p
          ∙ (ap (λ o. points_to o i) (sym (offer_item x.state x.item still)) ∙ h.registered p i);
      second_items = λ i. ap (λ u. points_to (offer u) i) at_q ∙ h.registered q i;
      counted' = h.counted;
    }
  where
    not_busy :
        (s : TradeState) → is_acknowledged s || is_initiated s ≡ true → is_transferring s ≡ false
    not_busy no_trade e = refl
    not_busy initiated e = refl
    not_busy accepted e = refl
    not_busy acknowledged e = refl
    not_busy transferring e = sym e

accept_with-IsFair :
    (s : Scene) (p q : ℕ) (w : Trades)
    → IsFair w
    → (w.traders p).partner ≡ some q
    → is_acknowledged ((w.traders p).state) || is_initiated ((w.traders p).state) ≡ true
    → IsFair (accept_with s p q w).0
unfolding accept_with
accept_with-IsFair s p q w h partner open_ =
    let w' = set_trader p (record (w.traders p) { state = accepted }) w in
    let fair : IsFair w' = PairStep-IsFair w p q w' h (accepting-IsFair w p q h partner open_) in
    let at_p = set_trader-same p (record (w.traders p) { state = accepted }) w in
    elim (Bool-cases (is_accepted ((w'.traders q).state))) [
      | inr e ↦ rw e fair
      | inl e ↦ elim (Bool-cases s.script) [
        | inr e' ↦ rw (e, e') (internal_close_trade-IsFair w' p fair)
        | inl e' ↦
            simp (e, e')
              (transfer-IsFair s p q w' fair (ap (λ u. u.partner) at_p ∙ partner)
                (ap (λ u. is_transferring u.state) at_p)).0
      ]
    ]

pub player_accept_trade-IsFair :
    (s : Scene) (p : ℕ) (w : Trades) → IsFair w → IsFair (player_accept_trade s p w).0
unfolding player_accept_trade
player_accept_trade-IsFair s p w h = elim (Bool-cases (s.is_online p)) [
  | inr e ↦ rw e h
  | inl e ↦
      elim (Bool-cases
        (is_acknowledged ((w.traders p).state) || is_initiated ((w.traders p).state))) [
          | inr e' ↦ rw (e, e') h
          | inl e' ↦ elim (Option-cases ((w.traders p).partner)) [
            | inl o ↦ rw (player_accept_trade, e, e', o) h
            | inr t ↦ elim (Bool-cases s.can_throw) [
              | inr c ↦ rw (player_accept_trade, e, e', t.1, c) h
              | inl c ↦
                  simp (player_accept_trade, e, e', t.1, c) (accept_with-IsFair s p t.0 w h t.1 e')
            ]
          ]
        ]
]
