-- ===== src/Trade/Starting.antt =====
-- Trades of src/game.cpp are started.
use otservbr_global.Common.{
  ℕ, ◌+◌, ◌≡◌, refl, sym, ap, ◌∙◌, ◌≢◌, ◌⊎◌, inl, inr, true, false, not, ◌&&◌, Option, none, some,
  arith, ◌==◌, if◌then◌else◌, ==_iff, Bool-cases,
}
use mathlib.Core.Path.{subst}
use otservbr_global.Common.Places.{write_at, write_at_lem, points_to}
use otservbr_global.Trade.{
  TradeState, no_trade, initiated, accepted, acknowledged, transferring, Trader, Trades, is_none,
  is_acknowledged, is_transferring, lookup, set_trader, register, invited, internal_start_trade,
}
use otservbr_global.Trade.Fair.{
  IsFair, IsShaped, IsShapedIn, offer, has_some, lookup-erase_key, points_to_self, points_to-some,
  ArePartners, PairStep-IsFair, others-away, nobody-points,
}
use otservbr_global.Trade.Clearing.{set_trader-same, set_trader-other, offer_item}
use otservbr_global.Trade.Accepting.{partner_back, partner_together}

abbrev starter : ℕ → ℕ → Trader
starter q i = record { state = initiated; partner = some q; item = some i }

abbrev started : ℕ → ℕ → ℕ → Trader → Trades → Trades
started p q i y w = set_trader q y (register i p (set_trader p (starter q i) w))

register-lookup :
    (i p j : ℕ) (w : Trades)
    → lookup j (register i p w).trade_items ≡ (if i == j then some p else lookup j w.trade_items)
unfolding register lookup
register-lookup i p j w = ground (arith, lookup-erase_key j i w.trade_items)

-- An item that is not on the table comes onto it.
registered-others :
    (i p j r : ℕ) (w : Trades)
    → lookup i w.trade_items ≡ none
    → r ≢ p
    → points_to (lookup j (register i p w).trade_items) r ≡ points_to (lookup j w.trade_items) r
registered-others i p j r w new ne = elim (Bool-cases (i == j)) [
  | inl e ↦
      ap (λ o. points_to o r) (register-lookup i p j w)
      ∙ rw (e, ← (==_iff i j).0 e, new) (ground arith)
  | inr e ↦ ap (λ o. points_to o r) (register-lookup i p j w) ∙ rw e refl
]

registered-own :
    (i p j : ℕ) (w : Trades)
    → false ≡ points_to (lookup j w.trade_items) p
    → (i == j) ≡ points_to (lookup j (register i p w).trade_items) p
registered-own i p j w free = sym (
    ap (λ o. points_to o p) (register-lookup i p j w)
    ∙ elim (Bool-cases (i == j)) [ inl e ↦ rw e (points_to_self p) | inr e ↦ rw e (sym free) ])

register-counted :
    (i p j : ℕ) (w : Trades)
    → lookup i w.trade_items ≡ none
    → w.references i ≡ (if has_some (lookup i w.trade_items) then 1 else 0)
    → w.references j ≡ (if has_some (lookup j w.trade_items) then 1 else 0)
    → (register i p w).references j
      ≡ (if has_some (lookup j (register i p w).trade_items) then 1 else 0)
register-counted i p j w new at_i at_j =
    ap (λ f. f j) written
    ∙ (write_at_lem i (w.references i + 1) w.references j ∙ elim (Bool-cases (i == j)) [
      | inl e ↦ rw (register-lookup i p j w, e) (ground (arith, new, at_i))
      | inr e ↦ rw (register-lookup i p j w, e) (ground (arith, at_j))
    ])
  where
    written : (register i p w).references ≡ write_at i (w.references i + 1) w.references
    written = unfold register in refl

started-IsFair :
    (p q i : ℕ) (y : Trader) (w : Trades)
    → IsFair w
    → p ≢ q
    → lookup i w.trade_items ≡ none
    → ((r : ℕ)
        → r ≢ p
        → r ≢ q
        → (points_to ((w.traders r).partner) p ≡ false)
          × (points_to ((w.traders r).partner) q ≡ false))
    → offer (w.traders p) ≡ none
    → (y.partner ≡ some p) × (is_transferring y.state ≡ false)
    → IsShaped y
    → offer y ≡ offer (w.traders q)
    → IsFair (started p q i y w)
started-IsFair p q i y w h two new away free partner shaped_y same_offer =
    PairStep-IsFair w p q (started p q i y w) h (record {
      two = two;
      others = λ r np nq.
          set_trader-other q r y _ nq ∙ (register-traders r ∙ set_trader-other p r x w np);
      away = away;
      together =
          subst (λ u. ArePartners p q u ((started p q i y w).traders q)) (sym at_p)
            (subst (ArePartners p q x) (sym at_q) (inl (refl, partner.0, sym partner.1)));
      first_shaped = subst IsShaped (sym at_p) (refl, refl);
      second_shaped = subst IsShaped (sym at_q) shaped_y;
      others_items = λ r j np nq.
          ap (λ m. points_to (lookup j m) r) items ∙ registered-others i p j r w new np;
      first_items = λ j.
          ap (λ u. points_to (offer u) j) at_p
          ∙ (registered-own i p j w (sym (ap (λ o. points_to o j) free) ∙ h.registered p j)
              ∙ ap (λ m. points_to (lookup j m) p) (sym items));
      second_items = λ j.
          ap (λ u. points_to (offer u) j) at_q
          ∙ (ap (λ o. points_to o j) same_offer
              ∙ (h.registered q j
                  ∙ (sym (registered-others i p j q w new (λ e. two (sym e)))
                      ∙ ap (λ m. points_to (lookup j m) q) (sym items))));
      counted' = λ j.
          ap (λ f. f j) references
          ∙ (register-counted i p j w new (h.counted i) (h.counted j)
              ∙ ap (λ m. if has_some (lookup j m) then 1 else 0) (sym items));
    })
  where
    x : Trader
    x = starter q i

    items : (started p q i y w).trade_items ≡ (register i p w).trade_items
    items = unfold set_trader register in refl

    references : (started p q i y w).references ≡ (register i p w).references
    references = unfold set_trader register in refl

    register-traders :
        (r : ℕ) → (register i p (set_trader p x w)).traders r ≡ (set_trader p x w).traders r
    register-traders r = unfold register in refl

    at_q : (started p q i y w).traders q ≡ y
    at_q = set_trader-same q y (register i p (set_trader p x w))

    at_p : (started p q i y w).traders p ≡ x
    at_p =
        set_trader-other q p y (register i p (set_trader p x w)) two
        ∙ (register-traders p ∙ set_trader-same p x w)

none_shape :
    (s : TradeState) (o i : Option ℕ)
    → IsShapedIn s o i
    → is_none s ≡ true
    → (o ≡ none) × (i ≡ none)
none_shape no_trade o i h e = h
none_shape initiated o i h e = absurd (cc)
none_shape accepted o i h e = absurd (cc)
none_shape acknowledged o i h e = absurd (cc)
none_shape transferring o i h e = absurd (cc)

none_still : (s : TradeState) → is_none s ≡ true → is_transferring s ≡ false
none_still no_trade e = refl
none_still initiated e = refl
none_still accepted e = refl
none_still acknowledged e = refl
none_still transferring e = sym e

acknowledged_shape :
    (s : TradeState) (o i : Option ℕ)
    → IsShapedIn s o i
    → is_acknowledged s ≡ true
    → (i ≡ none) × (is_transferring s ≡ false)
acknowledged_shape no_trade o i h e = absurd (cc)
acknowledged_shape initiated o i h e = absurd (cc)
acknowledged_shape accepted o i h e = absurd (cc)
acknowledged_shape acknowledged o i h e = (h.1, refl)
acknowledged_shape transferring o i h e = absurd (cc)

-- Neither of them has a trade.
fresh-IsFair :
    (p q i : ℕ) (w : Trades)
    → IsFair w
    → p ≢ q
    → lookup i w.trade_items ≡ none
    → is_none ((w.traders p).state) ≡ true
    → is_none ((w.traders q).state) ≡ true
    → IsFair (started p q i (record (w.traders q) { state = acknowledged; partner = some p }) w)
fresh-IsFair p q i w h two new free free' =
    let x = w.traders p in
    let y = w.traders q in
    let (x_partner, x_item) = none_shape x.state x.partner x.item (h.shaped p) free in
    let (y_partner, y_item) = none_shape y.state y.partner y.item (h.shaped q) free' in
    started-IsFair p q i _ w h two new
      (λ r np nq. (nobody-points w p r h x_partner, nobody-points w q r h y_partner))
      (offer_item x.state x.item (none_still x.state free) ∙ x_item) (refl, refl) (refl, y_item)
      (sym (offer_item y.state y.item (none_still y.state free')))

-- The partner has offered already.
counter-IsFair :
    (p q i : ℕ) (w : Trades)
    → IsFair w
    → p ≢ q
    → lookup i w.trade_items ≡ none
    → is_acknowledged ((w.traders p).state) ≡ true
    → (w.traders p).partner ≡ some q
    → IsFair (started p q i (w.traders q) w)
counter-IsFair p q i w h two new asked partner =
    let x = w.traders p in
    let back = partner_back w p q h partner in
    let (empty, still) = acknowledged_shape x.state x.partner x.item (h.shaped p) asked in
    started-IsFair p q i (w.traders q) w h two new
      (λ r np nq. (others-away w p q r h partner nq, others-away w q p r h back np))
      (offer_item x.state x.item still ∙ empty)
      (back, sym (partner_together w p q h partner) ∙ still) (h.shaped q) refl

pub internal_start_trade-IsFair :
    (p q i : ℕ) (w : Trades)
    → IsFair w
    → p ≢ q
    → lookup i w.trade_items ≡ none
    → IsFair (internal_start_trade p q i w).1
unfolding internal_start_trade
internal_start_trade-IsFair p q i w h two new =
    let x = w.traders p in
    let y = w.traders q in
    elim (Bool-cases
      (not (is_none x.state) && not (is_acknowledged x.state && points_to x.partner q))) [
        | inl e ↦ rw e h
        | inr e ↦ elim (Bool-cases (not (is_none y.state) && not (points_to y.partner p))) [
          | inl e' ↦ rw (e, e') h
          | inr e' ↦
              rw (e, e')
                (allowed (Bool-cases (is_none x.state)) (Bool-cases (is_none y.state)) e e')
        ]
      ]
  where
    allowed :
        ((is_none ((w.traders p).state) ≡ true) ⊎ (is_none ((w.traders p).state) ≡ false))
        → ((is_none ((w.traders q).state) ≡ true) ⊎ (is_none ((w.traders q).state) ≡ false))
        → not (is_none ((w.traders p).state))
            && not (is_acknowledged ((w.traders p).state) && points_to ((w.traders p).partner) q)
          ≡ false
        → not (is_none ((w.traders q).state)) && not (points_to ((w.traders q).partner) p) ≡ false
        → IsFair (started p q i (invited p (w.traders q)) w)
    allowed (inl free) (inl free') e e' = rw free' (fresh-IsFair p q i w h two new free free')
    allowed (inl free) (inr busy') e e' =
        let x = w.traders p in
        let back = (h.mutual_partner q p (ground (arith, busy', e'))).0 in
        absurd (
          ground (
            arith,
            back,
            ap (λ o. points_to o q) (none_shape x.state x.partner x.item (h.shaped p) free).0,
          ))
    allowed (inr busy) (inl free') e e' =
        let y = w.traders q in
        let to_q : points_to ((w.traders p).partner) q ≡ true = ground (arith, busy, e) in
        absurd (
          ground (
            arith,
            (h.mutual_partner p q to_q).0,
            ap (λ o. points_to o p) (none_shape y.state y.partner y.item (h.shaped q) free').0,
          ))
    allowed (inr busy) (inr busy') e e' = rw busy' (
        counter-IsFair p q i w h two new (ground (arith, busy, e))
          (points_to-some ((w.traders p).partner) q (ground (arith, busy, e))))
