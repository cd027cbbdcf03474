-- ===== src/Trade/Closing.antt =====
-- A trade of src/game.cpp is closed, and players see to it that trades are closed in time.
use otservbr_global.Common.{
  ℕ, ◌≡◌, refl, sym, ap, ap₂, ◌∙◌, fun_ext, ◌≢◌, inl, inr, Bool, true, false, ◌||◌, Option, none,
  some, List, [], ◌∷◌, arith, ◌==◌, ==_iff, Bool-cases, Option-cases,
}
use mathlib.Core.Path.{subst}
use otservbr_global.Common.Places.{write_at, write_at_lem, has, points_to}
use otservbr_global.Trade.{
  TradeState, no_trade, initiated, accepted, acknowledged, transferring, Trader, Trades,
  is_transferring, free_trader, set_trader, cancel_item, close_side, partner_transfers,
  internal_close_trade, close_all, check_trade_state, player_close_trade,
}
use otservbr_global.Trade.Fair.{
  IsFair, IsShaped, IsShapedIn, has_some, points_to_self, PairStep, PairStep-IsFair,
}
use otservbr_global.Trade.Clearing.{
  cleared, cleared-PairStep, set_trader-other, cancel_item-set_trader, cancel_item-traders,
}

-- A player without a partner has no trade.
shaped_free : (x : Trader) → IsShaped x → x.partner ≡ none → x ≡ free_trader
shaped_free x h free = shaped x.state x.partner x.item h free
  where
    shaped :
        (s : TradeState) (o i : Option ℕ)
        → IsShapedIn s o i
        → o ≡ none
        → record { state = s; partner = o; item = i } ≡ free_trader
    shaped no_trade o i k e =
        ap₂ (λ a b. record { state = no_trade; partner = a; item = b }) k.0 k.1
    shaped initiated o i k e = absurd (ground (arith, k.0, ap has_some e))
    shaped accepted o i k e = absurd (ground (arith, k, ap has_some e))
    shaped acknowledged o i k e = absurd (ground (arith, k.0, ap has_some e))
    shaped transferring o i k e = absurd (ground (arith, k, ap has_some e))

close_side_free : (w : Trades) (p : ℕ) → w.traders p ≡ free_trader → close_side p w ≡ w
unfolding close_side cancel_item set_trader
close_side_free w p e =
    ap (λ x. set_trader p free_trader (cancel_item x.item w)) e
    ∙ ap (λ f. record w { traders = f }) (fun_ext same)
  where
    same : (r : ℕ) → write_at p free_trader w.traders r ≡ w.traders r
    same r = elim (Bool-cases (r == p)) [
      | inl t ↦ write_at_lem p free_trader w.traders r ∙ rw (t, (==_iff r p).0 t) (sym e)
      | inr t ↦ write_at_lem p free_trader w.traders r ∙ rw t refl
    ]

close_both :
    (w : Trades) (p q : ℕ)
    → p ≢ q
    → close_side q (close_side p w) ≡ cleared w p q free_trader free_trader
unfolding close_side
close_both w p q two =
    let at_q : (close_side p w).traders q ≡ w.traders q =
      set_trader-other p q free_trader _ (λ e. two (sym e))
      ∙ ap (λ f. f q) (cancel_item-traders ((w.traders p).item) w) in
    ap (λ x. set_trader q free_trader (cancel_item x.item (close_side p w))) at_q
    ∙ ap (set_trader q free_trader) (cancel_item-set_trader ((w.traders q).item) p free_trader _)

-- What closing a trade comes to: nothing while it is being carried out, nor for a player without one,
-- and otherwise both players lose it.
pub data Closed (w : Trades) (p : ℕ) : Trades → Type 0 where
  untouched : Closed w p w
  ended :
      (q : ℕ)
      → (w.traders p).partner ≡ some q
      → is_transferring ((w.traders p).state) ≡ false
      → Closed w p (cleared w p q free_trader free_trader)

pub internal_close_trade-Closed :
    (w : Trades) (p : ℕ) → IsFair w → Closed w p (internal_close_trade p w)
unfolding internal_close_trade
internal_close_trade-Closed w p h =
    elim (Bool-cases (
      partner_transfers w.traders ((w.traders p).partner)
      || is_transferring ((w.traders p).state))) [
        | inl e ↦ rw (internal_close_trade, e) untouched
        | inr e ↦ elim (Option-cases ((w.traders p).partner)) [
          | inl free ↦
              let unused = close_side_free w p (shaped_free (w.traders p) (h.shaped p) free) in
              subst (Closed w p) (sym (rw (internal_close_trade, e, free) unused)) untouched
          | inr s ↦
              let two : p ≢ s.0 = λ t. ground (arith, h.alone p, ap (λ o. points_to o p) s.1) in
              subst (Closed w p) (sym (rw (internal_close_trade, e, s.1) (close_both w p s.0 two)))
                (ended s.0 s.1 (ground arith))
        ]
      ]

free_pair :
    (w : Trades) (p q : ℕ)
    → IsFair w
    → (w.traders p).partner ≡ some q
    → is_transferring ((w.traders p).state) ≡ false
    → PairStep w p q (cleared w p q free_trader free_trader)
free_pair w p q h partner still =
    cleared-PairStep w p q free_trader free_trader h partner still (refl, refl) (inr (refl, refl))
      (refl, refl) (refl, refl)

Closed-IsFair : (w : Trades) (p : ℕ) (w' : Trades) → IsFair w → Closed w p w' → IsFair w'
Closed-IsFair w p _ h untouched = h
Closed-IsFair w p _ h (ended q partner still) =
    PairStep-IsFair w p q (cleared w p q free_trader free_trader) h
      (free_pair w p q h partner still)

pub internal_close_trade-IsFair :
    (w : Trades) (p : ℕ) → IsFair w → IsFair (internal_close_trade p w)
internal_close_trade-IsFair w p h = Closed-IsFair w p _ h (internal_close_trade-Closed w p h)

-- A trade that is being carried out is not closed by anybody.
Closed-transferring :
    (w : Trades) (p r : ℕ) (w' : Trades)
    → IsFair w
    → Closed w r w'
    → is_transferring ((w.traders p).state) ≡ true
    → w'.traders p ≡ w.traders p
Closed-transferring w p r _ h untouched busy = refl
Closed-transferring w p r _ h (ended q partner still) busy =
    (free_pair w r q h partner still).others p
      (λ e. ground (arith, still, ap (λ t. is_transferring ((w.traders t).state)) e))
      (λ e. ground (
        arith,
        still,
        ap (λ t. is_transferring ((w.traders t).state)) e,
        (h.mutual_partner r q (ap (λ o. points_to o q) partner ∙ points_to_self q)).1,
      ))

pub close_all_lem :
    (rs : List ℕ) (w : Trades) (p q : ℕ)
    → IsFair w
    → is_transferring ((w.traders p).state) ≡ true
    → is_transferring ((w.traders q).state) ≡ true
    → IsFair (close_all rs w)
      × ((close_all rs w).traders p ≡ w.traders p)
      × ((close_all rs w).traders q ≡ w.traders q)
unfolding close_all
close_all_lem [] w p q h busy busy' = (h, refl, refl)
close_all_lem (r ∷ rs) w p q h busy busy' =
    let closed = internal_close_trade-Closed w r h in
    let w' = internal_close_trade r w in
    let same = Closed-transferring w p r w' h closed busy in
    let same' = Closed-transferring w q r w' h closed busy' in
    let (fair, at_p, at_q) =
      close_all_lem rs w' p q (internal_close_trade-IsFair w r h)
        (ap (λ x. is_transferring x.state) same ∙ busy)
        (ap (λ x. is_transferring x.state) same' ∙ busy') in
    (fair, at_p ∙ same, at_q ∙ same')

pub check_trade_state-IsFair :
    (p i : ℕ) (containers : List ℕ) (w : Trades)
    → IsFair w
    → IsFair (check_trade_state p i containers w)
unfolding check_trade_state
check_trade_state-IsFair p i containers w h = elim (Option-cases ((w.traders p).item)) [
  | inl e ↦ rw (check_trade_state, e) h
  | inr s ↦ elim (Bool-cases (is_transferring ((w.traders p).state))) [
    | inl e ↦ rw (check_trade_state, s.1, e) h
    | inr e ↦ elim (Bool-cases ((s.0 == i) || has s.0 containers)) [
      | inl t ↦ rw (check_trade_state, s.1, e, t) (internal_close_trade-IsFair w p h)
      | inr t ↦ rw (check_trade_state, s.1, e, t) h
    ]
  ]
]

pub player_close_trade-IsFair :
    (is_online : ℕ → Bool) (p : ℕ) (w : Trades)
    → IsFair w
    → IsFair (player_close_trade is_online p w)
unfolding player_close_trade
player_close_trade-IsFair is_online p w h = elim (Bool-cases (is_online p)) [
  | inl e ↦ rw e (internal_close_trade-IsFair w p h)
  | inr e ↦ rw e h
]
