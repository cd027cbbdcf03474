-- ===== src/Trade/Clearing.antt =====
-- Items that leave the table of src/game.cpp, and players who are set anew.
use otservbr_global.Common.{
  ℕ, ◌-◌, ◌≡◌, refl, sym, ap, ◌∙◌, ◌≢◌, inl, inr, Bool, true, false, Option, none, some, arith,
  ◌==◌, if◌then◌else◌, Option-cases,
}
use mathlib.Core.Path.{subst}
use otservbr_global.Common.Places.{write_at_lem, points_to}
use otservbr_global.Trade.{
  TradeState, no_trade, initiated, accepted, acknowledged, transferring, Trader, Trades,
  is_transferring, lookup, set_trader, cancel_item,
}
use otservbr_global.Trade.Fair.{
  IsFair, IsShaped, offer, offer_in, has_some, lookup-erase_key, points_to_self, others-away,
  points_to-some, ArePartners, PairStep,
}

pub offer_item : (s : TradeState) (o : Option ℕ) → is_transferring s ≡ false → offer_in s o ≡ o
offer_item no_trade o h = refl
offer_item initiated o h = refl
offer_item accepted o h = refl
offer_item acknowledged o h = refl
offer_item transferring o h = absurd (cc)

pub offer_transferring :
    (s : TradeState) (o : Option ℕ) → is_transferring s ≡ true → offer_in s o ≡ none
offer_transferring no_trade o h = absurd (cc)
offer_transferring initiated o h = absurd (cc)
offer_transferring accepted o h = absurd (cc)
offer_transferring acknowledged o h = absurd (cc)
offer_transferring transferring o h = refl

pub set_trader-traders :
    (p r : ℕ) (x : Trader) (w : Trades)
    → (set_trader p x w).traders r ≡ (if r == p then x else w.traders r)
unfolding set_trader
set_trader-traders p r x w = write_at_lem p x w.traders r

pub set_trader-same : (p : ℕ) (x : Trader) (w : Trades) → (set_trader p x w).traders p ≡ x
set_trader-same p x w = set_trader-traders p p x w ∙ ground arith

pub set_trader-other :
    (p r : ℕ) (x : Trader) (w : Trades) → r ≢ p → (set_trader p x w).traders r ≡ w.traders r
set_trader-other p r x w ne =
    let other : (r == p) ≡ false = ground arith in set_trader-traders p r x w ∙ rw other refl

pub cancel_item-traders : (o : Option ℕ) (w : Trades) → (cancel_item o w).traders ≡ w.traders
unfolding cancel_item
cancel_item-traders none w = refl
cancel_item-traders (some i) w = elim (Option-cases (lookup i w.trade_items)) [
  | inl e ↦ rw (cancel_item, e) refl
  | inr s ↦ rw (cancel_item, s.1) refl
]

pub cancel_item-set_trader :
    (o : Option ℕ) (p : ℕ) (x : Trader) (w : Trades)
    → cancel_item o (set_trader p x w) ≡ set_trader p x (cancel_item o w)
unfolding cancel_item set_trader
cancel_item-set_trader none p x w = refl
cancel_item-set_trader (some i) p x w = elim (Option-cases (lookup i w.trade_items)) [
  | inl e ↦ rw (cancel_item, e) refl
  | inr s ↦ rw (cancel_item, s.1) refl
]

pub cancel_two_set :
    (o o' : Option ℕ) (p q : ℕ) (x y : Trader) (w : Trades)
    → cancel_item o' (cancel_item o (set_trader q y (set_trader p x w)))
      ≡ set_trader q y (set_trader p x (cancel_item o' (cancel_item o w)))
cancel_two_set o o' p q x y w =
    ap (cancel_item o') (
      cancel_item-set_trader o q y (set_trader p x w)
      ∙ ap (set_trader q y) (cancel_item-set_trader o p x w))
    ∙ (cancel_item-set_trader o' q y (set_trader p x (cancel_item o w))
        ∙ ap (set_trader q y) (cancel_item-set_trader o' p x (cancel_item o w)))

pub cancel_item-lookup :
    (o : Option ℕ) (w : Trades) (i : ℕ)
    → lookup i (cancel_item o w).trade_items
      ≡ (if points_to o i then none else lookup i w.trade_items)
unfolding cancel_item
cancel_item-lookup none w i = refl
cancel_item-lookup (some j) w i = elim (Option-cases (lookup j w.trade_items)) [
  | inl e ↦ rw (cancel_item, e) (ground (arith, e, ap (λ k. lookup k w.trade_items)))
  | inr s ↦ rw (cancel_item, s.1) (ground (arith, lookup-erase_key i j w.trade_items))
]

abbrev pub Counts : Trades → Type 0
Counts w = (i : ℕ) → w.references i ≡ (if has_some (lookup i w.trade_items) then 1 else 0)

pub cancel_item-Counts : (o : Option ℕ) (w : Trades) → Counts w → Counts (cancel_item o w)
unfolding cancel_item
cancel_item-Counts none w h i = h i
cancel_item-Counts (some j) w h i = elim (Option-cases (lookup j w.trade_items)) [
  | inl e ↦ rw (cancel_item, e) (h i)
  | inr s ↦
      rw (cancel_item, s.1)
        (write_at_lem j (w.references j - 1) w.references i
          ∙ ground (arith, lookup-erase_key i j w.trade_items, h i, h j, s.1))
]

-- What is left of an entry that is taken out where it belongs to either of two.
abbrev left : Bool → Bool → Option ℕ → Option ℕ
left a b o = if b then none else (if a then none else o)

left-others :
    (o : Option ℕ) (a b : Bool) (p q r : ℕ)
    → a ≡ points_to o p
    → b ≡ points_to o q
    → r ≢ p
    → r ≢ q
    → points_to (left a b o) r ≡ points_to o r
left-others none a b p q r e f np nq = ground arith
left-others (some s) a b p q r e f np nq = ground arith

left-two :
    (o : Option ℕ) (a b : Bool) (p q : ℕ)
    → a ≡ points_to o p
    → b ≡ points_to o q
    → (false ≡ points_to (left a b o) p) × (false ≡ points_to (left a b o) q)
left-two none a b p q e f = ground arith
left-two (some s) a b p q e f = ground arith

-- Both take their items off the table.
module _ (w : Trades) (p q : ℕ) (x' y' : Trader) where
  abbrev cleared_items : Trades
  cleared_items = cancel_item ((w.traders q).item) (cancel_item ((w.traders p).item) w)

  abbrev pub cleared : Trades
  cleared = set_trader q y' (set_trader p x' cleared_items)

  cleared-lookup :
      (i : ℕ)
      → lookup i cleared.trade_items ≡ (
          if points_to ((w.traders q).item) i
          then none
          else (if points_to ((w.traders p).item) i then none else lookup i w.trade_items))
  unfolding set_trader
  cleared-lookup i =
      cancel_item-lookup ((w.traders q).item) (cancel_item ((w.traders p).item) w) i
      ∙ ap (λ o. if points_to ((w.traders q).item) i then none else o)
          (cancel_item-lookup ((w.traders p).item) w i)

  cleared-traders : cleared_items.traders ≡ w.traders
  cleared-traders =
      cancel_item-traders ((w.traders q).item) (cancel_item ((w.traders p).item) w)
      ∙ cancel_item-traders ((w.traders p).item) w

  cleared-Counts : Counts w → Counts cleared
  unfolding set_trader
  cleared-Counts h =
      cancel_item-Counts ((w.traders q).item) _ (cancel_item-Counts ((w.traders p).item) w h)

  pub cleared-PairStep :
      IsFair w
      → (w.traders p).partner ≡ some q
      → is_transferring ((w.traders p).state) ≡ false
      → (offer x' ≡ none) × (offer y' ≡ none)
      → ArePartners p q x' y'
      → IsShaped x'
      → IsShaped y'
      → PairStep w p q cleared
  cleared-PairStep h partner still off together shaped_x shaped_y = record {
    two = two;
    others = λ r np nq.
        set_trader-other q r y' _ nq
        ∙ (set_trader-other p r x' _ np ∙ ap (λ f. f r) cleared-traders);
    away = λ r np nq. (others-away w p q r h partner nq, others-away w q p r h partner' np);
    together =
        subst (λ x. ArePartners p q x (cleared.traders q)) (sym at_p)
          (subst (ArePartners p q x') (sym at_q) together);
    first_shaped = subst IsShaped (sym at_p) shaped_x;
    second_shaped = subst IsShaped (sym at_q) shaped_y;
    others_items = λ r i np nq.
        ap (λ o. points_to o r) (cleared-lookup i)
        ∙ left-others (lookup i w.trade_items) _ _ p q r (owns i) (owns' i) np nq;
    first_items = λ i.
        ap (λ x. points_to (offer x) i) at_p
        ∙ (ap (λ o. points_to o i) off.0
            ∙ ((left-two (lookup i w.trade_items) _ _ p q (owns i) (owns' i)).0
                ∙ ap (λ o. points_to o p) (sym (cleared-lookup i))));
    second_items = λ i.
        ap (λ x. points_to (offer x) i) at_q
        ∙ (ap (λ o. points_to o i) off.1
            ∙ ((left-two (lookup i w.trade_items) _ _ p q (owns i) (owns' i)).1
                ∙ ap (λ o. points_to o q) (sym (cleared-lookup i))));
    counted' = cleared-Counts h.counted;
  }
    where
      two : p ≢ q
      two e = ground (arith, h.alone p, ap (λ o. points_to o p) partner)

      partner' : (w.traders q).partner ≡ some p
      partner' =
          points_to-some ((w.traders q).partner) p
            (h.mutual_partner p q (ap (λ o. points_to o q) partner ∙ points_to_self q)).0

      still' : is_transferring ((w.traders q).state) ≡ false
      still' =
          sym (h.mutual_partner p q (ap (λ o. points_to o q) partner ∙ points_to_self q)).1 ∙ still

      at_q : cleared.traders q ≡ y'
      at_q = set_trader-same q y' _

      at_p : cleared.traders p ≡ x'
      at_p = set_trader-other q p y' _ two ∙ set_trader-same p x' _

      owns : (i : ℕ) → points_to ((w.traders p).item) i ≡ points_to (lookup i w.trade_items) p
      owns i =
          ap (λ o. points_to o i)
            (sym (offer_item ((w.traders p).state) ((w.traders p).item) still))
          ∙ h.registered p i

      owns' : (i : ℕ) → points_to ((w.traders q).item) i ≡ points_to (lookup i w.trade_items) q
      owns' i =
          ap (λ o. points_to o i)
            (sym (offer_item ((w.traders q).state) ((w.traders q).item) still'))
          ∙ h.registered q i
