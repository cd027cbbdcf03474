-- ===== src/Trade/Fair.antt =====
-- When the players of src/game.cpp and the table of traded items agree, and what a step of a trade has
-- to keep.
use otservbr_global.Common.{
  ℕ, ◌≡◌, sym, ap, ◌∙◌, ◌≢◌, ◌⊎◌, inl, inr, Bool, true, false, Option, none, some, List, [], ◌∷◌,
  arith, ◌==◌, if◌then◌else◌, ==_iff, Bool-cases,
}
use mathlib.Core.Path.{subst}
use otservbr_global.Common.Places.{points_to}
use otservbr_global.Trade.{
  TradeState, no_trade, initiated, accepted, acknowledged, transferring, Trader, Trades,
  is_transferring, lookup, erase_key,
}

abbrev pub has_some : Option ℕ → Bool
has_some none = false
has_some (some i) = true

-- What a player has put on the table. A trade that is being carried out has taken its items off it.
abbrev pub offer_in : TradeState → Option ℕ → Option ℕ
offer_in no_trade o = o
offer_in initiated o = o
offer_in accepted o = o
offer_in acknowledged o = o
offer_in transferring o = none

abbrev pub offer : Trader → Option ℕ
offer x = offer_in x.state x.item

abbrev pub IsShapedIn : TradeState → Option ℕ → Option ℕ → Type 0
IsShapedIn no_trade partner item = (partner ≡ none) × (item ≡ none)
IsShapedIn initiated partner item = (has_some partner ≡ true) × (has_some item ≡ true)
IsShapedIn accepted partner item = has_some partner ≡ true
IsShapedIn acknowledged partner item = (has_some partner ≡ true) × (item ≡ none)
IsShapedIn transferring partner item = has_some partner ≡ true

abbrev pub IsShaped : Trader → Type 0
IsShaped x = IsShapedIn x.state x.partner x.item

-- An item stands in the table exactly under the player who offers it, so that no item is offered twice;
-- partners point to each other and carry a trade out together; the state goes with the partner and the
-- item; a trade holds one reference of each item in the table, and none of any other.
pub record IsFair (w : Trades) : Type 0 where
  pub registered :
      (p i : ℕ) → points_to (offer (w.traders p)) i ≡ points_to (lookup i w.trade_items) p
  pub mutual_partner :
      (p q : ℕ)
      → points_to ((w.traders p).partner) q ≡ true
      → (points_to ((w.traders q).partner) p ≡ true)
        × (is_transferring ((w.traders p).state) ≡ is_transferring ((w.traders q).state))
  pub alone : (p : ℕ) → points_to ((w.traders p).partner) p ≡ false
  pub shaped : (p : ℕ) → IsShaped (w.traders p)
  pub counted : (i : ℕ) → w.references i ≡ (if has_some (lookup i w.trade_items) then 1 else 0)

pub lookup-erase_key :
    (i j : ℕ) (m : List (ℕ × ℕ)) → lookup i (erase_key j m) ≡ (if i == j then none else lookup i m)
unfolding lookup erase_key
lookup-erase_key i j [] = ground arith
lookup-erase_key i j ((k, p) ∷ m) = ground (arith, lookup-erase_key i j m)

pub points_to_self : (q : ℕ) → points_to (some q) q ≡ true
points_to_self q = ground arith

pub points_to_eq : (o : Option ℕ) (p q : ℕ) → points_to o p ≡ true → points_to o q ≡ true → p ≡ q
points_to_eq none p q h k = absurd (ground arith)
points_to_eq (some r) p q h k = ground arith

pub points_to-some : (o : Option ℕ) (q : ℕ) → points_to o q ≡ true → o ≡ some q
points_to-some none q h = absurd (ground arith)
points_to-some (some r) q h = ap some ((==_iff r q).0 h)

-- Nobody but two partners points to either of them.
pub others-away :
    (w : Trades) (p q r : ℕ)
    → IsFair w
    → (w.traders p).partner ≡ some q
    → r ≢ q
    → points_to ((w.traders r).partner) p ≡ false
others-away w p q r h partner ne = elim (Bool-cases (points_to ((w.traders r).partner) p)) [
  | inr e ↦ e
  | inl e ↦ absurd (
      ne (
        points_to_eq ((w.traders p).partner) r q (h.mutual_partner r p e).0
          (ap (λ o. points_to o q) partner ∙ points_to_self q)))
]

-- Nobody points to a player without a partner.
pub nobody-points :
    (w : Trades) (p r : ℕ)
    → IsFair w
    → (w.traders p).partner ≡ none
    → points_to ((w.traders r).partner) p ≡ false
nobody-points w p r h free = elim (Bool-cases (points_to ((w.traders r).partner) p)) [
  | inr e ↦ e
  | inl e ↦ absurd (ground (arith, (h.mutual_partner r p e).0, ap (λ o. points_to o r) free))
]

-- Two players who are each other's partners, or have none.
abbrev pub ArePartners : ℕ → ℕ → Trader → Trader → Type 0
ArePartners p q x y =
    ((x.partner ≡ some q)
      × (y.partner ≡ some p)
      × (is_transferring x.state ≡ is_transferring y.state))
    ⊎ ((x.partner ≡ none) × (y.partner ≡ none))

-- A step that touches two players, and the table where it names them.
pub record PairStep (w : Trades) (p q : ℕ) (w' : Trades) : Type 0 where
  pub two : p ≢ q
  pub others : (r : ℕ) → r ≢ p → r ≢ q → w'.traders r ≡ w.traders r
  pub away :
      (r : ℕ)
      → r ≢ p
      → r ≢ q
      → (points_to ((w.traders r).partner) p ≡ false)
        × (points_to ((w.traders r).partner) q ≡ false)
  pub together : ArePartners p q (w'.traders p) (w'.traders q)
  pub first_shaped : IsShaped (w'.traders p)
  pub second_shaped : IsShaped (w'.traders q)
  pub others_items :
      (r i : ℕ)
      → r ≢ p
      → r ≢ q
      → points_to (lookup i w'.trade_items) r ≡ points_to (lookup i w.trade_items) r
  pub first_items :
      (i : ℕ) → points_to (offer (w'.traders p)) i ≡ points_to (lookup i w'.trade_items) p
  pub second_items :
      (i : ℕ) → points_to (offer (w'.traders q)) i ≡ points_to (lookup i w'.trade_items) q
  pub counted' : (i : ℕ) → w'.references i ≡ (if has_some (lookup i w'.trade_items) then 1 else 0)

-- A player is one of the two, or neither.
pub which {ℓ} :
    (P : ℕ → Type ℓ) (p q : ℕ) → P p → P q → ((r : ℕ) → r ≢ p → r ≢ q → P r) → (r : ℕ) → P r
which P p q at_p at_q else_ r = elim (Bool-cases (r == p)) [
  | inl e ↦ subst P (sym ((==_iff r p).0 e)) at_p
  | inr e ↦ elim (Bool-cases (r == q)) [
    | inl e' ↦ subst P (sym ((==_iff r q).0 e')) at_q
    | inr e' ↦ else_ r (ground arith) (ground arith)
  ]
]

pub PairStep-IsFair :
    (w : Trades) (p q : ℕ) (w' : Trades) → IsFair w → PairStep w p q w' → IsFair w'
PairStep-IsFair w p q w' h s = record {
  registered =
      which
        (λ r. (i : ℕ) → points_to (offer (w'.traders r)) i ≡ points_to (lookup i w'.trade_items) r)
        p q s.first_items s.second_items
        (λ r np nq i.
          ap (λ x. points_to (offer x) i) (s.others r np nq)
          ∙ (h.registered r i ∙ sym (s.others_items r i np nq)));
  mutual_partner =
      which (λ r. (t : ℕ) → points_to ((w'.traders r).partner) t ≡ true → Back r t) p q
        (back-first s.together) (back-second s.together) back-other;
  alone =
      which (λ r. points_to ((w'.traders r).partner) r ≡ false) p q (alone-first s.together)
        (alone-second s.together)
        (λ r np nq. ap (λ x. points_to x.partner r) (s.others r np nq) ∙ h.alone r);
  shaped =
      which (λ r. IsShaped (w'.traders r)) p q s.first_shaped s.second_shaped
        (λ r np nq. subst IsShaped (sym (s.others r np nq)) (h.shaped r));
  counted = s.counted';
}
  where
    Back : ℕ → ℕ → Type 0
    Back r t =
        (points_to ((w'.traders t).partner) r ≡ true)
        × (is_transferring ((w'.traders r).state) ≡ is_transferring ((w'.traders t).state))

    back-first :
        ArePartners p q (w'.traders p) (w'.traders q)
        → (t : ℕ) → points_to ((w'.traders p).partner) t ≡ true
        → Back p t
    back-first (inl (xp, yp, same)) t e =
        subst (Back p)
          (points_to_eq ((w'.traders p).partner) q t (ap (λ o. points_to o q) xp ∙ points_to_self q)
            e)
          (ap (λ o. points_to o p) yp ∙ points_to_self p, same)
    back-first (inr (xp, yp)) t e = absurd (ground (arith, e, ap (λ o. points_to o t) xp))

    back-second :
        ArePartners p q (w'.traders p) (w'.traders q)
        → (t : ℕ) → points_to ((w'.traders q).partner) t ≡ true
        → Back q t
    back-second (inl (xp, yp, same)) t e =
        subst (Back q)
          (points_to_eq ((w'.traders q).partner) p t (ap (λ o. points_to o p) yp ∙ points_to_self p)
            e)
          (ap (λ o. points_to o q) xp ∙ points_to_self q, sym same)
    back-second (inr (xp, yp)) t e = absurd (ground (arith, e, ap (λ o. points_to o t) yp))

    back-other :
        (r : ℕ) → r ≢ p → r ≢ q → (t : ℕ) → points_to ((w'.traders r).partner) t ≡ true → Back r t
    back-other r np nq t e =
        let old : points_to ((w.traders r).partner) t ≡ true =
          ap (λ x. points_to x.partner t) (sym (s.others r np nq)) ∙ e in
        let not_p : t ≢ p = λ tp.
          ground (arith, ap (points_to ((w.traders r).partner)) tp, (s.away r np nq).0, old) in
        let not_q : t ≢ q = λ tq.
          ground (arith, ap (points_to ((w.traders r).partner)) tq, (s.away r np nq).1, old) in
        let back = h.mutual_partner r t old in
        let same_r = s.others r np nq in
        let same_t = s.others t not_p not_q in
        (
          ap (λ x. points_to x.partner r) same_t ∙ back.0,
          ap (λ x. is_transferring x.state) same_r
              ∙ (back.1 ∙ ap (λ x. is_transferring x.state) (sym same_t)),
        )

    alone-first :
        ArePartners p q (w'.traders p) (w'.traders q) → points_to ((w'.traders p).partner) p ≡ false
    alone-first (inl (xp, yp, same)) = ap (λ o. points_to o p) xp ∙ ground (arith, s.two)
    alone-first (inr (xp, yp)) = ap (λ o. points_to o p) xp

    alone-second :
        ArePartners p q (w'.traders p) (w'.traders q) → points_to ((w'.traders q).partner) q ≡ false
    alone-second (inl (xp, yp, same)) = ap (λ o. points_to o q) yp ∙ ground (arith, s.two)
    alone-second (inr (xp, yp)) = ap (λ o. points_to o q) yp
