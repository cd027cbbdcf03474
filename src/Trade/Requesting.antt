-- ===== src/Trade/Requesting.antt =====
-- Trades of src/game.cpp are requested.
use otservbr_global.Common.{
  ℕ, ◌≤◌, ◌≡◌, refl, ◌≢◌, inl, inr, true, false, not, ◌||◌, Option, none, some, List, [], ◌∷◌,
  arith, ltb, ◌==◌, Bool-cases, Option-cases,
}
use otservbr_global.Trade.{
  Trades, lookup, internal_start_trade, Request, is_holding, is_traded, holding_count, request_with,
  player_request_trade,
}
use otservbr_global.Trade.Fair.{IsFair}
use otservbr_global.Trade.Starting.{internal_start_trade-IsFair}

-- The item stands in no entry, and neither holds an item of the table nor lies in one.
abbrev pub IsApart : (ℕ → Option (List ℕ)) → ℕ → List (ℕ × ℕ) → Type 0
IsApart holds i [] = Unit {0}
IsApart holds i ((j, p) ∷ m) =
    (i ≢ j)
    × (is_holding (holds i) j ≡ false)
    × (is_holding (holds j) i ≡ false)
    × IsApart holds i m

is_traded-IsApart :
    (holds : ℕ → Option (List ℕ)) (i : ℕ) (m : List (ℕ × ℕ))
    → is_traded holds i m ≡ false
    → IsApart holds i m × (lookup i m ≡ none)
unfolding is_traded lookup
is_traded-IsApart holds i [] h = (tt, refl)
is_traded-IsApart holds i ((j, p) ∷ m) h =
    let (rest, absent) = is_traded-IsApart holds i m (ground (arith, h)) in
    ((ground (arith, h), ground (arith, h), ground (arith, h), rest), ground (arith, h, absent))

-- What a request comes to: nothing, or the start of a trade for the thing that was found.
pub data Requested (r : Request) (p q : ℕ) (w : Trades) : Trades → Type 0 where
  refused : Requested r p q w w
  placed :
      (i : ℕ)
      → r.thing ≡ some i
      → (r.is_online p ≡ true) × (r.is_online q ≡ true) × (p ≢ q)
      → (r.near ≡ true) × (r.can_throw ≡ true) × (r.item_near i ≡ true) × (r.tradable i ≡ true)
      → IsApart r.holds i w.trade_items
      → lookup i w.trade_items ≡ none
      → holding_count (r.holds i) ≤ 99
      → r.script ≡ true
      → Requested r p q w (internal_start_trade p q i w).1

-- A request changes nothing, or starts a trade of the thing that was found between two players who are
-- different, online and near, for an item that is near and may be traded, holds 99 items at most, and
-- is neither on the table nor in an item on it nor holds one; and only where the script allows it.
pub player_request_trade-Requested :
    (r : Request) (p q : ℕ) (w : Trades) → Requested r p q w (player_request_trade r p q w)
unfolding player_request_trade request_with
player_request_trade-Requested r p q w = elim (Bool-cases (r.is_online p)) [
  | inr a ↦ simp (player_request_trade, a) refused
  | inl a ↦ elim (Bool-cases (not (r.is_online q) || (q == p))) [
    | inl b ↦ simp (player_request_trade, a, b) refused
    | inr b ↦ elim (Bool-cases (not r.near || not r.can_throw)) [
      | inl c ↦ simp (player_request_trade, a, b, c) refused
      | inr c ↦ elim (Option-cases r.thing) [
        | inl o ↦ simp (player_request_trade, a, b, c, o) refused
        | inr t ↦
            simp (player_request_trade, a, b, c, t.1)
              (asked t.0 t.1 (a, ground (arith, b), ground (arith, b))
                (ground (arith, c), ground (arith, c)))
      ]
    ]
  ]
]
  where
    asked :
        (i : ℕ)
        → r.thing ≡ some i
        → (r.is_online p ≡ true) × (r.is_online q ≡ true) × (p ≢ q)
        → (r.near ≡ true) × (r.can_throw ≡ true)
        → Requested r p q w (request_with r p q i w)
    asked i found there near = elim (Bool-cases (not (r.tradable i) || not (r.same_floor i))) [
      | inl a ↦ simp (request_with, a) refused
      | inr a ↦ elim (Bool-cases (r.item_near i)) [
        | inr b ↦ simp (request_with, a, b) refused
        | inl b ↦ elim (Bool-cases (is_traded r.holds i w.trade_items)) [
          | inl c ↦ simp (request_with, a, b, c) refused
          | inr c ↦ elim (Bool-cases (ltb 99 (holding_count (r.holds i)))) [
            | inl d ↦ simp (request_with, a, b, c, d) refused
            | inr d ↦ elim (Bool-cases r.script) [
              | inr e ↦ simp (request_with, a, b, c, d, e) refused
              | inl e ↦
                  simp (request_with, a, b, c, d, e)
                    (let apart = is_traded-IsApart r.holds i w.trade_items c in
                      placed i found there (near.0, near.1, b, ground (arith, a)) apart.0 apart.1
                        (ground (arith, d)) e)
            ]
          ]
        ]
      ]
    ]

Requested-IsFair :
    (r : Request) (p q : ℕ) (w w' : Trades) → IsFair w → Requested r p q w w' → IsFair w'
Requested-IsFair r p q w _ h refused = h
Requested-IsFair r p q w _ h (placed i found there near apart new few script) =
    internal_start_trade-IsFair p q i w h there.2 new

pub player_request_trade-IsFair :
    (r : Request) (p q : ℕ) (w : Trades) → IsFair w → IsFair (player_request_trade r p q w)
player_request_trade-IsFair r p q w h =
    Requested-IsFair r p q w _ h (player_request_trade-Requested r p q w)
