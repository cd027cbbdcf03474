-- ===== src/Money/Gathering.antt =====
-- What `removeMoney` of src/game.cpp counts: every coin in the slots and in the containers, at any depth.
use otservbr_global.Common.{
  ℕ, zero, suc, ◌+◌, ◌%◌, ◌≤◌, ◌<◌, ◌≡◌, refl, ◌∙◌, inl, inr, List, [], ◌∷◌, ◌++◌, map, arith, ltb,
  ◌==◌, Bool-cases, All,
}
use mathlib.Core.Path.{subst}
use otservbr_global.Common.Words.{u64_mod}
use otservbr_global.Container.{Thing, Item, simple, holder, Items, no_items, more_items}
use otservbr_global.Container.Iterator.{tally, is_container}
use otservbr_global.Money.{
  Coin, get_worth, coin_of, Purse, emplace, purse_with, visit, gather, money_of, entry_coin,
}
use otservbr_global.Money.Change.{coins_worth}

unfoldable mutual
  -- What the coins in an item are worth.
  pub worth_in : Item → ℕ
  worth_in (simple t) = get_worth (coin_of t)
  worth_in (holder t b is) = worth_of is

  pub worth_of : Items → ℕ
  worth_of no_items = 0
  worth_of (more_items x is) = worth_in x + worth_of is

abbrev worth_waiting : List Items → ℕ
worth_waiting [] = 0
worth_waiting (is ∷ queue) = worth_of is + worth_waiting queue

abbrev steps_waiting : List Items → ℕ
steps_waiting [] = 0
steps_waiting (is ∷ queue) = 1 + (tally is_container is + steps_waiting queue)

worth_waiting-append :
    (queue : List Items) (is : Items)
    → worth_waiting (queue ++ (is ∷ [])) ≡ worth_waiting queue + worth_of is
worth_waiting-append [] is = omega arith
worth_waiting-append (js ∷ queue) is = omega (arith, worth_waiting-append queue is)

steps_waiting-append :
    (queue : List Items) (is : Items)
    → steps_waiting (queue ++ (is ∷ [])) ≡ steps_waiting queue + (1 + tally is_container is)
steps_waiting-append [] is = omega arith
steps_waiting-append (js ∷ queue) is = omega (arith, steps_waiting-append queue is)

-- An entry of the map: a coin of some worth.
abbrev pub IsEntry : ℕ × Coin × ℕ → Type 0
IsEntry e = (e.0 ≡ get_worth e.1) × (0 < e.0)

-- A purse that has counted some worth of coins.
pub record Counts (total : ℕ) (p : Purse) : Type 0 where
  pub counted : p.money_count ≡ total % u64_mod
  pub worth : coins_worth (map entry_coin p.money_map) ≡ total
  pub entries : All IsEntry p.money_map

emplace-worth :
    (e : ℕ × Coin × ℕ) (m : List (ℕ × Coin × ℕ))
    → coins_worth (map entry_coin (emplace e m))
      ≡ get_worth (entry_coin e) + coins_worth (map entry_coin m)
unfolding emplace coins_worth
emplace-worth e [] = refl
emplace-worth e (x ∷ m) = elim (Bool-cases (ltb e.0 x.0)) [
  | inl t ↦ rw t refl
  | inr t ↦ rw t (omega (arith, emplace-worth e m))
]

emplace-IsEntry :
    (e : ℕ × Coin × ℕ) (m : List (ℕ × Coin × ℕ))
    → IsEntry e
    → All IsEntry m
    → All IsEntry (emplace e m)
unfolding emplace
emplace-IsEntry e [] h hs = (h, tt)
emplace-IsEntry e (x ∷ m) h hs = elim (Bool-cases (ltb e.0 x.0)) [
  | inl t ↦ rw t (h, hs)
  | inr t ↦ rw t (hs.0, emplace-IsEntry e m h hs.1)
]

purse_with-Counts :
    (t : Thing) (total : ℕ) (p : Purse)
    → Counts total p
    → Counts (total + get_worth (coin_of t)) (purse_with t p)
purse_with-Counts t total p h =
    let worth = get_worth (coin_of t) in
    elim (Bool-cases (worth == 0)) [
      | inl e ↦ rw e (subst (λ n. Counts n p) (ground (arith, e)) h)
      | inr e ↦ rw e (record {
        counted = omega (arith, h.counted);
        worth = emplace-worth (worth, coin_of t, t.address) p.money_map ∙ omega (arith, h.worth);
        entries =
            emplace-IsEntry (worth, coin_of t, t.address) p.money_map (refl, ground (arith, e))
              h.entries;
      })
    ]

-- A visit to a container moves its worth to the purse and to the queue.
record Visits (total : ℕ) (is : Items) (queue : List Items) (out : List Items × Purse)
    : Type 0 where
  steps : steps_waiting out.0 ≡ tally is_container is + steps_waiting queue
  worth :
      (rest : ℕ) × (rest + worth_waiting out.0 ≡ total + (worth_of is + worth_waiting queue))
      × Counts rest out.1

visit-Visits :
    (is : Items) (queue : List Items) (total : ℕ) (p : Purse)
    → Counts total p
    → Visits total is queue (visit is queue p)
unfolding visit tally worth_of
visit-Visits no_items queue total p h = record {
  steps = omega arith;
  worth = (total, omega arith, h);
}
visit-Visits (more_items (simple t) is) queue total p h =
    let next =
      visit-Visits is queue (total + get_worth (coin_of t)) (purse_with t p)
        (purse_with-Counts t total p h) in
    record {
      steps = omega (arith, next.steps);
      worth = (next.worth.0, omega (arith, next.worth.1), next.worth.2);
    }
visit-Visits (more_items (holder t b js) is) queue total p h =
    let next = visit-Visits is (queue ++ (js ∷ [])) total p h in
    record {
      steps = omega (arith, next.steps, steps_waiting-append queue js);
      worth =
          (next.worth.0, omega (arith, next.worth.1, worth_waiting-append queue js), next.worth.2);
    }

gather-Counts :
    (n : ℕ) (queue : List Items) (total : ℕ) (p : Purse)
    → steps_waiting queue ≤ n
    → Counts total p
    → Counts (total + worth_waiting queue) (gather n queue p)
unfolding gather
gather-Counts zero [] total p le h = subst (λ k. Counts k p) (omega arith) h
gather-Counts zero (is ∷ queue) total p le h = absurd (omega (arith, le))
gather-Counts (suc n) [] total p le h = subst (λ k. Counts k p) (omega arith) h
gather-Counts (suc n) (is ∷ queue) total p le h =
    let next = visit is queue p in
    let v = visit-Visits is queue total p h in
    subst (λ k. Counts k (gather n next.0 next.1)) v.worth.1
      (gather-Counts n next.0 v.worth.0 next.1 (omega (arith, le, v.steps)) v.worth.2)

-- The purse has every coin in the slots and in the containers, at any depth, and its count is their
-- worth, at 64 bits.
pub money_of-Counts : (slots : Items) → Counts (worth_of slots) (money_of slots)
unfolding money_of coins_worth
money_of-Counts slots =
    subst (λ k. Counts k (money_of slots)) (omega arith)
      (gather-Counts (1 + tally is_container slots) (slots ∷ []) 0 _ (omega arith)
        (record { counted = omega arith; worth = refl; entries = tt }))
