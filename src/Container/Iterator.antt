-- ===== src/Container/Iterator.antt =====
-- The walk of `ContainerIterator` of src/container.cpp through the containers in a container, and the
-- methods that count or look for items by it.
-- The lists of `over` are what is left of the front container, from `cur` on, and the containers that
-- wait in full. The loops run on fuel, the number of items that there are.
use otservbr_global.Common.{
  ℕ, zero, suc, ◌+◌, ◌%◌, ◌≤◌, ◌<◌, ◌≡◌, refl, ap, ◌∙◌, Bool, true, false, Option, none, some, List,
  [], ◌∷◌, ◌++◌, arith, ltb, ◌==◌, if◌then◌else◌,
}
use otservbr_global.Common.Words.{u32_mod, add32}
use otservbr_global.Container.{Item, simple, holder, Items, no_items, more_items, thing_of}

abbrev pub get_container : Item → Option Items
get_container (simple t) = none
get_container (holder t b is) = some is

-- `++cur`, and `over.pop_front()` at the end of a container
abbrev pub step_over : Items → List Items → List Items
step_over no_items rest = rest
step_over (more_items x is) rest = more_items x is ∷ rest

-- `over.push_back(c)` for a container that is not empty
abbrev pub push_over : List Items → Option Items → List Items
push_over rest none = rest
push_over rest (some no_items) = rest
push_over rest (some (more_items x is)) = rest ++ (more_items x is ∷ [])

unfoldable pub advance : Item → Items → List Items → List Items
advance x is rest = step_over is (push_over rest (get_container x))

-- The loop of the counting methods.
unfoldable pub counting : (Item → Bool) → ℕ → List Items → ℕ → ℕ
counting f zero over counter = counter
counting f (suc n) [] counter = counter
counting f (suc n) (no_items ∷ rest) counter = counter
counting f (suc n) (more_items x is ∷ rest) counter =
    counting f n (advance x is rest) (if f x then add32 counter 1 else counter)

-- The loop of `isHoldingItem`.
unfoldable pub finding : ℕ → ℕ → List Items → Bool
finding a zero over = false
finding a (suc n) [] = false
finding a (suc n) (no_items ∷ rest) = false
finding a (suc n) (more_items x is ∷ rest) =
    let later = finding a n (advance x is rest) in if (thing_of x).address == a then true else later

unfoldable mutual
  -- How many items, at any depth, pass a test.
  pub tally_item : (Item → Bool) → Item → ℕ
  tally_item f (simple t) = if f (simple t) then 1 else 0
  tally_item f (holder t b is) = (if f (holder t b is) then 1 else 0) + tally f is

  pub tally : (Item → Bool) → Items → ℕ
  tally f no_items = 0
  tally f (more_items x is) = tally_item f x + tally f is

abbrev pub is_any : Item → Bool
is_any x = true

abbrev pub is_container : Item → Bool
is_container (simple t) = false
is_container (holder t b is) = true

abbrev pub iterator : Items → List Items
iterator is = step_over is []

unfoldable pub get_item_holding_count : Items → ℕ
get_item_holding_count is = counting is_any (tally is_any is) (iterator is) 0

unfoldable pub get_container_holding_count : Items → ℕ
get_container_holding_count is = counting is_container (tally is_any is) (iterator is) 0

unfoldable pub is_holding_item : ℕ → Items → Bool
is_holding_item a is = finding a (tally is_any is) (iterator is)

-- The lists that wait have an item each.
abbrev IsReady : List Items → Type 0
IsReady [] = Unit {0}
IsReady (no_items ∷ rest) = ⊥
IsReady (more_items x is ∷ rest) = IsReady rest

abbrev tally_over : (Item → Bool) → List Items → ℕ
tally_over f [] = 0
tally_over f (is ∷ rest) = tally f is + tally_over f rest

append-IsReady :
    (rest : List Items) (x : Item) (is : Items)
    → IsReady rest
    → IsReady (rest ++ (more_items x is ∷ []))
append-IsReady [] x is h = tt
append-IsReady (no_items ∷ rest) x is h = h
append-IsReady (more_items y js ∷ rest) x is h = append-IsReady rest x is h

push_over-IsReady :
    (rest : List Items) (o : Option Items) → IsReady rest → IsReady (push_over rest o)
push_over-IsReady rest none h = h
push_over-IsReady rest (some no_items) h = h
push_over-IsReady rest (some (more_items x is)) h = append-IsReady rest x is h

advance-IsReady :
    (x : Item) (is : Items) (rest : List Items) → IsReady rest → IsReady (advance x is rest)
unfolding advance
advance-IsReady x no_items rest h = push_over-IsReady rest (get_container x) h
advance-IsReady x (more_items y js) rest h = push_over-IsReady rest (get_container x) h

tally_over-append :
    (f : Item → Bool) (rest : List Items) (is : Items)
    → tally_over f (rest ++ (is ∷ [])) ≡ tally_over f rest + tally f is
tally_over-append f [] is = omega arith
tally_over-append f (js ∷ rest) is = omega (arith, tally_over-append f rest is)

abbrev in_container : (Item → Bool) → Option Items → ℕ
in_container f none = 0
in_container f (some is) = tally f is

push_over-tally :
    (f : Item → Bool) (rest : List Items) (o : Option Items)
    → tally_over f (push_over rest o) ≡ tally_over f rest + in_container f o
unfolding tally
push_over-tally f rest none = omega arith
push_over-tally f rest (some no_items) = omega arith
push_over-tally f rest (some (more_items x is)) = tally_over-append f rest (more_items x is)

tally_item_lem :
    (f : Item → Bool) (x : Item)
    → tally_item f x ≡ (if f x then 1 else 0) + in_container f (get_container x)
unfolding tally
tally_item_lem f (simple t) = omega arith
tally_item_lem f (holder t b is) = refl

-- A step of the iterator takes one item off what is still to come.
advance-tally :
    (f : Item → Bool) (x : Item) (is : Items) (rest : List Items)
    → tally_over f (more_items x is ∷ rest)
      ≡ (if f x then 1 else 0) + tally_over f (advance x is rest)
unfolding advance tally
advance-tally f x no_items rest =
    omega (arith, tally_item_lem f x, push_over-tally f rest (get_container x))
advance-tally f x (more_items y js) rest =
    omega (arith, tally_item_lem f x, push_over-tally f rest (get_container x))

counting-tally :
    (f : Item → Bool) (n : ℕ) (over : List Items) (counter : ℕ)
    → IsReady over
    → tally_over is_any over ≤ n
    → counter < u32_mod
    → counting f n over counter ≡ (counter + tally_over f over) % u32_mod
unfolding counting
counting-tally f zero [] counter h le lt = omega (arith, lt)
counting-tally f (suc n) [] counter h le lt = omega (arith, lt)
counting-tally f n (no_items ∷ rest) counter h le lt = absurd h
counting-tally f zero (more_items x is ∷ rest) counter h le lt =
    absurd (omega (arith, le, advance-tally is_any x is rest))
counting-tally f (suc n) (more_items x is ∷ rest) counter h le lt =
    let next =
      counting-tally f n (advance x is rest) (if f x then add32 counter 1 else counter)
        (advance-IsReady x is rest h) (omega (arith, le, advance-tally is_any x is rest))
        (ground (arith, lt)) in
    next ∙ counted (f x) (advance-tally f x is rest)
  where
    counted :
        (b : Bool)
        → tally_over f (more_items x is ∷ rest)
          ≡ (if b then 1 else 0) + tally_over f (advance x is rest)
        → ((if b then add32 counter 1 else counter) + tally_over f (advance x is rest)) % u32_mod
          ≡ (counter + tally_over f (more_items x is ∷ rest)) % u32_mod
    counted true e = omega (arith, e)
    counted false e = omega (arith, e)

finding-tally :
    (a n : ℕ) (over : List Items)
    → IsReady over
    → tally_over is_any over ≤ n
    → finding a n over ≡ ltb 0 (tally_over (λ x. (thing_of x).address == a) over)
unfolding finding
finding-tally a zero [] h le = refl
finding-tally a (suc n) [] h le = refl
finding-tally a n (no_items ∷ rest) h le = absurd h
finding-tally a zero (more_items x is ∷ rest) h le =
    absurd (omega (arith, le, advance-tally is_any x is rest))
finding-tally a (suc n) (more_items x is ∷ rest) h le =
    let next =
      finding-tally a n (advance x is rest) (advance-IsReady x is rest h)
        (omega (arith, le, advance-tally is_any x is rest)) in
    found ((thing_of x).address == a) (finding a n (advance x is rest)) next
      (advance-tally (λ y. (thing_of y).address == a) x is rest)
  where
    found :
        (b later : Bool)
        → later ≡ ltb 0 (tally_over (λ y. (thing_of y).address == a) (advance x is rest))
        → tally_over (λ y. (thing_of y).address == a) (more_items x is ∷ rest)
          ≡ (if b then 1 else 0) + tally_over (λ y. (thing_of y).address == a) (advance x is rest)
        → (if b then true else later)
          ≡ ltb 0 (tally_over (λ y. (thing_of y).address == a) (more_items x is ∷ rest))
    found true later e e' = ground (arith, e')
    found false later e e' = ground (arith, e, e')

iterator-IsReady : (is : Items) → IsReady (iterator is)
iterator-IsReady no_items = tt
iterator-IsReady (more_items x is) = tt

iterator-tally : (f : Item → Bool) (is : Items) → tally_over f (iterator is) ≡ tally f is
unfolding tally
iterator-tally f no_items = refl
iterator-tally f (more_items x is) = omega arith

-- The iterator of a container comes to every item in it, at any depth, exactly once: the items and the
-- containers are counted, as 32-bit words, and an item is found exactly if it is in the container.
pub iterator_lem :
    (is : Items) (a : ℕ)
    → (get_item_holding_count is ≡ tally is_any is % u32_mod)
      × (get_container_holding_count is ≡ tally is_container is % u32_mod)
      × (is_holding_item a is ≡ ltb 0 (tally (λ x. (thing_of x).address == a) is))
unfolding get_item_holding_count get_container_holding_count is_holding_item
iterator_lem is a =
    let ready = iterator-IsReady is in
    let enough : tally_over is_any (iterator is) ≤ tally is_any is =
      omega (arith, iterator-tally is_any is) in
    (
      counting-tally is_any (tally is_any is) (iterator is) 0 ready enough (omega arith)
          ∙ ap (λ n. (0 + n) % u32_mod) (iterator-tally is_any is)
          ∙ omega arith,
      counting-tally is_container (tally is_any is) (iterator is) 0 ready enough (omega arith)
          ∙ ap (λ n. (0 + n) % u32_mod) (iterator-tally is_container is)
          ∙ omega arith,
      finding-tally a (tally is_any is) (iterator is) ready enough
          ∙ ap (ltb 0) (iterator-tally (λ x. (thing_of x).address == a) is),
    )
