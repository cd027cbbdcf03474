-- ===== src/Container/Taking.antt =====
-- Whether a container of src/container.cpp gives an item away, `queryRemove`, and what is left then.
use otservbr_global.Common.{
  ℕ, ◌-◌, ◌<◌, ◌≡◌, refl, sym, ap, ◌∙◌, inl, inr, Bool, true, false, not, ◌&&◌, ◌||◌, Option, none,
  some, arith, ltb, ◌==◌, if◌then◌else◌, ==_iff, Bool-cases, Option-cases,
}
use mathlib.Core.Path.{subst}
use otservbr_global.Common.Words.{u8_mod}
use otservbr_global.Container.{
  Thing, ItemType, Item, simple, holder, Items, no_items, more_items, Place, thing_of,
  get_item_by_index, put_at, erase_index, get_thing_index, on_thing, one_more, count_left,
  update_item_weight, change_at, remove_found, remove_thing,
}
use otservbr_global.Container.Removal.{at_thing_found}
use otservbr_global.Container.Query.{ReturnValue, no_error, not_possible, not_moveable}

-- `ignore` is the flag FLAG_IGNORENOTMOVEABLE.
unfoldable pub query_found : (ℕ → ItemType) → Bool → ℕ → Thing → ReturnValue
query_found types ignore count t =
    if (count == 0) || ((types t.id).stackable && ltb t.count count)
    then not_possible
    else if not (types t.id).moveable && not ignore
    then not_moveable
    else no_error

unfoldable pub query_remove : (ℕ → ItemType) → Bool → ℕ → ℕ → Place → ReturnValue
query_remove types ignore a count p = elim (get_thing_index a p.here.itemlist) [
  | none ↦ not_possible
  | some i ↦ elim (get_item_by_index i p.here.itemlist) [
    | none ↦ not_possible
    | some x ↦ query_found types ignore count (thing_of x)
  ]
]

-- Without a part of a stack, or without an item as a whole.
abbrev pub items_left : (ℕ → ItemType) → ℕ → ℕ → Item → Items → Items
items_left types count i x is =
    if (types (thing_of x).id).stackable && ltb count (thing_of x).count
    then put_at i (on_thing (λ t. record t { count = t.count - count }) x) is
    else erase_index i is

abbrev or_zero : Option ℕ → ℕ
or_zero none = 0
or_zero (some i) = i

get_thing_index_lem :
    (a i : ℕ) (is : Items)
    → get_thing_index a is ≡ some i
    → (x : Item) × (get_item_by_index i is ≡ some x) × ((thing_of x).address ≡ a)
unfolding get_thing_index get_item_by_index
get_thing_index_lem a i no_items h = absurd (ground arith)
get_thing_index_lem a i (more_items x is) h =
    searched ((thing_of x).address == a) (get_thing_index a is) refl
      (λ j. get_thing_index_lem a j is) h
  where
    searched :
        (b : Bool) (o : Option ℕ)
        → ((thing_of x).address == a) ≡ b
        → ((j : ℕ)
            → o ≡ some j
            → (y : Item) × (get_item_by_index j is ≡ some y) × ((thing_of y).address ≡ a))
        → (if b then some 0 else one_more o) ≡ some i
        → (y : Item) × (get_item_by_index i (more_items x is) ≡ some y) × ((thing_of y).address ≡ a)
    searched true o e r k =
        subst
          (λ j.
            (y : Item) × (get_item_by_index j (more_items x is) ≡ some y)
            × ((thing_of y).address ≡ a))
          (ap (or_zero) k) (x, refl, (==_iff _ _).0 e)
    searched false none e r k = absurd (ground arith)
    searched false (some j) e r k =
        subst
          (λ l.
            (y : Item) × (get_item_by_index l (more_items x is) ≡ some y)
            × ((thing_of y).address ≡ a))
          (ap (or_zero) k) (r j refl)

on_thing_same :
    (f g : Thing → Thing) (x : Item) → f (thing_of x) ≡ g (thing_of x) → on_thing f x ≡ on_thing g x
on_thing_same f g (simple t) e = ap simple e
on_thing_same f g (holder t b is) e = ap (λ u. holder u b is) e

remove_found-items_left :
    (types : ℕ → ItemType) (ignore : Bool) (count i : ℕ) (x : Item) (p : Place)
    → (thing_of x).count < u8_mod
    → query_found types ignore count (thing_of x) ≡ no_error
    → (remove_found types count i x p).here.itemlist ≡ items_left types count i x p.here.itemlist
unfolding query_found remove_found change_at update_item_weight
remove_found-items_left types ignore count i x p byte h =
    let c = (thing_of x).count in
    let stacks = (types (thing_of x).id).stackable in
    let same : stacks && not (count == c) ≡ stacks && ltb count c = ground (arith, h) in
    elim (Bool-cases (stacks && ltb count c)) [
      | inl e ↦
          let left : count_left c count ≡ c - count = ground arith in
          rw (same, e)
            (ap (λ y. put_at i y p.here.itemlist)
              (on_thing_same (λ t. record t { count = count_left t.count count })
                (λ t. record t { count = t.count - count }) x
                (ap (λ n. record (thing_of x) { count = n }) left)))
      | inr e ↦ rw (same, e) refl
    ]

query_remove_missing :
    (types : ℕ → ItemType) (ignore : Bool) (a count : ℕ) (p : Place)
    → get_thing_index a p.here.itemlist ≡ none
    → query_remove types ignore a count p ≡ not_possible
unfolding query_remove
query_remove_missing types ignore a count p e = rw (query_remove, e) refl

query_remove_held :
    (types : ℕ → ItemType) (ignore : Bool) (a count : ℕ) (p : Place) (i : ℕ) (x : Item)
    → get_thing_index a p.here.itemlist ≡ some i
    → get_item_by_index i p.here.itemlist ≡ some x
    → query_remove types ignore a count p ≡ query_found types ignore count (thing_of x)
unfolding query_remove
query_remove_held types ignore a count p i x e e' = rw (query_remove, e, e') refl

-- A container that gives a number of a thing away, whose count is a byte, holds the thing, and removing
-- that number leaves the rest of the stack in its place, or takes out the item if nothing is left of
-- it or it is no stack; the other items stay.
pub remove_thing-query_remove :
    (types : ℕ → ItemType) (ignore : Bool) (a count : ℕ) (p : Place)
    → ((i : ℕ) (x : Item)
        → get_item_by_index i p.here.itemlist ≡ some x
        → (thing_of x).count < u8_mod)
    → query_remove types ignore a count p ≡ no_error
    → (i : ℕ) × (x : Item) × (get_item_by_index i p.here.itemlist ≡ some x)
      × ((thing_of x).address ≡ a)
      × ((remove_thing types a count p).here.itemlist ≡ items_left types count i x p.here.itemlist)
unfolding remove_thing
remove_thing-query_remove types ignore a count p bytes h =
    elim (Option-cases (get_thing_index a p.here.itemlist)) [
      | inl o ↦ absurd (ground (arith, query_remove_missing types ignore a count p o))
      | inr s ↦
          let (x, there, named) = get_thing_index_lem a s.0 p.here.itemlist s.1 in
          let allowed : query_found types ignore count (thing_of x) ≡ no_error =
            sym (query_remove_held types ignore a count p s.0 x s.1 there) ∙ h in
          (
            s.0,
            x,
            there,
            named,
            ap (λ (q : Place). q.here.itemlist) (at_thing_found a s.0 x _ p s.1 there)
                ∙ remove_found-items_left types ignore count s.0 x p (bytes s.0 x there) allowed,
          )
    ]
