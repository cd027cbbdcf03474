-- ===== src/Container/Examples.antt =====
-- Runs of src/container.cpp: a backpack with a bag and coins.
use otservbr_global.Common.{
  zero, suc, ◌^◌, Option, ap, ℕ, ◌+◌, ◌-◌, ◌%◌, ◌<◌, ◌≡◌, refl, true, false, none, some, [], ◌∷◌,
  arith, ltb, ◌==◌, if◌then◌else◌,
}
use otservbr_global.Container.{
  Thing, ItemType, Box, Item, simple, holder, no_items, more_items, Place, thing_of, join, plug,
  whole, thing_weight, get_weight, update_item_weight, size, get_item_by_index, put_at, erase_index,
  get_thing_index, internal_add_thing, add_thing, change_at, at_thing, remove_found, remove_thing,
}
use otservbr_global.Common.Words.{u32_mod, u16_mod}
use otservbr_global.Container.Weights.{weigh, IsWeighed}
use otservbr_global.Container.Balance.{add_first, remove, perform, IsBalanced, perform-IsBalanced}
use otservbr_global.Container.Iterator.{
  is_any, is_container, tally, advance, counting, get_item_holding_count,
  get_container_holding_count, is_holding_item, iterator_lem,
}
use otservbr_global.Container.Query.{
  no_error, not_possible, this_is_impossible, Flags, Surroundings, query_add, query_around,
  check_parents, exceeds, climb_containers, get_top_parent_container,
}
use otservbr_global.Container.Admission.{Admits, query_add-Admits}
use otservbr_global.Container.Removal.{remove_thing-add_thing}
use otservbr_global.Container.Taking.{
  query_remove, query_found, items_left, remove_thing-query_remove,
}
use otservbr_global.Container.Room.{query_max_count, stack_room, enough}
use otservbr_global.Container.Slots.{get_free_slots, add_slots}

abbrev thing : ℕ → ℕ → ℕ → Thing
thing a id count = record { address = a; id = id; count = count; weight_attribute = none }

-- A coin weighs 10 and stacks, everything else weighs 800.
abbrev types : ℕ → ItemType
types id =
    if id == 1
    then record { weight = 10; stackable = true; pickupable = true; moveable = true }
    else record { weight = 800; stackable = false; pickupable = true; moveable = true }

abbrev coins : Item
coins = simple (thing 30 1 50)

abbrev sword : Item
sword = simple (thing 40 2 1)

abbrev box : ℕ → ℕ → Box
box places weight = record {
  max_size = places;
  total_weight = weight;
  unlocked = true;
  pagination = false;
}

-- A bag with coins, in a backpack with a sword.
abbrev bag : Place
bag = record {
  here = record { thing = thing 20 3 1; box = box 8 500; itemlist = more_items coins no_items };
  parents =
      record {
        thing = thing 10 4 1;
        box = box 20 2100;
        before = no_items;
        after = more_items sword no_items;
      }
      ∷ [];
}

abbrev street : Surroundings
street = record {
  above = [];
  is_inbox = λ a. false;
  top_answer = none;
  max_item = 100;
  max_container = 10;
}

abbrev count_or : ℕ → Option Item → ℕ
count_or n none = n
count_or n (some x) = (thing_of x).count

abbrev no_flags : Flags
no_flags = record { no_limit = false; child_is_owner = false }

abbrev rope : Item
rope = simple (thing 50 5 1)

-- A pouch with a coin in it.
abbrev pouch : Item
pouch = holder (thing 60 6 1) (box 4 810) (more_items (simple (thing 61 1 1)) no_items)

-- Coins are taken in part, then the rope comes in; the backpack's weight follows.
runs :
    (get_weight types (whole (perform types (remove 30 20) bag)) ≡ 2900 - 200)
    × (get_weight types (whole (perform types (add_first 0 rope) bag)) ≡ 2900 + 800)
    × (get_weight types (whole (perform types (remove 30 50) bag)) ≡ 2900 - 500)
unfolding perform add_thing internal_add_thing update_item_weight remove_thing at_thing
    get_thing_index get_item_by_index remove_found change_at put_at erase_index thing_weight
    get_weight plug join
runs = (refl, refl, refl)

-- The backpack does not go into the bag that is in it.
run_query :
    (query_add types street no_flags true (some rope) bag ≡ no_error)
    × (query_add types street no_flags true (some (whole bag)) bag ≡ this_is_impossible)
    × (query_add types street no_flags true (some pouch) bag ≡ no_error)
    × (query_add types (record street { max_container = 0 }) no_flags true (some pouch) bag
        ≡ not_possible)
unfolding query_add query_around check_parents exceeds climb_containers get_top_parent_container
    size plug join get_item_holding_count get_container_holding_count counting advance tally
run_query = (refl, refl, refl, refl)

-- A container with more items than places tells the free places of an almost empty big one.
run_overfull : get_free_slots (box 1 0) (more_items rope (more_items sword no_items)) ≡ u16_mod - 1
unfolding get_free_slots add_slots size
run_overfull = refl

-- Thirty coins more fit on the stack, and six hundred more in the other places of the bag.
run_room :
    query_max_count types
      (λ t u. t.id == u.id)
      street
      no_flags
      none
      (some (simple (thing 60 1 30)))
      30
      bag
    ≡ (no_error, 750)
unfolding query_max_count stack_room enough query_add query_around check_parents exceeds
    climb_containers get_top_parent_container size plug join get_item_holding_count
    get_container_holding_count counting advance tally
run_room = refl

bag-IsWeighed : IsWeighed types (whole bag)
unfolding IsWeighed weigh plug join thing_weight
bag-IsWeighed = (refl, ((refl, (tt, tt)), (tt, tt)))

rope-IsWeighed : IsWeighed types rope
unfolding IsWeighed
rope-IsWeighed = tt

coins-byte :
    (i : ℕ) (x : Item) → get_item_by_index i bag.here.itemlist ≡ some x → (thing_of x).count < 2 ^ 8
unfolding get_item_by_index
coins-byte zero x e = ground (arith, ap (count_or 0) e)
coins-byte (suc i) x e = absurd (ground (arith, ap (count_or 0) e))

coins-query_remove : query_remove types false 30 20 bag ≡ no_error
unfolding query_remove query_found get_thing_index get_item_by_index
coins-query_remove = refl

remove_thing-query_remove_example :
    (i : ℕ) × (x : Item) × (get_item_by_index i bag.here.itemlist ≡ some x)
    × ((thing_of x).address ≡ 30)
    × ((remove_thing types 30 20 bag).here.itemlist ≡ items_left types 20 i x bag.here.itemlist)
remove_thing-query_remove_example =
    remove_thing-query_remove types false 30 20 bag coins-byte coins-query_remove

perform-IsBalanced_example : IsBalanced types (perform types (add_first 0 rope) bag)
perform-IsBalanced_example =
    perform-IsBalanced types (add_first 0 rope) bag bag-IsWeighed rope-IsWeighed

iterator_lem_example :
    let is = more_items (whole bag) (more_items rope no_items) in
    (get_item_holding_count is ≡ tally is_any is % u32_mod)
    × (get_container_holding_count is ≡ tally is_container is % u32_mod)
    × (is_holding_item 30 is ≡ ltb 0 (tally (λ x. (thing_of x).address == 30) is))
iterator_lem_example = iterator_lem (more_items (whole bag) (more_items rope no_items)) 30

query_add-Admits_example : Admits types street false true pouch bag
query_add-Admits_example = query_add-Admits types street no_flags true pouch bag refl run_query.2

remove_thing-add_thing_example : remove_thing types 50 1 (add_thing types 0 rope bag) ≡ bag
remove_thing-add_thing_example = remove_thing-add_thing types 0 1 rope bag bag-IsWeighed refl refl
