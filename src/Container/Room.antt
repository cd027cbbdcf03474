-- ===== src/Container/Room.antt =====
-- How many of an item a container of src/container.cpp takes: `queryMaxCount`.
-- `equals` is `Item::equals` of src/item.cpp on what the items have beside their contents; an index is
-- none for INDEX_WHEREEVER. `queryAdd` looks at an index for that alone, so one answer of it stands
-- for those at all slots.
use otservbr_global.Common.{
  ℕ, ◌+◌, ◌-◌, ◌*◌, ◌%◌, ◌^◌, ◌<◌, ◌≡◌, ◌∙◌, inl, inr, Bool, true, false, not, ◌&&◌, ◌||◌, Option,
  none, some, arith, ltb, leb, ◌==◌, if◌then◌else◌, Bool-cases, max,
}
use otservbr_global.Common.Words.{u32_mod, add32, sub32}
use otservbr_global.Container.{
  Thing, ItemType, Item, Items, no_items, more_items, Place, thing_of, size, get_item_by_index,
}
use otservbr_global.Container.Query.{
  ReturnValue, no_error, not_possible, cannot_pickup, this_is_impossible, container_not_enough_room,
  not_moveable, Flags, Surroundings, query_add,
}

abbrev pub is_no_error : ReturnValue → Bool
is_no_error no_error = true
is_no_error not_possible = false
is_no_error cannot_pickup = false
is_no_error this_is_impossible = false
is_no_error container_not_enough_room = false
is_no_error not_moveable = false

-- The loop over the stacks; `allowed` is the answer of `queryAdd`.
unfoldable pub stack_room : (Thing → Thing → Bool) → Bool → Thing → ℕ → Items → ℕ
stack_room equals allowed t n no_items = n
stack_room equals allowed t n (more_items x is) =
    let u = thing_of x in
    let fits = not (u.address == t.address) && (equals u t && ltb u.count 100) in
    stack_room equals allowed t (if fits && allowed then add32 n (100 - u.count) else n) is

unfoldable pub room_at : (Thing → Thing → Bool) → Bool → Thing → Option Item → ℕ
room_at equals allowed t none = 0
room_at equals allowed t (some x) =
    let u = thing_of x in if equals t u && (ltb u.count 100 && allowed) then 100 - u.count else 0

-- `std::max<int32_t>(capacity() - size(), 0)`
abbrev pub places_left : ℕ → ℕ → ℕ
places_left capacity size = let d = sub32 capacity size in if ltb d (2 ^ 31) then d else 0

unfoldable pub enough : Bool → ReturnValue
enough b = if b then no_error else container_not_enough_room

-- The answer and `maxQueryCount`.
unfoldable pub query_max_count :
    (ℕ → ItemType)
    → (Thing → Thing → Bool)
    → Surroundings
    → Flags
    → Option ℕ
    → Option Item
    → ℕ
    → Place
    → ReturnValue × ℕ
query_max_count types equals s flags index none count p = (not_possible, 0)
query_max_count types equals s flags index (some x) count p =
    let t = thing_of x in
    let free_slots = places_left p.here.box.max_size (size p.here.itemlist) in
    let allowed = is_no_error (query_add types s flags false (some x) p) in
    let n : ℕ = elim index [
      | none ↦ stack_room equals allowed t 0 p.here.itemlist
      | some i ↦ room_at equals allowed t (get_item_by_index i p.here.itemlist)
    ] in
    let stacked = add32 (free_slots * 100) n in
    if flags.no_limit || p.here.box.pagination
    then (no_error, max 1 count)
    else if (types t.id).stackable
    then (enough (leb count stacked), stacked)
    else (enough (not (free_slots == 0)), free_slots)

abbrev stack_sum : (Thing → Thing → Bool) → Thing → Items → ℕ
stack_sum equals t no_items = 0
stack_sum equals t (more_items x is) =
    let u = thing_of x in
    let fits = not (u.address == t.address) && (equals u t && ltb u.count 100) in
    (if fits then 100 - u.count else 0) + stack_sum equals t is

-- What the stacks take is what each of them lacks of a hundred.
pub stack_room_lem :
    (equals : Thing → Thing → Bool) (t : Thing) (n : ℕ) (is : Items)
    → n < u32_mod
    → stack_room equals true t n is ≡ (n + stack_sum equals t is) % u32_mod
unfolding stack_room
stack_room_lem equals t n no_items lt = omega (arith, lt)
stack_room_lem equals t n (more_items x is) lt =
    let u = thing_of x in
    elim (Bool-cases (not (u.address == t.address) && (equals u t && ltb u.count 100))) [
      | inl e ↦
          rw e (stack_room_lem equals t (add32 n (100 - u.count)) is (omega arith) ∙ omega arith)
      | inr e ↦ rw e (stack_room_lem equals t n is lt ∙ omega arith)
    ]
