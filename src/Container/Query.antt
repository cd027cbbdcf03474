-- ===== src/Container/Query.antt =====
-- Whether a container of src/container.cpp takes an item: `getTopParentContainer` and `queryAdd`.
use otservbr_global.Common.{
  ℕ, ◌≡◌, refl, Bool, not, ◌&&◌, ◌||◌, Option, none, some, List, [], ◌∷◌, ◌++◌, map, ltb, leb, ◌==◌,
  if◌then◌else◌,
}
use otservbr_global.Common.Words.{add32}
use otservbr_global.Container.{
  ItemType, Item, simple, holder, Items, no_items, Frame, Place, thing_of, item_of, around, plug,
  size,
}
use otservbr_global.Container.Iterator.{
  get_container, get_item_holding_count, get_container_holding_count,
}

-- The answers of the queries of a container.
pub data ReturnValue : Type 0 where
  no_error not_possible cannot_pickup this_is_impossible container_not_enough_room not_moveable :
      ReturnValue

-- The bits of the flags that a container reads.
pub record Flags : Type 0 where
  pub no_limit : Bool
  pub child_is_owner : Bool

-- What stands around the outermost container: the cylinders above it, which addresses are inboxes, the
-- answer of the top parent if that is another cylinder than a container, and the settings MAX_ITEM and
-- MAX_CONTAINER as 32-bit words.
pub record Surroundings : Type 0 where
  pub above : List ℕ
  pub is_inbox : ℕ → Bool
  pub top_answer : Option ReturnValue
  pub max_item : ℕ
  pub max_container : ℕ

-- The loop of `getTopParentContainer` from `thing` on, of which `prev` is the `prevThing`.
unfoldable pub climb_containers : Item → Item → List Frame → Item
climb_containers prev thing [] = prev
climb_containers prev thing (f ∷ fs) = climb_containers thing (around f thing) fs

unfoldable pub get_top_parent_container : Item → List Frame → Item
get_top_parent_container this [] = this
get_top_parent_container this (f ∷ fs) = climb_containers this (around f this) fs

-- The addresses of the cylinders around a container.
abbrev pub enclosing : Surroundings → Place → List ℕ
enclosing s p = map (λ (f : Frame). f.thing.address) p.parents ++ s.above

-- The loops over the parents.
unfoldable pub check_parents : Surroundings → Bool → ℕ → List ℕ → Option ReturnValue
check_parents s no_limit a [] = none
check_parents s no_limit a (c ∷ cs) =
    let rest = check_parents s no_limit a cs in
    if c == a
    then some this_is_impossible
    else if not no_limit && s.is_inbox c
    then some container_not_enough_room
    else rest

abbrev pub contents : Item → Items
contents (simple t) = no_items
contents (holder t b is) = is

-- The limits on what a container holds at any depth.
unfoldable pub exceeds : Surroundings → Option Items → Items → Bool
exceeds s none top = ltb s.max_item (add32 (get_item_holding_count top) 1)
exceeds s (some is) top =
    ltb s.max_container
      (add32 (add32 (get_container_holding_count is) 1) (get_container_holding_count top))
    || (ltb s.max_item (add32 (add32 (get_item_holding_count is) 1) (get_item_holding_count top))
        || ltb s.max_item (add32 (get_item_holding_count top) 1))

-- An early return, if there is one.
abbrev pub answered : Option ReturnValue → ReturnValue → ReturnValue
answered none r = r
answered (some answer) r = answer

-- `queryAdd` for an item that may come in as far as the container itself is concerned.
unfoldable pub query_around : Surroundings → Bool → Bool → Item → Place → ReturnValue
query_around s no_limit wherever x p =
    let full =
      wherever && (leb p.here.box.max_size (size p.here.itemlist) && not p.here.box.pagination) in
    let top = contents (get_top_parent_container (item_of p.here) p.parents) in
    answered (check_parents s no_limit (thing_of x).address (enclosing s p)) (
      if not no_limit && full
      then container_not_enough_room
      else if exceeds s (get_container x) top
      then not_possible
      else answered s.top_answer no_error)

-- `wherever` tells whether the index is INDEX_WHEREEVER.
unfoldable pub query_add :
    (ℕ → ItemType) → Surroundings → Flags → Bool → Option Item → Place → ReturnValue
query_add types s flags wherever none p = if flags.child_is_owner then no_error else not_possible
query_add types s flags wherever (some x) p =
    if flags.child_is_owner
    then no_error
    else if not p.here.box.unlocked
    then not_possible
    else if not (types ((thing_of x).id)).pickupable
    then cannot_pickup
    else if (thing_of x).address == p.here.thing.address
    then this_is_impossible
    else query_around s flags.no_limit wherever x p

climb_containers_lem :
    (prev : Item) (f : Frame) (fs : List Frame) (g : Frame)
    → climb_containers prev (around f prev) (fs ++ (g ∷ [])) ≡ plug (f ∷ fs) prev
unfolding climb_containers plug
climb_containers_lem prev f [] g = refl
climb_containers_lem prev f (h ∷ fs) g = climb_containers_lem (around f prev) h fs g

-- In a container that stands in another one, `getTopParentContainer` finds the container that is just
-- inside the outermost one, and not the outermost one.
pub get_top_parent_container_lem :
    (this : Item) (fs : List Frame) (g : Frame)
    → get_top_parent_container this (fs ++ (g ∷ [])) ≡ plug fs this
unfolding get_top_parent_container climb_containers plug
get_top_parent_container_lem this [] g = refl
get_top_parent_container_lem this (f ∷ fs) g = climb_containers_lem this f fs g
