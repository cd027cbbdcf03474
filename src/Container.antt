-- ===== src/Container.antt =====
-- Containers of items: src/container.cpp, with the weights of src/item.cpp.
-- An item has one parent, so the parent pointers form trees: a place is a container together with the
-- containers around it, from the inside out, each with the items before and after the one that leads
-- inwards. Items are told apart by their addresses. The table of item types is a parameter, as is the
-- part of the world that stands around the outermost container. Sends to clients are not here.
pub mod Weights
pub mod Balance
pub mod Iterator
pub mod Query
pub mod Admission
pub mod Removal
pub mod Slots
pub mod Taking
pub mod Room
mod Examples
use otservbr_global.Common.{
  ℕ, zero, suc, ◌+◌, ◌*◌, ◌%◌, ◌^◌, Bool, not, ◌&&◌, Option, none, some, List, [], ◌∷◌, map, ltb,
  leb, ◌==◌, if◌then◌else◌, max,
}
use otservbr_global.Common.Words.{u8_mod, u32_mod, add32, sub32}

-- What `Item` has of an item that is no container, or of the container itself.
pub record Thing : Type 0 where
  pub address : ℕ
  pub id : ℕ
  pub count : ℕ
  pub weight_attribute : Option ℕ

pub record ItemType : Type 0 where
  pub weight : ℕ
  pub stackable : Bool
  pub pickupable : Bool
  pub moveable : Bool

-- The members of `Container` beside its items.
pub record Box : Type 0 where
  pub max_size : ℕ
  pub total_weight : ℕ
  pub unlocked : Bool
  pub pagination : Bool

mutual
  pub data Item : Type 0 where
    simple : Thing → Item
    holder : Thing → Box → Items → Item

  pub data Items : Type 0 where
    no_items : Items
    more_items : Item → Items → Items

pub record Container : Type 0 where
  pub thing : Thing
  pub box : Box
  pub itemlist : Items

-- A container around another one.
pub record Frame : Type 0 where
  pub thing : Thing
  pub box : Box
  pub before : Items
  pub after : Items

pub record Place : Type 0 where
  pub here : Container
  pub parents : List Frame

abbrev pub thing_of : Item → Thing
thing_of (simple t) = t
thing_of (holder t b is) = t

abbrev pub item_of : Container → Item
item_of c = holder c.thing c.box c.itemlist

unfoldable pub join : Items → Items → Items
join no_items js = js
join (more_items x is) js = more_items x (join is js)

-- The container as its parent sees it, with a new item in the place that leads inwards.
abbrev pub around : Frame → Item → Item
around f x = holder f.thing f.box (join f.before (more_items x f.after))

-- The outermost container.
unfoldable pub plug : List Frame → Item → Item
plug [] x = x
plug (f ∷ fs) x = plug fs (around f x)

abbrev pub whole : Place → Item
whole p = plug p.parents (item_of p.here)

-- `Item::getWeight`
unfoldable pub thing_weight : (ℕ → ItemType) → Thing → ℕ
thing_weight types t =
    let type = types t.id in
    let base : ℕ = elim (t.weight_attribute) [ none ↦ type.weight | some w ↦ w ] in
    if type.stackable then base * max 1 t.count % u32_mod else base % u32_mod

-- `getWeight` of an item or a container
unfoldable pub get_weight : (ℕ → ItemType) → Item → ℕ
get_weight types (simple t) = thing_weight types t
get_weight types (holder t b is) = add32 (thing_weight types t) b.total_weight

abbrev pub heavier : ℕ → Box → Box
heavier diff b = record b { total_weight = add32 b.total_weight diff }

abbrev pub heavier_frame : ℕ → Frame → Frame
heavier_frame diff f = record f { box = heavier diff f.box }

-- `updateItemWeight`, a signed difference by its bit pattern
unfoldable pub update_item_weight : ℕ → Place → Place
update_item_weight diff p = record {
  here = record (p.here) { box = heavier diff p.here.box };
  parents = map (heavier_frame diff) p.parents;
}

unfoldable pub size : Items → ℕ
size no_items = 0
size (more_items x is) = suc (size is)

unfoldable pub push_back : Items → Item → Items
push_back no_items x = more_items x no_items
push_back (more_items y is) x = more_items y (push_back is x)

unfoldable pub get_item_by_index : ℕ → Items → Option Item
get_item_by_index i no_items = none
get_item_by_index zero (more_items x is) = some x
get_item_by_index (suc i) (more_items x is) = get_item_by_index i is

-- `itemlist[index] = item`
unfoldable pub put_at : ℕ → Item → Items → Items
put_at i y no_items = no_items
put_at zero y (more_items x is) = more_items y is
put_at (suc i) y (more_items x is) = more_items x (put_at i y is)

-- `itemlist.erase(itemlist.begin() + index)`
unfoldable pub erase_index : ℕ → Items → Items
erase_index i no_items = no_items
erase_index zero (more_items x is) = is
erase_index (suc i) (more_items x is) = more_items x (erase_index i is)

abbrev one_more : Option ℕ → Option ℕ
one_more none = none
one_more (some i) = some (suc i)

unfoldable pub get_thing_index : ℕ → Items → Option ℕ
get_thing_index a no_items = none
get_thing_index a (more_items x is) =
    let rest = get_thing_index a is in if (thing_of x).address == a then some 0 else one_more rest

abbrev pub with_items : Items → Place → Place
with_items is p = record p { here = record (p.here) { itemlist = is } }

-- `internalAddThing`; also `addThing` behind its guards
unfoldable pub internal_add_thing : (ℕ → ItemType) → Item → Place → Place
internal_add_thing types x p =
    update_item_weight (get_weight types x) (with_items (more_items x p.here.itemlist) p)

-- A comparison of `int32_t`, which are here by their bit patterns.
abbrev pub signed_ge : ℕ → ℕ → Bool
signed_ge a b = leb ((b + 2 ^ 31) % u32_mod) ((a + 2 ^ 31) % u32_mod)

unfoldable pub add_thing : (ℕ → ItemType) → ℕ → Item → Place → Place
add_thing types index x p =
    if signed_ge index p.here.box.max_size then p else internal_add_thing types x p

unfoldable pub add_item_back : (ℕ → ItemType) → Item → Place → Place
add_item_back types x p =
    update_item_weight (get_weight types x) (with_items (push_back p.here.itemlist x) p)

abbrev pub on_thing : (Thing → Thing) → Item → Item
on_thing f (simple t) = simple (f t)
on_thing f (holder t b is) = holder (f t) b is

-- What `updateThing` and `removeThing` do with an item that changes in its place.
unfoldable pub change_at : (ℕ → ItemType) → ℕ → Item → Item → Place → Place
change_at types i x y p =
    update_item_weight (sub32 (get_weight types y) (get_weight types x))
      (with_items (put_at i y p.here.itemlist) p)

-- With the item at the index of a thing, where the container has it.
unfoldable pub at_thing : ℕ → (ℕ → Item → Place → Place) → Place → Place
at_thing a f p = elim (get_thing_index a p.here.itemlist) [
  | none ↦ p
  | some i ↦ elim (get_item_by_index i p.here.itemlist) [ none ↦ p | some x ↦ f i x p ]
]

-- `relabel` is what `setID` and `setSubType` make of the thing.
unfoldable pub update_thing : (ℕ → ItemType) → (Thing → Thing) → ℕ → Place → Place
update_thing types relabel a p = at_thing a (λ i x q. change_at types i x (on_thing relabel x) q) p

unfoldable pub replace_thing : (ℕ → ItemType) → ℕ → Item → Place → Place
replace_thing types index y p = elim (get_item_by_index index p.here.itemlist) [
  | none ↦ p
  | some x ↦ change_at types index x y p
]

-- `std::max<int32_t>(0, item->getItemCount() - count)` as a byte
abbrev pub count_left : ℕ → ℕ → ℕ
count_left held count = let d = sub32 held count in (if ltb d (2 ^ 31) then d else 0) % u8_mod

unfoldable pub remove_found : (ℕ → ItemType) → ℕ → ℕ → Item → Place → Place
remove_found types count i x p =
    let t = thing_of x in
    if (types t.id).stackable && not (count == t.count)
    then change_at types i x (on_thing (λ t'. record t' { count = count_left t'.count count }) x) p
    else update_item_weight (sub32 0 (get_weight types x))
        (with_items (erase_index i p.here.itemlist) p)

unfoldable pub remove_thing : (ℕ → ItemType) → ℕ → ℕ → Place → Place
remove_thing types a count p = at_thing a (λ i x q. remove_found types count i x q) p
