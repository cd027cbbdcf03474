-- ===== src/Container/Removal.antt =====
-- Items that leave a container of src/container.cpp again.
use otservbr_global.Common.{
  ℕ, ◌<◌, ◌≡◌, refl, ap, ap₂, ◌∙◌, true, false, not, ◌&&◌, some, List, [], ◌∷◌, map, arith, ◌==◌,
  ==_iff,
}
use otservbr_global.Common.Words.{u32_mod, add32, sub32}
use otservbr_global.Container.{
  ItemType, Box, Item, Items, more_items, Frame, Place, thing_of, item_of, around, plug, whole,
  get_weight, heavier, heavier_frame, update_item_weight, get_item_by_index, erase_index,
  get_thing_index, with_items, internal_add_thing, add_thing, signed_ge, at_thing, remove_found,
  remove_thing,
}
use otservbr_global.Container.Weights.{IsWeighed, inner-IsWeighed}

heavier_back : (b : Box) (w : ℕ) → b.total_weight < u32_mod → heavier (sub32 0 w) (heavier w b) ≡ b
heavier_back b w lt = ap (λ n. record b { total_weight = n }) back
  where
    back : add32 (add32 b.total_weight w) (sub32 0 w) ≡ b.total_weight
    back = omega (arith, lt)

frames_back :
    (types : ℕ → ItemType) (fs : List Frame) (x : Item) (w : ℕ)
    → IsWeighed types (plug fs x)
    → map (heavier_frame (sub32 0 w)) (map (heavier_frame w) fs) ≡ fs
unfolding plug IsWeighed
frames_back types [] x w h = refl
frames_back types (f ∷ fs) x w h =
    let outer = inner-IsWeighed types fs (around f x) h in
    ap₂ (λ b gs. record f { box = b } ∷ gs) (heavier_back f.box w (omega (arith, outer.0)))
      (frames_back types fs (around f x) w h)

pub at_thing_found :
    (a i : ℕ) (x : Item) (f : ℕ → Item → Place → Place) (p : Place)
    → get_thing_index a p.here.itemlist ≡ some i
    → get_item_by_index i p.here.itemlist ≡ some x
    → at_thing a f p ≡ f i x p
unfolding at_thing
at_thing_found a i x f p e e' = rw (at_thing, e, e') refl

get_thing_index_first :
    (x : Item) (is : Items) → get_thing_index (thing_of x).address (more_items x is) ≡ some 0
unfolding get_thing_index
get_thing_index_first x is =
    let self : ((thing_of x).address == (thing_of x).address) ≡ true = (==_iff _ _).1 refl in
    rw self refl

remove_found_whole :
    (types : ℕ → ItemType) (count i : ℕ) (x : Item) (p : Place)
    → (types (thing_of x).id).stackable && not (count == (thing_of x).count) ≡ false
    → remove_found types count i x p
      ≡ update_item_weight
          (sub32 0 (get_weight types x))
          (with_items (erase_index i p.here.itemlist) p)
unfolding remove_found
remove_found_whole types count i x p e = rw (remove_found, e) refl

remove_thing_first :
    (types : ℕ → ItemType) (x : Item) (count : ℕ) (p : Place)
    → (types (thing_of x).id).stackable && not (count == (thing_of x).count) ≡ false
    → remove_thing types (thing_of x).address count (internal_add_thing types x p)
      ≡ update_item_weight
          (sub32 0 (get_weight types x))
          (with_items p.here.itemlist (internal_add_thing types x p))
unfolding remove_thing get_item_by_index erase_index internal_add_thing update_item_weight
remove_thing_first types x count p whole_stack =
    at_thing_found (thing_of x).address 0 x _ (internal_add_thing types x p)
      (get_thing_index_first x p.here.itemlist) refl
    ∙ remove_found_whole types count 0 x (internal_add_thing types x p) whole_stack

-- An item that comes into a container and leaves it as a whole again leaves that container and all
-- around it as they were, where their total weights were right.
pub remove_thing-add_thing :
    (types : ℕ → ItemType) (index count : ℕ) (x : Item) (p : Place)
    → IsWeighed types (whole p)
    → signed_ge index p.here.box.max_size ≡ false
    → (types (thing_of x).id).stackable && not (count == (thing_of x).count) ≡ false
    → remove_thing types (thing_of x).address count (add_thing types index x p) ≡ p
unfolding add_thing internal_add_thing update_item_weight IsWeighed
remove_thing-add_thing types index count x p h room whole_stack =
    let w = get_weight types x in
    let inside = inner-IsWeighed types p.parents (item_of p.here) h in
    let taken = remove_thing_first types x count p whole_stack in
    rw room (
      taken
      ∙ ap₂ (λ b fs. record { here = record (p.here) { box = b }; parents = fs })
          (heavier_back p.here.box w (omega (arith, inside.0)))
          (frames_back types p.parents (item_of p.here) w h))
