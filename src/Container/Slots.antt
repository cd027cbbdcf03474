-- ===== src/Container/Slots.antt =====
-- The free places of a container and those in it: `Container::getFreeSlots` of src/container.cpp, with
-- its 16-bit words.
use otservbr_global.Common.{ℕ, ◌+◌, ◌-◌, ◌%◌, ◌≤◌, ◌<◌, ◌≡◌, ap, ◌∙◌, arith}
use otservbr_global.Common.Words.{u16_mod}
use otservbr_global.Container.{Box, Item, simple, holder, Items, no_items, more_items, size}

-- `std::max<uint16_t>(0, capacity() - size())`: the difference is cut to a word before it is compared.
abbrev pub own_slots : Box → Items → ℕ
own_slots b is = (b.max_size + u16_mod - size is % u16_mod) % u16_mod

unfoldable mutual
  add_item_slots : ℕ → Item → ℕ
  add_item_slots counter (simple t) = counter
  add_item_slots counter (holder t b is) = (counter + add_slots (own_slots b is) is) % u16_mod

  -- The loop over the items.
  pub add_slots : ℕ → Items → ℕ
  add_slots counter no_items = counter
  add_slots counter (more_items x is) = add_slots (add_item_slots counter x) is

unfoldable pub get_free_slots : Box → Items → ℕ
get_free_slots b is = add_slots (own_slots b is) is

unfoldable mutual
  -- The free places in an item, without bounds.
  free_item : Item → ℕ
  free_item (simple t) = 0
  free_item (holder t b is) = (b.max_size - size is) + free is

  pub free : Items → ℕ
  free no_items = 0
  free (more_items x is) = free_item x + free is

unfoldable mutual
  -- No container holds more items than it has places.
  IsWithinItem : Item → Type 0
  IsWithinItem (simple t) = Unit {0}
  IsWithinItem (holder t b is) = (size is ≤ b.max_size) × IsWithin is

  pub IsWithin : Items → Type 0
  IsWithin no_items = Unit {0}
  IsWithin (more_items x is) = IsWithinItem x × IsWithin is

mutual
  unfolding add_slots free IsWithin

  add_item_slots_lem :
      (counter : ℕ) (x : Item)
      → IsWithinItem x
      → counter + free_item x < u16_mod
      → add_item_slots counter x ≡ counter + free_item x
  add_item_slots_lem counter (simple t) h lt = omega arith
  add_item_slots_lem counter (holder t b is) h lt =
      let inner = add_slots_lem (own_slots b is) is h.1 (omega (arith, lt, h.0)) in
      omega (arith, inner, lt, h.0)

  add_slots_lem :
      (counter : ℕ) (is : Items)
      → IsWithin is
      → counter + free is < u16_mod
      → add_slots counter is ≡ counter + free is
  add_slots_lem counter no_items h lt = omega arith
  add_slots_lem counter (more_items x is) h lt =
      let first = add_item_slots_lem counter x h.0 (omega (arith, lt)) in
      ap (λ n. add_slots n is) first
      ∙ (add_slots_lem (counter + free_item x) is h.1 (omega (arith, lt)) ∙ omega arith)

-- Where neither the container nor one in it holds more items than it has places, and there are fewer
-- than 65536 free places, getFreeSlots tells their number.
pub get_free_slots_lem :
    (b : Box) (is : Items)
    → size is ≤ b.max_size
    → IsWithin is
    → (b.max_size - size is) + free is < u16_mod
    → get_free_slots b is ≡ (b.max_size - size is) + free is
unfolding get_free_slots
get_free_slots_lem b is le h lt =
    let own : own_slots b is ≡ b.max_size - size is = omega (arith, le, lt) in
    ap (λ n. add_slots n is) own ∙ add_slots_lem (b.max_size - size is) is h lt
