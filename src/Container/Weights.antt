-- ===== src/Container/Weights.antt =====
-- The total weights that the containers of src/container.cpp keep are those of their contents.
use otservbr_global.Common.{ℕ, ◌+◌, ◌%◌, ◌≡◌, refl, ◌↔◌, List, [], ◌∷◌, map, arith}
use otservbr_global.Common.Words.{u32_mod}
use otservbr_global.Container.{
  ItemType, Item, simple, holder, Items, no_items, more_items, Frame, Place, item_of, join, around,
  plug, whole, thing_weight, get_weight, heavier, heavier_frame, update_item_weight, with_items,
}

-- The weights of all things in an item, as a sum without bounds.
module _ (types : ℕ → ItemType) where
  unfoldable mutual
    pub weigh : Item → ℕ
    weigh (simple t) = thing_weight types t
    weigh (holder t b is) = thing_weight types t + weigh_all is

    pub weigh_all : Items → ℕ
    weigh_all no_items = 0
    weigh_all (more_items x is) = weigh x + weigh_all is

  unfoldable mutual
    -- Each container's total weight is that of what is in it, at 32 bits.
    pub IsWeighed : Item → Type 0
    IsWeighed (simple t) = Unit {0}
    IsWeighed (holder t b is) = (b.total_weight ≡ weigh_all is % u32_mod) × AllWeighed is

    pub AllWeighed : Items → Type 0
    AllWeighed no_items = Unit {0}
    AllWeighed (more_items x is) = IsWeighed x × AllWeighed is

  -- The weight that a container tells is that of all things in it.
  pub get_weight-weigh : (x : Item) → IsWeighed x → get_weight types x % u32_mod ≡ weigh x % u32_mod
  unfolding get_weight weigh IsWeighed
  get_weight-weigh (simple t) h = refl
  get_weight-weigh (holder t b is) h = omega (arith, h.0)

  weigh_all-join : (is js : Items) → weigh_all (join is js) ≡ weigh_all is + weigh_all js
  unfolding join weigh_all
  weigh_all-join no_items js = omega arith
  weigh_all-join (more_items x is) js = omega (arith, weigh_all-join is js)

  AllWeighed-join : (is js : Items) → (AllWeighed (join is js)) ↔ (AllWeighed is × AllWeighed js)
  unfolding join AllWeighed
  AllWeighed-join no_items js = (λ h. (tt, h), λ h. h.1)
  AllWeighed-join (more_items x is) js =
      let e = AllWeighed-join is js in
      (λ h. let (a, b) = e.0 h.1 in ((h.0, a), b), λ h. (h.0.0, e.1 (h.0.1, h.1)))

  -- What stands inside is weighed right if the whole is.
  pub inner-IsWeighed : (fs : List Frame) (x : Item) → IsWeighed (plug fs x) → IsWeighed x
  unfolding plug IsWeighed
  inner-IsWeighed [] x h = h
  inner-IsWeighed (f ∷ fs) x h =
      ((AllWeighed-join f.before (more_items x f.after)).0
        (inner-IsWeighed fs (around f x) h).1).1.0

  -- An item changes by a difference, and so does each container around it.
  plug-IsWeighed :
      (fs : List Frame) (x y : Item) (diff : ℕ)
      → IsWeighed (plug fs x)
      → IsWeighed y
      → weigh y % u32_mod ≡ (weigh x + diff) % u32_mod
      → IsWeighed (plug (map (heavier_frame diff) fs) y)
  unfolding plug IsWeighed weigh
  plug-IsWeighed [] x y diff h here e = here
  plug-IsWeighed (f ∷ fs) x y diff h here e =
      let outer = inner-IsWeighed fs (around f x) h in
      let parts = (AllWeighed-join f.before (more_items x f.after)).0 outer.1 in
      let sum_x = weigh_all-join f.before (more_items x f.after) in
      let sum_y = weigh_all-join f.before (more_items y f.after) in
      plug-IsWeighed fs (around f x) (around (heavier_frame diff f) y) diff h
        (
          omega (arith, e, outer.0, sum_x, sum_y),
          (AllWeighed-join f.before (more_items y f.after)).1 (parts.0, (here, parts.1.1)),
        )
        (omega (arith, e, sum_x, sum_y))

  -- A container gets other items, and all the containers around it the difference.
  pub update_item_weight-IsWeighed :
      (p : Place) (is : Items) (diff : ℕ)
      → IsWeighed (whole p)
      → AllWeighed is
      → weigh_all is % u32_mod ≡ (weigh_all p.here.itemlist + diff) % u32_mod
      → IsWeighed (whole (update_item_weight diff (with_items is p)))
  unfolding update_item_weight IsWeighed weigh
  update_item_weight-IsWeighed p is diff h fine e =
      let inside = inner-IsWeighed p.parents (item_of p.here) h in
      plug-IsWeighed p.parents (item_of p.here) (holder p.here.thing (heavier diff p.here.box) is)
        diff h (omega (arith, inside.0, e), fine) (omega (arith, e))

  pub contents-AllWeighed : (p : Place) → IsWeighed (whole p) → AllWeighed p.here.itemlist
  unfolding IsWeighed
  contents-AllWeighed p h = (inner-IsWeighed p.parents (item_of p.here) h).1
