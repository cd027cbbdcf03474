-- ===== src/Container/Balance.antt =====
-- Every operation of src/container.cpp that changes a container keeps the total weights right.
use otservbr_global.Common.{
  ℕ, zero, suc, ◌+◌, ◌%◌, ◌≡◌, refl, ap, inl, inr, not, ◌&&◌, Option, none, some, arith, ◌==◌,
  Bool-cases, Option-cases,
}
use mathlib.Core.Path.{subst}
use otservbr_global.Common.Words.{u32_mod}
use otservbr_global.Container.{
  Thing, ItemType, Item, simple, holder, Items, no_items, more_items, Place, thing_of, whole,
  get_weight, push_back, get_item_by_index, put_at, erase_index, get_thing_index,
  internal_add_thing, add_thing, add_item_back, on_thing, change_at, at_thing, update_thing,
  replace_thing, remove_found, remove_thing, signed_ge,
}
use otservbr_global.Container.Weights.{
  weigh, weigh_all, IsWeighed, AllWeighed, get_weight-weigh, update_item_weight-IsWeighed,
  contents-AllWeighed,
}

-- What is done to a container.
pub data Operation : Type 0 where
  add_first : ℕ → Item → Operation
  add_within : Item → Operation
  add_last : Item → Operation
  update : (Thing → Thing) → ℕ → Operation
  replace : ℕ → Item → Operation
  remove : ℕ → ℕ → Operation

unfoldable pub perform : (ℕ → ItemType) → Operation → Place → Place
perform types (add_first index x) p = add_thing types index x p
perform types (add_within x) p = internal_add_thing types x p
perform types (add_last x) p = add_item_back types x p
perform types (update relabel a) p = update_thing types relabel a p
perform types (replace index x) p = replace_thing types index x p
perform types (remove a count) p = remove_thing types a count p

abbrev or_else : Item → Option Item → Item
or_else x none = x
or_else x (some y) = y

module _ (types : ℕ → ItemType) where
  -- The items that come in are weighed right.
  abbrev pub BringsWeighed : Operation → Type 0
  BringsWeighed (add_first index x) = IsWeighed types x
  BringsWeighed (add_within x) = IsWeighed types x
  BringsWeighed (add_last x) = IsWeighed types x
  BringsWeighed (update relabel a) = Unit {0}
  BringsWeighed (replace index x) = IsWeighed types x
  BringsWeighed (remove a count) = Unit {0}

  push_back-weigh :
      (is : Items) (x : Item)
      → AllWeighed types is
      → IsWeighed types x
      → (weigh_all types (push_back is x) ≡ weigh_all types is + weigh types x)
        × AllWeighed types (push_back is x)
  unfolding push_back weigh IsWeighed
  push_back-weigh no_items x h here = (omega arith, (here, tt))
  push_back-weigh (more_items y is) x h here =
      let (sum, fine) = push_back-weigh is x h.1 here in (omega (arith, sum), (h.0, fine))

  found-weigh :
      (i : ℕ) (is : Items) (x : Item)
      → AllWeighed types is
      → get_item_by_index i is ≡ some x
      → IsWeighed types x
        × AllWeighed types (erase_index i is)
        × (weigh_all types is ≡ weigh types x + weigh_all types (erase_index i is))
  unfolding get_item_by_index erase_index weigh IsWeighed
  found-weigh i no_items x h e = absurd (ground arith)
  found-weigh zero (more_items y is) x h e =
      let same : y ≡ x = ap (or_else x) e in
      (subst (IsWeighed types) same h.0, h.1, ap (λ z. weigh types z + weigh_all types is) same)
  found-weigh (suc i) (more_items y is) x h e =
      let (here, fine, sum) = found-weigh i is x h.1 e in (here, (h.0, fine), omega (arith, sum))

  put_at-weigh :
      (i : ℕ) (is : Items) (x y : Item)
      → AllWeighed types is
      → get_item_by_index i is ≡ some x
      → IsWeighed types y
      → AllWeighed types (put_at i y is)
        × (weigh_all types (put_at i y is) ≡ weigh types y + weigh_all types (erase_index i is))
  unfolding put_at erase_index get_item_by_index weigh IsWeighed
  put_at-weigh i no_items x y h e here = absurd (ground arith)
  put_at-weigh zero (more_items z is) x y h e here = ((here, h.1), refl)
  put_at-weigh (suc i) (more_items z is) x y h e here =
      let (fine, sum) = put_at-weigh i is x y h.1 e here in ((h.0, fine), omega (arith, sum))

  on_thing-IsWeighed :
      (f : Thing → Thing) (x : Item) → IsWeighed types x → IsWeighed types (on_thing f x)
  unfolding IsWeighed
  on_thing-IsWeighed f (simple t) h = tt
  on_thing-IsWeighed f (holder t b is) h = h

  internal_add_thing-IsWeighed :
      (x : Item) (p : Place)
      → IsWeighed types (whole p)
      → IsWeighed types x
      → IsWeighed types (whole (internal_add_thing types x p))
  unfolding internal_add_thing weigh IsWeighed
  internal_add_thing-IsWeighed x p h here =
      update_item_weight-IsWeighed types p (more_items x p.here.itemlist) (get_weight types x) h
        (here, contents-AllWeighed types p h) (omega (arith, get_weight-weigh types x here))

  add_item_back-IsWeighed :
      (x : Item) (p : Place)
      → IsWeighed types (whole p)
      → IsWeighed types x
      → IsWeighed types (whole (add_item_back types x p))
  unfolding add_item_back
  add_item_back-IsWeighed x p h here =
      let (sum, fine) = push_back-weigh p.here.itemlist x (contents-AllWeighed types p h) here in
      update_item_weight-IsWeighed types p (push_back p.here.itemlist x) (get_weight types x) h fine
        (omega (arith, sum, get_weight-weigh types x here))

  change_at-IsWeighed :
      (i : ℕ) (x y : Item) (p : Place)
      → IsWeighed types (whole p)
      → get_item_by_index i p.here.itemlist ≡ some x
      → IsWeighed types y
      → IsWeighed types (whole (change_at types i x y p))
  unfolding change_at
  change_at-IsWeighed i x y p h e here =
      let contents = contents-AllWeighed types p h in
      let (old, rest, sum) = found-weigh i p.here.itemlist x contents e in
      let (fine, sum') = put_at-weigh i p.here.itemlist x y contents e here in
      update_item_weight-IsWeighed types p (put_at i y p.here.itemlist) _ h fine
        (omega (arith, sum, sum', get_weight-weigh types x old, get_weight-weigh types y here))

  at_thing-IsWeighed :
      (a : ℕ) (f : ℕ → Item → Place → Place) (p : Place)
      → IsWeighed types (whole p)
      → ((i : ℕ) (x : Item)
          → get_item_by_index i p.here.itemlist ≡ some x
          → IsWeighed types (whole (f i x p)))
      → IsWeighed types (whole (at_thing a f p))
  unfolding at_thing
  at_thing-IsWeighed a f p h next = elim (Option-cases (get_thing_index a p.here.itemlist)) [
    | inl o ↦ rw (at_thing, o) h
    | inr s ↦ elim (Option-cases (get_item_by_index s.0 p.here.itemlist)) [
      | inl o ↦ rw (at_thing, s.1, o) h
      | inr t ↦ rw (at_thing, s.1, t.1) (next s.0 t.0 t.1)
    ]
  ]

  replace_thing-IsWeighed :
      (index : ℕ) (y : Item) (p : Place)
      → IsWeighed types (whole p)
      → IsWeighed types y
      → IsWeighed types (whole (replace_thing types index y p))
  unfolding replace_thing
  replace_thing-IsWeighed index y p h here =
      elim (Option-cases (get_item_by_index index p.here.itemlist)) [
        | inl o ↦ rw (replace_thing, o) h
        | inr t ↦ rw (replace_thing, t.1) (change_at-IsWeighed index t.0 y p h t.1 here)
      ]

  remove_found-IsWeighed :
      (count i : ℕ) (x : Item) (p : Place)
      → IsWeighed types (whole p)
      → get_item_by_index i p.here.itemlist ≡ some x
      → IsWeighed types (whole (remove_found types count i x p))
  unfolding remove_found
  remove_found-IsWeighed count i x p h e =
      let t = thing_of x in
      let (old, rest, sum) = found-weigh i p.here.itemlist x (contents-AllWeighed types p h) e in
      elim (Bool-cases ((types t.id).stackable && not (count == t.count))) [
        | inl c ↦ rw c (change_at-IsWeighed i x _ p h e (on_thing-IsWeighed _ x old))
        | inr c ↦ rw c (
            update_item_weight-IsWeighed types p (erase_index i p.here.itemlist) _ h rest
              (omega (arith, sum, get_weight-weigh types x old)))
      ]

  -- The containers are weighed right, and the outermost tells the weight of all that is in it.
  abbrev pub IsBalanced : Place → Type 0
  IsBalanced p =
      IsWeighed types (whole p)
      × (get_weight types (whole p) % u32_mod ≡ weigh types (whole p) % u32_mod)

perform-IsWeighed :
    (types : ℕ → ItemType) (op : Operation) (p : Place)
    → IsWeighed types (whole p)
    → BringsWeighed types op
    → IsWeighed types (whole (perform types op p))
unfolding perform add_thing update_thing remove_thing
perform-IsWeighed types (add_first index x) p h here =
    elim (Bool-cases (signed_ge index p.here.box.max_size)) [
      | inl e ↦ rw e h
      | inr e ↦ rw e (internal_add_thing-IsWeighed types x p h here)
    ]
perform-IsWeighed types (add_within x) p h here = internal_add_thing-IsWeighed types x p h here
perform-IsWeighed types (add_last x) p h here = add_item_back-IsWeighed types x p h here
perform-IsWeighed types (update relabel a) p h here = at_thing-IsWeighed types a _ p h (λ i x e.
    let old = (found-weigh types i p.here.itemlist x (contents-AllWeighed types p h) e).0 in
    change_at-IsWeighed types i x _ p h e (on_thing-IsWeighed types relabel x old))
perform-IsWeighed types (replace index x) p h here = replace_thing-IsWeighed types index x p h here
perform-IsWeighed types (remove a count) p h here =
    at_thing-IsWeighed types a _ p h (λ i x e. remove_found-IsWeighed types count i x p h e)

-- Whatever is done to a container, where all total weights are right before and in what comes in,
-- they are right afterwards, in that container and in all around it; the outermost container then
-- tells the weight of all things in it, at 32 bits.
pub perform-IsBalanced :
    (types : ℕ → ItemType) (op : Operation) (p : Place)
    → IsWeighed types (whole p)
    → BringsWeighed types op
    → IsBalanced types (perform types op p)
perform-IsBalanced types op p h brings =
    let kept = perform-IsWeighed types op p h brings in
    (kept, get_weight-weigh types (whole (perform types op p)) kept)
