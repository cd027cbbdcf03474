-- ===== src/WildcardTree/Shape.antt =====
-- The shape of the trees of src/wildcardtree.cpp, which `insert` and `remove` keep.
use otservbr_global.Common.{
  ℕ, ◌≡◌, refl, sym, inl, inr, true, false, not, ◌||◌, none, some, List, [], ◌∷◌, arith, ◌==◌,
  Bool-cases, Option-cases,
}
use mathlib.Core.Path.{subst}
use otservbr_global.WildcardTree.{
  Node, node, Children, nil, child, breakpoint, children, get_child, put_child, erase_child,
  add_child, insert_at, insert, remove, remove_path, put_back, is_nil,
}
use otservbr_global.WildcardTree.Tree.{
  get_child-put_child, get_child-erase_child, inserted, child_or,
}

-- A node that `remove` would keep: it has children, or a name ends there.
abbrev pub IsLive : Node → Type 0
IsLive n = (not (is_nil (children n)) || breakpoint n) ≡ true

-- Every node below is live, and no node has two children at one character.
abbrev pub IsForest : Children → Type 0
IsForest nil = Unit {0}
IsForest (child c (node b ds) cs) =
    IsLive (node b ds) × IsForest ds × (get_child c cs ≡ none) × IsForest cs

pub IsForest-get_child :
    (c : ℕ) (m : Node) (cs : Children)
    → IsForest cs
    → get_child c cs ≡ some m
    → IsLive m × IsForest (children m)
unfolding get_child
IsForest-get_child c m nil f h = cc
IsForest-get_child c m (child d (node b ds) cs) f h = elim (Bool-cases (d == c)) [
  | inl e ↦ let same : node b ds ≡ m = ground arith in rw (← same) (f.0, f.1)
  | inr e ↦ IsForest-get_child c m cs f.3 (ground arith)
]

pub some_inj : {n m : Node} → some n ≡ some m → n ≡ m
some_inj h = cc

put_child-IsForest :
    (c : ℕ) (m : Node) (cs : Children)
    → IsLive m
    → IsForest (children m)
    → IsForest cs
    → IsForest (put_child c m cs)
unfolding put_child get_child
put_child-IsForest c (node b ds) nil l f g = (l, f, refl, tt)
put_child-IsForest c (node b ds) (child d (node x es) cs) l f g =
    ground
      (arith, put_child-IsForest c (node b ds) cs l f g.3, get_child-put_child c d (node b ds) cs)

erase_child-IsForest : (c : ℕ) (cs : Children) → IsForest cs → IsForest (erase_child c cs)
unfolding erase_child
erase_child-IsForest c nil f = tt
erase_child-IsForest c (child d (node x es) cs) f =
    ground (arith, erase_child-IsForest c cs f.3, get_child-erase_child c d cs)

put_child-put_child :
    (c : ℕ) (m k : Node) (cs : Children) → put_child c m (put_child c k cs) ≡ put_child c m cs
unfolding put_child
put_child-put_child c m k nil = ground arith
put_child-put_child c m k (child d n cs) = ground (arith, put_child-put_child c m k cs)

put_child-get_child :
    (c : ℕ) (m : Node) (cs : Children) → get_child c cs ≡ some m → put_child c m cs ≡ cs
unfolding put_child get_child
put_child-get_child c m nil h = cc
put_child-get_child c m (child d n cs) h = ground (arith, put_child-get_child c m cs)

-- `insert` writes one child, whether or not it was there.
children-insert_at :
    (c : ℕ) (rest : List ℕ) (n : Node)
    → children (insert_at c rest n)
      ≡ put_child c (inserted rest (child_or (get_child c (children n)))) (children n)
unfolding insert_at add_child
children-insert_at c [] (node b cs) = elim (Option-cases (get_child c cs)) [
  | inl h ↦ rw (h, add_child) refl
  | inr (node true ds, h) ↦ rw (h, add_child) (sym (put_child-get_child c (node true ds) cs h))
  | inr (node false ds, h) ↦ rw (h, add_child) refl
]
children-insert_at c (d ∷ rest) (node b cs) = elim (Option-cases (get_child c cs)) [
  | inl h ↦ ground (
    arith,
    get_child-put_child c c (node false nil) cs,
    put_child-put_child c (insert_at d rest (node false nil)) (node false nil) cs,
  )
  | inr (m, h) ↦ ground (arith, h)
]

IsForest-child_or :
    (c : ℕ) (cs : Children) → IsForest cs → IsForest (children (child_or (get_child c cs)))
IsForest-child_or c cs f = elim (Option-cases (get_child c cs)) [
  | inl h ↦ rw h tt
  | inr (m, h) ↦ rw h (IsForest-get_child c m cs f h).1
]

is_nil-put_child : (c : ℕ) (m : Node) (cs : Children) → is_nil (put_child c m cs) ≡ false
unfolding is_nil put_child
is_nil-put_child c m nil = refl
is_nil-put_child c m (child d n cs) = ground arith

insert_at-IsLive : (c : ℕ) (rest : List ℕ) (n : Node) → IsLive (insert_at c rest n)
insert_at-IsLive c rest n = rw (children-insert_at c rest n) (rw is_nil-put_child refl)

inserted-IsLive : (rest : List ℕ) (m : Node) → IsLive (inserted rest m)
inserted-IsLive [] (node b cs) = ground arith
inserted-IsLive (d ∷ rest) m = insert_at-IsLive d rest m

insert_at-IsForest :
    (c : ℕ) (rest : List ℕ) (n : Node)
    → IsForest (children n)
    → IsForest (children (insert_at c rest n))
insert_at-IsForest c [] n f = rw (children-insert_at c [] n) (
    put_child-IsForest c _ (children n) (inserted-IsLive [] (child_or (get_child c (children n))))
      (IsForest-child_or c _ f) f)
insert_at-IsForest c (d ∷ rest) n f = rw (children-insert_at c (d ∷ rest) n) (
    put_child-IsForest c _ (children n)
      (inserted-IsLive (d ∷ rest) (child_or (get_child c (children n))))
      (insert_at-IsForest d rest _ (IsForest-child_or c _ f)) f)

put_back-IsForest :
    (c : ℕ) (m : Node) (cs : Children)
    → IsForest (children m)
    → IsForest cs
    → IsForest (put_back c m cs)
unfolding put_back
put_back-IsForest c m cs fm f = elim (Bool-cases (not (is_nil (children m)) || breakpoint m)) [
  | inl e ↦ rw e (put_child-IsForest c m cs e fm f)
  | inr e ↦ rw e (erase_child-IsForest c cs f)
]

remove_path-IsForest :
    (name : List ℕ) (n m : Node)
    → IsForest (children n)
    → remove_path name n ≡ some m
    → IsForest (children m)
unfolding remove_path
remove_path-IsForest [] (node b cs) m f h = subst (λ k. IsForest (children k)) (some_inj h) f
remove_path-IsForest (c ∷ rest) (node b cs) m f h = elim (Option-cases (get_child c cs)) [
  | inl e ↦ cc (rw (e, remove_path) at h)
  | inr (k, e) ↦ elim (Option-cases (remove_path rest k)) [
    | inl r ↦ cc (rw (e, r, remove_path) at h)
    | inr (k', r) ↦
        let kept = remove_path-IsForest rest k k' (IsForest-get_child c k cs f e).1 r in
        subst (λ t. IsForest (children t)) (some_inj (rw (e, r, remove_path) at h))
          (put_back-IsForest c k' cs kept f)
  ]
]

-- The trees that a program gets from an empty one by inserting and removing names.
pub data Built : Node → Type 0 where
  empty : (n : Node) → n ≡ node false nil → Built n
  inserted_in : {n m : Node} (name : List ℕ) → Built n → insert name n ≡ some m → Built m
  removed_from : {n : Node} (name : List ℕ) → Built n → Built (remove name n)

insert-IsForest :
    (name : List ℕ) (n m : Node)
    → IsForest (children n)
    → insert name n ≡ some m
    → IsForest (children m)
unfolding insert
insert-IsForest [] n m f h = cc
insert-IsForest (c ∷ rest) n m f h =
    subst (λ k. IsForest (children k)) (some_inj h) (insert_at-IsForest c rest n f)

remove-IsForest :
    (name : List ℕ) (n : Node) → IsForest (children n) → IsForest (children (remove name n))
unfolding remove
remove-IsForest name n f = elim (Option-cases (remove_path name n)) [
  | inl e ↦ rw (e, remove) f
  | inr (m, e) ↦ rw (e, remove) (remove_path-IsForest name n m f e)
]

-- Every such tree is well formed: each node but the root leads to a name, and the children of a
-- node have different characters.
pub Built-IsForest : {n : Node} → Built n → IsForest (children n)
Built-IsForest (empty n e) = rw e tt
Built-IsForest (inserted_in {n} {m} name built h) =
    insert-IsForest name n m (Built-IsForest built) h
Built-IsForest (removed_from {n} name built) = remove-IsForest name n (Built-IsForest built)
