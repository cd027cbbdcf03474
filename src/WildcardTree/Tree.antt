-- ===== src/WildcardTree/Tree.antt =====
-- The children of a node of src/wildcardtree.cpp as a map.
use otservbr_global.Common.{
  ℕ, ◌≡◌, refl, inl, inr, Bool, true, false, ◌||◌, Option, none, some, List, [], ◌∷◌, arith, ◌==◌,
  if◌then◌else◌, Option-cases,
}
use otservbr_global.WildcardTree.{
  Node, node, Children, nil, child, breakpoint, children, get_child, put_child, erase_child,
  add_child, insert_at,
}

pub get_child-put_child :
    (c e : ℕ) (m : Node) (cs : Children)
    → get_child e (put_child c m cs) ≡ (if c == e then some m else get_child e cs)
unfolding get_child put_child
get_child-put_child c e m nil = refl
get_child-put_child c e m (child d n cs) = ground (arith, get_child-put_child c e m cs)

pub get_child-erase_child :
    (c e : ℕ) (cs : Children)
    → get_child e (erase_child c cs) ≡ (if c == e then none else get_child e cs)
unfolding get_child erase_child
get_child-erase_child c e nil = ground arith
get_child-erase_child c e (child d n cs) = ground (arith, get_child-erase_child c e cs)

-- A child, or the node that `emplace` makes.
abbrev pub child_or : Option Node → Node
child_or none = node false nil
child_or (some m) = m

pub get_child-add_child :
    (c e : ℕ) (b : Bool) (cs : Children)
    → get_child e (add_child c b cs) ≡ (
        if c == e
        then some (
            node
              (b || breakpoint (child_or (get_child c cs)))
              (children (child_or (get_child c cs))))
        else get_child e cs)
unfolding add_child
get_child-add_child c e b cs = elim (Option-cases (get_child c cs)) [
  | inl h ↦ rw (h, add_child) (ground (arith, get_child-put_child c e (node b nil) cs))
  | inr (node x ds, h) ↦
      rw (h, add_child) (ground (arith, get_child-put_child c e (node true ds) cs))
]

-- The child that `insert` leaves at its first character.
abbrev pub inserted : List ℕ → Node → Node
inserted [] m = node true (children m)
inserted (d ∷ rest) m = insert_at d rest m

pub get_child-insert_at :
    (c e : ℕ) (rest : List ℕ) (n : Node)
    → get_child e (children (insert_at c rest n)) ≡ (
        if c == e
        then some (inserted rest (child_or (get_child c (children n))))
        else get_child e (children n))
unfolding insert_at
get_child-insert_at c e [] (node b cs) = ground (arith, get_child-add_child c e true cs)
get_child-insert_at c e (d ∷ rest) (node b cs) = elim (Option-cases (get_child c cs)) [
  | inl h ↦ ground (
    arith,
    get_child-put_child c e (insert_at d rest (node false nil)) (add_child c false cs),
    get_child-add_child c e false cs,
    get_child-add_child c c false cs,
  )
  | inr (node x ds, h) ↦ ground (
    arith,
    get_child-put_child c e (insert_at d rest (node x ds)) (add_child c false cs),
    get_child-add_child c e false cs,
    get_child-add_child c c false cs,
  )
]
