-- ===== src/WildcardTree/Names.antt =====
-- The tree of src/wildcardtree.cpp as a set of names: `insert` adds one and `remove` takes one out.
use otservbr_global.Common.{
  ℕ, ◌≡◌, refl, inl, inr, Bool, true, false, ◌&&◌, Option, none, some, List, [], ◌∷◌, arith, ◌==◌,
  if◌then◌else◌, Option-cases,
}
use otservbr_global.WildcardTree.{
  Node, node, Children, nil, child, breakpoint, children, get_child, insert_at, insert, remove,
  remove_path, put_back, is_nil,
}
use otservbr_global.WildcardTree.Tree.{
  get_child-insert_at, get_child-put_child, get_child-erase_child, child_or,
}

-- Whether a name was inserted: its path exists and ends at a breakpoint.
unfoldable pub contains : List ℕ → Node → Bool
contains [] n = breakpoint n
contains (c ∷ rest) n = elim (get_child c (children n)) [ none ↦ false | some m ↦ contains rest m ]

abbrev pub text_eq : List ℕ → List ℕ → Bool
text_eq [] [] = true
text_eq [] (d ∷ ds) = false
text_eq (c ∷ cs) [] = false
text_eq (c ∷ cs) (d ∷ ds) = (c == d) && text_eq cs ds

pub contains-empty : (s : List ℕ) → contains s (node false nil) ≡ false
unfolding contains get_child
contains-empty [] = refl
contains-empty (c ∷ s) = refl

contains-child_or :
    (s : List ℕ) (o : Option Node)
    → contains s (child_or o) ≡ elim o [ none ↦ false | some m ↦ contains s m ]
contains-child_or s none = contains-empty s
contains-child_or s (some m) = refl

contains-marked :
    (s : List ℕ) (m : Node)
    → contains s (node true (children m)) ≡ (if text_eq s [] then true else contains s m)
unfolding contains
contains-marked [] m = refl
contains-marked (c ∷ s) m = refl

contains-insert_at :
    (c : ℕ) (rest s : List ℕ) (n : Node)
    → contains s (insert_at c rest n) ≡ (if text_eq s (c ∷ rest) then true else contains s n)
unfolding contains insert_at
contains-insert_at c [] [] (node b cs) = refl
contains-insert_at c (d ∷ rest) [] (node b cs) = refl
contains-insert_at c [] (e ∷ s) n = ground (
  arith,
  get_child-insert_at c e [] n,
  contains-marked s (child_or (get_child c (children n))),
  contains-child_or s (get_child c (children n)),
)
contains-insert_at c (d ∷ rest) (e ∷ s) n = ground (
  arith,
  get_child-insert_at c e (d ∷ rest) n,
  contains-insert_at d rest s (child_or (get_child c (children n))),
  contains-child_or s (get_child c (children n)),
)

-- Inserting a name that is not empty adds that name and no other.
pub contains-insert :
    (name s : List ℕ) (n after : Node)
    → insert name n ≡ some after
    → contains s after ≡ (if text_eq s name then true else contains s n)
unfolding insert
contains-insert [] s n after h = cc
contains-insert (c ∷ rest) s n after h = ground (arith, contains-insert_at c rest s n)

-- What `remove` leaves of a child, as far as names go.
get_child-put_back :
    (c e : ℕ) (s : List ℕ) (m : Node) (b : Bool) (cs : Children)
    → contains (e ∷ s) (node b (put_back c m cs))
      ≡ (if c == e then contains s m else contains (e ∷ s) (node b cs))
unfolding put_back contains is_nil
get_child-put_back c e s (node true ds) b cs =
    ground (arith, get_child-put_child c e (node true ds) cs)
get_child-put_back c e s (node false nil) b cs =
    ground (arith, get_child-erase_child c e cs, contains-empty s)
get_child-put_back c e s (node false (child d m ds)) b cs =
    ground (arith, get_child-put_child c e (node false (child d m ds)) cs)

abbrev path_or : Option Node → Node → Node
path_or none n = n
path_or (some n') n = n'

contains-remove_path :
    (name s : List ℕ) (n : Node)
    → contains s (path_or (remove_path name n) n) ≡ (if text_eq s name then false else contains s n)
unfolding remove_path contains
contains-remove_path [] [] (node b cs) = refl
contains-remove_path [] (e ∷ s) (node b cs) = refl
contains-remove_path (c ∷ rest) s (node b cs) = elim (Option-cases (get_child c cs)) [
  | inl h ↦ rw (h, remove_path) (missing s h)
  | inr (m, h) ↦ elim (Option-cases (remove_path rest m)) [
    | inl r ↦
        rw (h, r, remove_path) (untouched m s h (λ t. rw r at (contains-remove_path rest t m)))
    | inr (m', r) ↦
        rw (h, r, remove_path) (replaced m m' s h (λ t. rw r at (contains-remove_path rest t m)))
  ]
]
  where
    missing :
        (t : List ℕ)
        → get_child c cs ≡ none
        → contains t (node b cs) ≡ (if text_eq t (c ∷ rest) then false else contains t (node b cs))
    missing [] h = refl
    missing (e ∷ t) h = ground arith

    untouched :
        (m : Node) (t : List ℕ)
        → get_child c cs ≡ some m
        → ((u : List ℕ) → contains u m ≡ (if text_eq u rest then false else contains u m))
        → contains t (node b cs) ≡ (if text_eq t (c ∷ rest) then false else contains t (node b cs))
    untouched m [] h ih = refl
    untouched m (e ∷ t) h ih = ground (arith, ih t)

    replaced :
        (m m' : Node) (t : List ℕ)
        → get_child c cs ≡ some m
        → ((u : List ℕ) → contains u m' ≡ (if text_eq u rest then false else contains u m))
        → contains t (node b (put_back c m' cs))
          ≡ (if text_eq t (c ∷ rest) then false else contains t (node b cs))
    replaced m m' [] h ih = refl
    replaced m m' (e ∷ t) h ih = ground (arith, get_child-put_back c e t m' b cs, ih t)

-- Removing a name takes out that name and no other; one that is not there changes nothing.
pub contains-remove :
    (name s : List ℕ) (n : Node)
    → contains s (remove name n) ≡ (if text_eq s name then false else contains s n)
unfolding remove
contains-remove name s n = elim (Option-cases (remove_path name n)) [
  | inl h ↦ rw (h, remove) (rw h at (contains-remove_path name s n))
  | inr (n', h) ↦ rw (h, remove) (rw h at (contains-remove_path name s n))
]
