-- ===== src/WildcardTree/Lookup.antt =====
-- `findOne` of src/wildcardtree.cpp completes a prefix that one name alone continues.
use otservbr_global.Common.{
  ℕ, ◌≡◌, refl, sym, ◌∙◌, ◌≢◌, inl, inr, true, false, none, some, List, [], ◌∷◌, ◌++◌, arith,
  Option-cases, append-nil, append_assoc,
}
use otservbr_global.WildcardTree.{
  Node, node, nil, child, children, get_child, is_nil, walk, complete, find_one, ReturnValue,
  no_error, player_not_online, name_is_too_ambiguous,
}
use mathlib.Core.Path.{subst}
use otservbr_global.WildcardTree.Shape.{
  IsLive, IsForest, IsForest-get_child, some_inj, Built, Built-IsForest,
}
use otservbr_global.WildcardTree.Names.{contains}

-- A name below a live node.
witness : Node → List ℕ
witness (node b nil) = []
witness (node b (child c m cs)) = c ∷ witness m

contains-witness : (n : Node) → IsLive n → IsForest (children n) → contains (witness n) n ≡ true
unfolding witness contains get_child is_nil
contains-witness (node b nil) l f = l
contains-witness (node b (child c (node x ds) cs)) l f =
    ground (arith, contains-witness (node x ds) f.0 f.1)

-- What the second loop says of the names that continue the query.
abbrev Completes : List ℕ → Node → ReturnValue × List ℕ → Type 0
Completes q n (no_error, r) =
    (t : List ℕ) × (r ≡ q ++ t)
    × (contains t n ≡ true)
    × ((u : List ℕ) → contains u n ≡ true → u ≡ t)
Completes q n (name_is_too_ambiguous, r) =
    (t : List ℕ) × (u : List ℕ) × (t ≢ u) × (contains t n ≡ true) × (contains u n ≡ true)
Completes q n (player_not_online, r) = ⊥

Completes-down :
    (q : List ℕ) (c : ℕ) (m : Node) (a : ReturnValue × List ℕ)
    → Completes (q ++ c ∷ []) m a
    → Completes q (node false (child c m nil)) a
unfolding contains get_child
Completes-down q c m (no_error, r) (t, e, has, only) =
    (c ∷ t, e ∙ append_assoc q (c ∷ []) t, ground arith, unique)
  where
    unique : (u : List ℕ) → contains u (node false (child c m nil)) ≡ true → u ≡ c ∷ t
    unique [] h = cc
    unique (d ∷ u) h = ground (arith, only u)
Completes-down q c m (name_is_too_ambiguous, r) (t, u, ne, ht, hu) =
    (c ∷ t, c ∷ u, λ e. ne (ground (arith, e)), ground arith, ground arith)
Completes-down q c m (player_not_online, r) h = h

complete-Completes :
    (q : List ℕ) (n : Node) → IsLive n → IsForest (children n) → Completes q n (complete q n)
unfolding complete is_nil contains get_child
complete-Completes q (node b nil) l f = ([], sym (append-nil q), l, only)
  where
    only : (u : List ℕ) → contains u (node b nil) ≡ true → u ≡ []
    only [] h = refl
    only (d ∷ u) h = cc
complete-Completes q (node true (child c (node x ds) nil)) l f = (
  [],
  c ∷ witness (node x ds),
  λ e. cc e,
  refl,
  ground (arith, contains-witness (node x ds) f.0 f.1),
)
complete-Completes q (node false (child c (node x ds) nil)) l f =
    Completes-down q c (node x ds) _ (complete-Completes (q ++ c ∷ []) (node x ds) f.0 f.1)
complete-Completes q (node b (child c (node x ds) (child d (node y es) cs))) l f = (
  c ∷ witness (node x ds),
  d ∷ witness (node y es),
  λ e. ground (arith, e),
  ground (arith, contains-witness (node x ds) f.0 f.1),
  ground (arith, contains-witness (node y es) f.3.0 f.3.1),
)

contains-walk :
    (q u : List ℕ) (n : Node)
    → contains (q ++ u) n ≡ elim (walk q n) [ none ↦ false | some m ↦ contains u m ]
unfolding walk contains
contains-walk [] u n = refl
contains-walk (c ∷ q) u n = elim (Option-cases (get_child c (children n))) [
  | inl h ↦ rw (h, walk, contains) refl
  | inr (m, h) ↦ rw (h, walk, contains) (contains-walk q u m)
]

IsForest-walk :
    (q : List ℕ) (n m : Node)
    → IsLive n
    → IsForest (children n)
    → walk q n ≡ some m
    → IsLive m × IsForest (children m)
unfolding walk
IsForest-walk [] n m l f h = subst (λ k. IsLive k × IsForest (children k)) (some_inj h) (l, f)
IsForest-walk (c ∷ q) n m l f h = elim (Option-cases (get_child c (children n))) [
  | inl e ↦ cc (rw (e, walk) at h)
  | inr (k, e) ↦
      let (live, forest) = IsForest-get_child c k (children n) f e in
      IsForest-walk q k m live forest (rw (e, walk) at h)
]

IsForest-walked :
    (c : ℕ) (q : List ℕ) (n m : Node)
    → IsForest (children n)
    → walk (c ∷ q) n ≡ some m
    → IsLive m × IsForest (children m)
unfolding walk
IsForest-walked c q n m f h = elim (Option-cases (get_child c (children n))) [
  | inl e ↦ cc (rw (e, walk) at h)
  | inr (k, e) ↦
      let (live, forest) = IsForest-get_child c k (children n) f e in
      IsForest-walk q k m live forest (rw (e, walk) at h)
]

-- What `findOne` may answer to a query: the one name that begins with it; that two do; that none
-- does.
abbrev pub Finds : List ℕ → Node → ReturnValue × List ℕ → Type 0
Finds q n (no_error, r) =
    (t : List ℕ) × (r ≡ q ++ t)
    × (contains (q ++ t) n ≡ true)
    × ((u : List ℕ) → contains (q ++ u) n ≡ true → u ≡ t)
Finds q n (name_is_too_ambiguous, r) =
    (t : List ℕ) × (u : List ℕ) × (t ≢ u)
    × (contains (q ++ t) n ≡ true)
    × (contains (q ++ u) n ≡ true)
Finds q n (player_not_online, r) = (u : List ℕ) → contains (q ++ u) n ≡ false

Finds-walked :
    (q : List ℕ) (n m : Node) (a : ReturnValue × List ℕ)
    → walk q n ≡ some m
    → Completes q m a
    → Finds q n a
Finds-walked q n m (no_error, r) h (t, e, has, only) =
    (t, e, ground (arith, contains-walk q t n), λ u p. only u (ground (arith, contains-walk q u n)))
Finds-walked q n m (name_is_too_ambiguous, r) h (t, u, ne, ht, hu) =
    (t, u, ne, ground (arith, contains-walk q t n), ground (arith, contains-walk q u n))
Finds-walked q n m (player_not_online, r) h bad = absurd bad

-- In a tree built by insertions and removals, `findOne` of a query that is not empty completes it
-- to the only name that begins with it, reports ambiguity where two names do, and absence where
-- none does.
pub find_one-Finds :
    (c : ℕ) (q result : List ℕ) (n : Node) → Built n → Finds (c ∷ q) n (find_one (c ∷ q) result n)
unfolding find_one
find_one-Finds c q result n built = elim (Option-cases (walk (c ∷ q) n)) [
  | inl w ↦ rw (w, find_one) (λ u. rw (contains-walk (c ∷ q) u n) (ground (arith, w)))
  | inr (m, w) ↦
      let (live, forest) = IsForest-walked c q n m (Built-IsForest built) w in
      rw (w, find_one) (Finds-walked (c ∷ q) n m _ w (complete-Completes (c ∷ q) m live forest))
]
