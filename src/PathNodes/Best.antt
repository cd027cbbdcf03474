-- ===== src/PathNodes/Best.antt =====
-- The best node of the path search of src/map.cpp.
use otservbr_global.Common.{
  ℕ, zero, suc, ◌+◌, ◌-◌, ◌^◌, ◌≤◌, ◌<◌, ◌≡◌, ap, inl, inr, true, false, ◌&&◌, Option, none, some,
  arith, ltb, ◌==◌, ==_iff, Bool-cases, if_elim,
}
use mathlib.Core.Path.{subst}
use otservbr_global.PathNodes.{Nodes, best_from, get_best_node}

-- What the search for the best node has found among the first nodes.
abbrev pub IsBest : Nodes → ℕ → Option ℕ → Type 0
IsBest ns n none = (m : ℕ) → m < n → ns.is_open m ≡ true → 2 ^ 31 - 1 ≤ (ns.nodes m).f
IsBest ns n (some j) =
    (j < n)
    × (ns.is_open j ≡ true)
    × ((m : ℕ) → m < n → ns.is_open m ≡ true → (ns.nodes j).f ≤ (ns.nodes m).f)

abbrev cost_of : Nodes → Option ℕ → ℕ
cost_of ns none = 2 ^ 31 - 1
cost_of ns (some j) = (ns.nodes j).f

one_more :
    (ns : Nodes) (i : ℕ) (best : Option ℕ)
    → ns.is_open i && ltb (ns.nodes i).f (cost_of ns best) ≡ false
    → IsBest ns i best
    → IsBest ns (i + 1) best
one_more ns i none e h = λ m lt o. elim (Bool-cases (m == i)) [
  | inr s ↦ h m (ground (arith, lt, s)) o
  | inl s ↦
      let same = (==_iff m i).0 s in
      ground (arith, e, o, ap (λ k. (ns.nodes k).f) same, ap ns.is_open same)
]
one_more ns i (some j) e h = (
  omega (arith, h.0),
  h.1,
  λ m lt o. elim (Bool-cases (m == i)) [
    | inr s ↦ h.2 m (ground (arith, lt, s)) o
    | inl s ↦
        let same = (==_iff m i).0 s in
        ground (arith, e, o, ap (λ k. (ns.nodes k).f) same, ap ns.is_open same)
  ],
)

better-IsBest :
    (ns : Nodes) (i : ℕ) (best : Option ℕ)
    → ns.is_open i ≡ true
    → (ns.nodes i).f < cost_of ns best
    → IsBest ns i best
    → IsBest ns (i + 1) (some i)
better-IsBest ns i best o less h = (
  omega arith,
  o,
  λ m lt o'. elim (Bool-cases (m == i)) [
    | inl s ↦ omega (arith, ap (λ k. (ns.nodes k).f) ((==_iff m i).0 s))
    | inr s ↦ bound best less h m (ground (arith, lt, s)) o'
  ],
)
  where
    bound :
        (b : Option ℕ)
        → (ns.nodes i).f < cost_of ns b
        → IsBest ns i b
        → (m : ℕ) → m < i
        → ns.is_open m ≡ true
        → (ns.nodes i).f ≤ (ns.nodes m).f
    bound none less' h' m lt o' = omega (arith, less', h' m lt o')
    bound (some j) less' h' m lt o' = omega (arith, less', h'.2 m lt o')

best_from-IsBest :
    (ns : Nodes) (n i : ℕ) (best : Option ℕ)
    → IsBest ns i best
    → IsBest ns (i + n) (best_from ns n i (cost_of ns best) best)
unfolding best_from
best_from-IsBest ns zero i best h = subst (λ k. IsBest ns k best) (omega arith) h
best_from-IsBest ns (suc n) i best h =
    let moved : i + 1 + n ≡ i + suc n = omega arith in
    if_elim (IsBest ns (i + suc n)) (ns.is_open i && ltb (ns.nodes i).f (cost_of ns best))
      (λ e.
        subst (λ k. IsBest ns k (best_from ns n (i + 1) ((ns.nodes i).f) (some i))) moved
          (best_from-IsBest ns n (i + 1) (some i)
            (better-IsBest ns i best (ground (arith, e)) (ground (arith, e)) h)))
      (λ e.
        subst (λ k. IsBest ns k (best_from ns n (i + 1) (cost_of ns best) best)) moved
          (best_from-IsBest ns n (i + 1) best (one_more ns i best e h)))

-- The best node is an open one that no open node is cheaper than; there is none only if every open node
-- costs 2 ^ 31 - 1 or more.
pub get_best_node-IsBest : (ns : Nodes) → IsBest ns ns.cur_node (get_best_node ns)
unfolding get_best_node
get_best_node-IsBest ns =
    subst (λ k. IsBest ns k (best_from ns ns.cur_node 0 (2 ^ 31 - 1) none)) (omega arith)
      (best_from-IsBest ns ns.cur_node 0 none (λ m lt o. absurd (omega (arith, lt))))
