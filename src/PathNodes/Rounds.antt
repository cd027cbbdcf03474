-- ===== src/PathNodes/Rounds.antt =====
-- The rounds of the path search of src/map.cpp, and the way back to its start.
use otservbr_global.Common.{
  ℕ, zero, suc, ◌+◌, ◌≤◌, ◌<◌, ◌≡◌, refl, sym, ap, ◌∙◌, inl, inr, Bool, true, false, not, Option,
  none, some, List, [], ◌∷◌, arith, leb, ◌==◌, if◌then◌else◌, ==_iff, Bool-cases, if_elim, ◌||◌,
  ◌&&◌,
}
use mathlib.Core.Path.{subst}
use otservbr_global.Common.Places.{write_at}
use otservbr_global.PathNodes.{
  Node, Nodes, max_nodes, key_of, new_nodes, create_open_node, close_node, open_node,
  get_node_by_position, distance, get_map_walk_cost, Neighbor, Round, cheaper, visit_neighbor,
  visit_neighbors, expand, rounds, way_back, get_best_node,
}
use otservbr_global.PathNodes.Best.{IsBest, get_best_node-IsBest}
use otservbr_global.PathNodes.Costs.{
  IsSearch, count_closed, count_closed-write, at_same, at_other, apart_from, created-IsSearch,
  cheaper-IsSearch,
}

-- A search while the neighbours of an open node of some cost are looked at.
record LooksAround (n f : ℕ) (ns : Nodes) : Type 0 where
  search : IsSearch ns
  there : n < ns.cur_node
  cost : (ns.nodes n).f ≡ f
  opened : ns.is_open n ≡ true

abbrev Looks : ℕ → ℕ → Option Nodes → Type 0
Looks n f none = Unit {0}
Looks n f (some ns) = LooksAround n f ns

create_open_node-Looks :
    (n f x y new_f : ℕ) (ns : Nodes)
    → LooksAround n f ns
    → f < new_f
    → Looks n f (create_open_node n x y new_f ns)
unfolding create_open_node
create_open_node-Looks n f x y new_f ns h lt =
    if_elim (Looks n f) (leb max_nodes ns.cur_node) (λ _. tt)
      (λ room.
        let v : Node = record { parent = some n; f = new_f; x = x; y = y } in
        let other : (n == ns.cur_node) ≡ false = ground (arith, h.there) in
        record {
          search =
              created-IsSearch n x y new_f ns h.search h.there (omega (arith, lt, h.cost))
                (ground (arith, room));
          there = omega (arith, h.there);
          cost = ap (λ q. q.f) (at_other ns.cur_node n v ns.nodes other) ∙ h.cost;
          opened = at_other ns.cur_node n true ns.is_open other ∙ h.opened;
        })

cheaper-Looks :
    (n f k new_f : ℕ) (ns : Nodes)
    → LooksAround n f ns
    → k < ns.cur_node
    → f < new_f
    → new_f < (ns.nodes k).f
    → LooksAround n f (cheaper k n new_f ns)
unfolding open_node
cheaper-Looks n f k new_f ns h there lt less =
    let v : Node = record (ns.nodes k) { f = new_f; parent = some n } in
    let relaxed = record ns { nodes = write_at k v ns.nodes } in
    let other = apart_from n k ns (omega (arith, h.cost, lt, less)) in
    let same : (write_at k v ns.nodes n).f ≡ f =
      ap (λ q. q.f) (at_other k n v ns.nodes other) ∙ h.cost in
    record {
      search =
          cheaper-IsSearch k n new_f ns h.search there h.there (omega (arith, h.cost, lt)) less;
      there =
          if_elim (λ x. n < x.cur_node) (ns.is_open k) {x = relaxed} (λ _. h.there) (λ _. h.there);
      cost = if_elim (λ x. (x.nodes n).f ≡ f) (ns.is_open k) {x = relaxed} (λ _. same) (λ _. same);
      opened =
          if_elim (λ x. x.is_open n ≡ true) (ns.is_open k) {x = relaxed} (λ _. h.opened)
            (λ _. at_other k n true ns.is_open other ∙ h.opened);
    }

visit_neighbor-Looks :
    (n f : ℕ) (a : Neighbor) (ns : Nodes) → LooksAround n f ns → Looks n f (visit_neighbor n f a ns)
unfolding visit_neighbor get_map_walk_cost
visit_neighbor-Looks n f a ns h =
    if_elim (Looks n f) (not a.in_range) (λ _. h)
      (λ _. found (get_node_by_position a.x a.y ns) refl)
  where
    new_f : ℕ
    new_f = f + get_map_walk_cost (ns.nodes n) a.x a.y + a.extra_cost

    dear : f < new_f
    dear =
        if_elim (λ c. f < f + c + a.extra_cost)
          (distance (ns.nodes n).x a.x == distance (ns.nodes n).y a.y) (λ _. omega arith)
          (λ _. omega arith)

    found :
        (o : Option ℕ)
        → ns.node_table (key_of a.x a.y) ≡ o
        → Looks n f (elim o [
          | some k ↦ if leb (ns.nodes k).f new_f then some ns else some (cheaper k n new_f ns)
          | none ↦ if not a.can_walk then some ns else create_open_node n a.x a.y new_f ns
        ])
    found none e =
        if_elim (Looks n f) (not a.can_walk) (λ _. h)
          (λ _. create_open_node-Looks n f a.x a.y new_f ns h dear)
    found (some k) e =
        if_elim (Looks n f) (leb (ns.nodes k).f new_f) (λ _. h)
          (λ less.
            cheaper-Looks n f k new_f ns h (h.search.in_table _ k e).0 dear (ground (arith, less)))

visit_neighbors-LooksAround :
    (n f : ℕ) (around : List Neighbor) (ns : Nodes)
    → LooksAround n f ns
    → LooksAround n f (visit_neighbors n f around ns).1
unfolding visit_neighbors
visit_neighbors-LooksAround n f [] ns h = h
visit_neighbors-LooksAround n f (a ∷ around) ns h =
    next (visit_neighbor n f a ns) (visit_neighbor-Looks n f a ns h)
      (λ ns' l. visit_neighbors-LooksAround n f around ns' l)
  where
    next :
        (o : Option Nodes)
        → Looks n f o
        → ((ns' : Nodes) → LooksAround n f ns' → LooksAround n f (visit_neighbors n f around ns').1)
        → LooksAround n f (
            let r : Bool × Nodes = elim o [
              | none ↦ (false, ns)
              | some ns' ↦ visit_neighbors n f around ns'
            ] in
            r.1)
    next none l later = h
    next (some ns') l later = later ns' l

-- A round for an open node keeps the nodes in order.
expand-IsSearch :
    (found : Bool) (n : ℕ) (around : List Neighbor) (ns : Nodes)
    → IsSearch ns
    → n < ns.cur_node
    → ns.is_open n ≡ true
    → IsSearch (expand found n around ns).1
unfolding expand close_node
expand-IsSearch found n around ns h lt opened =
    let next = (visit_neighbors n (ns.nodes n).f around ns).1 in
    let l =
      visit_neighbors-LooksAround n (ns.nodes n).f around ns
        (record { search = h; there = lt; cost = refl; opened = opened }) in
    if_elim (λ (out : Bool × Nodes). IsSearch out.1)
      ((visit_neighbors n (ns.nodes n).f around ns).0 || found) {x = (true, close_node n next)}
      {y = (false, next)}
      (λ _. record {
        bounded = l.search.bounded;
        descends = l.search.descends;
        in_table = l.search.in_table;
        counted = omega (
          arith,
          l.search.counted,
          count_closed-write next.is_open n next.cur_node false l.there,
          ap {B = ℕ} (λ b. if b then 0 else 1) l.opened,
        );
      })
      (λ _. l.search)

new_nodes-IsSearch : (x y : ℕ) → IsSearch (new_nodes x y)
unfolding count_closed write_at
new_nodes-IsSearch x y = record {
  bounded = omega arith;
  descends = λ i lt p e. absurd (cc e);
  in_table = λ k i e. elim (Bool-cases (k == key_of x y)) [
    | inl s ↦
        let here : 0 ≡ i = cc (
          ap {B = Option ℕ} (write_at (key_of x y) (some 0) (λ j. none))
              ((==_iff k (key_of x y)).0 s),
          at_same {A = Option ℕ} (key_of x y) (some 0) (λ j. none),
          e,
        ) in
        (omega (arith, here), sym ((==_iff k (key_of x y)).0 s))
    | inr s ↦ absurd (cc (at_other {A = Option ℕ} (key_of x y) k (some 0) (λ j. none) s, e))
  ];
  counted = refl;
}

rounds-IsSearch :
    (dist : ℕ) (found : Bool) (rs : List Round) (ns : Nodes)
    → IsSearch ns
    → IsSearch (rounds dist found rs ns)
unfolding rounds
rounds-IsSearch dist found [] ns h = h
rounds-IsSearch dist found (r ∷ later) ns h =
    if_elim IsSearch ((dist == 0) && leb 100 ns.closed_nodes) (λ _. h)
      (λ _.
        round (get_best_node ns) (get_best_node-IsBest ns)
          (λ ns' h'. rounds-IsSearch dist (found || r.matches) later ns' h'))
  where
    round :
        (o : Option ℕ)
        → IsBest ns ns.cur_node o
        → ((ns' : Nodes) → IsSearch ns' → IsSearch (rounds dist (found || r.matches) later ns'))
        → IsSearch (elim o [
          | none ↦ ns
          | some n ↦
              let next = expand (found || r.matches) n r.around ns in
              let rest = rounds dist (found || r.matches) later next.1 in
              if r.matches && r.is_exact then ns else if next.0 then rest else next.1
        ])
    round none best later_is = h
    round (some n) best later_is =
        let next = expand (found || r.matches) n r.around ns in
        let h' = expand-IsSearch (found || r.matches) n r.around ns h best.0 best.1 in
        if_elim IsSearch (r.matches && r.is_exact) (λ _. h)
          (λ _. if_elim IsSearch next.0 (λ _. later_is next.1 h') (λ _. h'))

-- From a node to its parent, and so on, to a node without a parent.
abbrev pub IsWayBack : Nodes → ℕ → List ℕ → Type 0
IsWayBack ns i [] = ⊥
IsWayBack ns i (j ∷ []) = (i ≡ j) × ((ns.nodes i).parent ≡ none)
IsWayBack ns i (j ∷ k ∷ way) = (i ≡ j) × ((ns.nodes i).parent ≡ some k) × IsWayBack ns k (k ∷ way)

way_back-IsWayBack :
    (n i : ℕ) (ns : Nodes)
    → IsSearch ns
    → i < ns.cur_node
    → (ns.nodes i).f < n
    → IsWayBack ns i (way_back n i ns)
unfolding way_back
way_back-IsWayBack zero i ns h lt enough = absurd (omega (arith, enough))
way_back-IsWayBack (suc n) i ns h lt enough =
    back ((ns.nodes i).parent) refl (λ p lt' less. way_back-IsWayBack n p ns h lt' less)
  where
    extend :
        (p : ℕ)
        → (ns.nodes i).parent ≡ some p
        → (way : List ℕ) → IsWayBack ns p way
        → IsWayBack ns i (i ∷ way)
    extend p e [] w = absurd w
    extend p e (j ∷ []) w =
        (refl, e ∙ ap some w.0, (refl, subst (λ k. (ns.nodes k).parent ≡ none) w.0 w.1))
    extend p e (j ∷ k ∷ way) w =
        (refl, e ∙ ap some w.0, (refl, subst (λ m. (ns.nodes m).parent ≡ some k) w.0 w.1, w.2))

    back :
        (o : Option ℕ)
        → (ns.nodes i).parent ≡ o
        → ((p : ℕ) → p < ns.cur_node → (ns.nodes p).f < n → IsWayBack ns p (way_back n p ns))
        → IsWayBack ns i (elim o [ none ↦ i ∷ [] | some p ↦ i ∷ way_back n p ns ])
    back none e later = (refl, e)
    back (some p) e later =
        let d = h.descends i lt p e in
        extend p e (way_back n p ns) (later p d.0 (omega (arith, d.1, enough)))

-- After any rounds of a search, also those after the nodes have run out, whatever they find around their
-- nodes, there are 512 nodes at most; the
-- table leads from a position to the node that stands there; the number of closed nodes is right; and
-- the way back from every node leads from parent to parent to one without a parent, with as much fuel as
-- the cost of the node and one more.
pub rounds_lem :
    (x y dist : ℕ) (rs : List Round)
    → let ns = rounds dist false rs (new_nodes x y) in
      (ns.cur_node ≤ max_nodes)
      × ((k i : ℕ)
          → ns.node_table k ≡ some i
          → (i < ns.cur_node) × (key_of ((ns.nodes i).x) ((ns.nodes i).y) ≡ k))
      × (ns.closed_nodes ≡ count_closed ns.is_open ns.cur_node)
      × ((i : ℕ) → i < ns.cur_node → IsWayBack ns i (way_back ((ns.nodes i).f + 1) i ns))
rounds_lem x y dist rs =
    let h = rounds-IsSearch dist false rs (new_nodes x y) (new_nodes-IsSearch x y) in
    (h.bounded, h.in_table, h.counted, λ i lt. way_back-IsWayBack _ i _ h lt (omega arith))
