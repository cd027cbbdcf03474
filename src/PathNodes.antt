-- ===== src/PathNodes.antt =====
-- The nodes of the path search: `AStarNodes` of src/map.cpp and the rounds of `Map::getPathMatching`, which
-- look at the neighbours of the best node each.
-- A node stands for its index in the array. What the tiles say about a neighbour is a parameter. Costs
-- are numbers without a bound, as 512 steps stay far below that of `int_fast32_t`.
pub mod Costs
pub mod Best
pub mod Rounds
mod Examples
use otservbr_global.Common.{
  ℕ, zero, suc, ◌+◌, ◌-◌, ◌*◌, ◌%◌, ◌^◌, Bool, true, false, not, ◌&&◌, ◌||◌, Option, none, some,
  List, [], ◌∷◌, ltb, leb, ◌==◌, if◌then◌else◌, bit_or,
}
use otservbr_global.Common.Words.{u32_mod}
use otservbr_global.Common.Places.{write_at}

pub record Node : Type 0 where
  pub parent : Option ℕ
  pub f : ℕ
  pub x : ℕ
  pub y : ℕ

-- `is_open` is `openNodes`; `node_table` maps keys to indices.
pub record Nodes : Type 0 where
  pub nodes : ℕ → Node
  pub is_open : ℕ → Bool
  pub node_table : ℕ → Option ℕ
  pub cur_node : ℕ
  pub closed_nodes : ℕ

abbrev pub max_nodes : ℕ
max_nodes = 512

-- `(x << 16) | y`, for a y below 2 ^ 16
abbrev pub key_of : ℕ → ℕ → ℕ
key_of x y = bit_or (x * 2 ^ 16 % u32_mod) y

abbrev pub new_nodes : ℕ → ℕ → Nodes
new_nodes x y = record {
  nodes = λ i. record { parent = none; f = 0; x = x; y = y };
  is_open = write_at 0 true (λ i. false);
  node_table = write_at (key_of x y) (some 0) (λ k. none);
  cur_node = 1;
  closed_nodes = 0;
}

abbrev pub created : ℕ → ℕ → ℕ → ℕ → Nodes → Nodes
created parent x y f ns = record ns {
  nodes = write_at (ns.cur_node) (record { parent = some parent; f = f; x = x; y = y }) ns.nodes;
  is_open = write_at (ns.cur_node) true ns.is_open;
  node_table = write_at (key_of x y) (some ns.cur_node) ns.node_table;
  cur_node = ns.cur_node + 1;
}

unfoldable pub create_open_node : ℕ → ℕ → ℕ → ℕ → Nodes → Option Nodes
create_open_node parent x y f ns =
    if leb max_nodes ns.cur_node then none else some (created parent x y f ns)

-- The loop of `getBestNode` from `i` on.
unfoldable pub best_from : Nodes → ℕ → ℕ → ℕ → Option ℕ → Option ℕ
best_from ns zero i best_f best = best
best_from ns (suc n) i best_f best =
    let better = best_from ns n (i + 1) ((ns.nodes i).f) (some i) in
    let same = best_from ns n (i + 1) best_f best in
    if ns.is_open i && ltb (ns.nodes i).f best_f then better else same

unfoldable pub get_best_node : Nodes → Option ℕ
get_best_node ns = best_from ns ns.cur_node 0 (2 ^ 31 - 1) none

unfoldable pub close_node : ℕ → Nodes → Nodes
close_node i ns = record ns {
  is_open = write_at i false ns.is_open;
  closed_nodes = ns.closed_nodes + 1;
}

unfoldable pub open_node : ℕ → Nodes → Nodes
open_node i ns =
    if ns.is_open i
    then ns
    else record ns { is_open = write_at i true ns.is_open; closed_nodes = ns.closed_nodes - 1 }

abbrev pub get_node_by_position : ℕ → ℕ → Nodes → Option ℕ
get_node_by_position x y ns = ns.node_table (key_of x y)

abbrev pub distance : ℕ → ℕ → ℕ
distance a b = (a - b) + (b - a)

unfoldable pub get_map_walk_cost : Node → ℕ → ℕ → ℕ
get_map_walk_cost n x y = if distance n.x x == distance n.y y then 25 else 10

-- What the search and the tiles say about a neighbour: whether it is near enough, whether the creature
-- can walk there, and `getTileWalkCost`.
pub record Neighbor : Type 0 where
  pub x : ℕ
  pub y : ℕ
  pub in_range : Bool
  pub can_walk : Bool
  pub extra_cost : ℕ

abbrev pub cheaper : ℕ → ℕ → ℕ → Nodes → Nodes
cheaper k n f ns =
    open_node k
      (record ns { nodes = write_at k (record (ns.nodes k) { f = f; parent = some n }) ns.nodes })

-- A known neighbour gets a cheaper way, and a new one a node; none if there is no node left.
unfoldable pub visit_neighbor : ℕ → ℕ → Neighbor → Nodes → Option Nodes
visit_neighbor n f a ns =
    let new_f = f + get_map_walk_cost (ns.nodes n) a.x a.y + a.extra_cost in
    if not a.in_range then some ns else elim (get_node_by_position a.x a.y ns) [
      | some k ↦ if leb (ns.nodes k).f new_f then some ns else some (cheaper k n new_f ns)
      | none ↦ if not a.can_walk then some ns else create_open_node n a.x a.y new_f ns
    ]

-- The loop over the neighbours, which ends where there is no node left.
unfoldable pub visit_neighbors : ℕ → ℕ → List Neighbor → Nodes → Bool × Nodes
visit_neighbors n f [] ns = (true, ns)
visit_neighbors n f (a ∷ others) ns = elim (visit_neighbor n f a ns) [
  | none ↦ (false, ns)
  | some ns' ↦ visit_neighbors n f others ns'
]

-- The end of a round. Where there is no node left and none was found, the search fails at once; else
-- the node is closed, and the search goes on.
unfoldable pub expand : Bool → ℕ → List Neighbor → Nodes → Bool × Nodes
expand found n around ns =
    let next = visit_neighbors n (ns.nodes n).f around ns in
    if next.0 || found then (true, close_node n next.1) else (false, next.1)

-- What the rest of the search says in a round: whether the best node fulfils the condition of the path,
-- whether `bestMatch` is 0 then, and what is around the node.
pub record Round : Type 0 where
  pub matches : Bool
  pub is_exact : Bool
  pub around : List Neighbor

-- The loop of the search; `found` is whether a node was found before. It ends where 100 nodes are closed
-- and there is no limit to the distance, where no node is open, at an exact match, or where it fails.
unfoldable pub rounds : ℕ → Bool → List Round → Nodes → Nodes
rounds max_search_dist found [] ns = ns
rounds max_search_dist found (r ∷ later) ns =
    if (max_search_dist == 0) && leb 100 ns.closed_nodes then ns else elim (get_best_node ns) [
      | none ↦ ns
      | some n ↦
          let next = expand (found || r.matches) n r.around ns in
          let rest = rounds max_search_dist (found || r.matches) later next.1 in
          if r.matches && r.is_exact then ns else if next.0 then rest else next.1
    ]

-- The way back to the start, on fuel.
unfoldable pub way_back : ℕ → ℕ → Nodes → List ℕ
way_back zero i ns = []
way_back (suc n) i ns = elim ((ns.nodes i).parent) [ none ↦ i ∷ [] | some p ↦ i ∷ way_back n p ns ]
