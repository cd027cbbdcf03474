-- ===== src/PathNodes/Examples.antt =====
-- Runs of the path search's nodes of src/map.cpp.
use otservbr_global.Common.{ℕ, ◌+◌, ◌≤◌, ◌<◌, ◌≡◌, refl, true, some, List, [], ◌∷◌, false}
use otservbr_global.Common.Places.{write_at}
use otservbr_global.PathNodes.{
  Nodes, max_nodes, key_of, new_nodes, create_open_node, open_node, close_node, get_map_walk_cost,
  Neighbor, Round, visit_neighbor, visit_neighbors, expand, rounds, way_back, best_from,
  get_best_node,
}
use otservbr_global.PathNodes.Costs.{count_closed}
use otservbr_global.PathNodes.Best.{IsBest, get_best_node-IsBest}
use otservbr_global.PathNodes.Rounds.{IsWayBack, rounds_lem}

abbrev beside : ℕ → ℕ → ℕ → Neighbor
beside x y extra = record { x = x; y = y; in_range = true; can_walk = true; extra_cost = extra }

-- From (5, 5): a field to the east, a free tile to the south, and from there the tile in the southeast.
abbrev look : List Neighbor → Round
look around = record { matches = false; is_exact = false; around = around }

abbrev found : List Round
found =
    look (beside 6 5 180 ∷ beside 5 6 0 ∷ [])
    ∷ look (beside 6 6 0 ∷ [])
    ∷ look (beside 6 5 0 ∷ [])
    ∷ []

abbrev searched : Nodes
searched = rounds 0 false found (new_nodes 5 5)

-- The field is cheaper by the way round.
runs :
    (searched.cur_node ≡ 4)
    × ((searched.nodes 1).f ≡ 30)
    × (way_back 31 1 searched ≡ 1 ∷ 3 ∷ 2 ∷ 0 ∷ [])
    × (get_best_node searched ≡ some 1)
unfolding rounds get_best_node best_from expand visit_neighbors visit_neighbor create_open_node
    open_node close_node get_map_walk_cost write_at way_back
runs = (refl, refl, refl, refl)

rounds_lem_example :
    (searched.cur_node ≤ max_nodes)
    × ((k i : ℕ)
        → searched.node_table k ≡ some i
        → (i < searched.cur_node) × (key_of ((searched.nodes i).x) ((searched.nodes i).y) ≡ k))
    × (searched.closed_nodes ≡ count_closed searched.is_open searched.cur_node)
    × ((i : ℕ)
        → i < searched.cur_node
        → IsWayBack searched i (way_back ((searched.nodes i).f + 1) i searched))
rounds_lem_example = rounds_lem 5 5 0 found

get_best_node-IsBest_example : IsBest searched searched.cur_node (get_best_node searched)
get_best_node-IsBest_example = get_best_node-IsBest searched
