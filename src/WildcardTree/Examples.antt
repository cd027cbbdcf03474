-- ===== src/WildcardTree/Examples.antt =====
-- Runs of src/wildcardtree.cpp, and the theorems at concrete inputs.
use otservbr_global.Common.{ℕ, ◌≡◌, refl, true, false, some, List, [], ◌∷◌}
use otservbr_global.WildcardTree.{
  Node, node, Children, nil, child, get_child, put_child, erase_child, add_child, insert_at, insert,
  remove, remove_path, put_back, is_nil, walk, complete, find_one, no_error, player_not_online,
  name_is_too_ambiguous,
}
use otservbr_global.WildcardTree.Names.{contains, contains-insert, contains-remove}
use otservbr_global.WildcardTree.Shape.{Built, empty, inserted_in, IsForest, Built-IsForest}
use otservbr_global.WildcardTree.Lookup.{Finds, find_one-Finds}

methods : Unit {0}
unfolding get_child put_child erase_child add_child insert_at insert remove remove_path put_back
    is_nil walk complete find_one contains
methods = tt

abbrev leaf : ℕ → Children
leaf c = child c (node true nil) nil

-- The names "ab" and "acd".
abbrev two_names : Node
two_names = node false (
    child b'a' (node false (child b'b' (node true nil) (child b'c' (node false (leaf b'd')) nil)))
      nil)

abbrev one_name : Node
one_name = node false (child b'a' (node false (leaf b'b')) nil)

abbrev ab : List ℕ
ab = b'a' ∷ b'b' ∷ []

abbrev acd : List ℕ
acd = b'a' ∷ b'c' ∷ b'd' ∷ []

runs :
    (insert ab (node false nil) ≡ some one_name)
    × (insert acd one_name ≡ some two_names)
    × (remove acd two_names ≡ one_name)
    × (find_one (b'a' ∷ []) [] two_names ≡ (name_is_too_ambiguous, b'a' ∷ []))
    × (find_one (b'a' ∷ b'c' ∷ []) [] two_names ≡ (no_error, acd))
    × (find_one (b'x' ∷ []) [] two_names ≡ (player_not_online, []))
unfolding methods
runs = (refl, refl, refl, refl, refl, refl)

two_names-Built : Built two_names
two_names-Built = inserted_in acd (inserted_in ab (empty (node false nil) refl) runs.0) runs.1

contains-insert_example : contains ab two_names ≡ true
unfolding methods
contains-insert_example = contains-insert acd ab one_name two_names runs.1

contains-remove_example : contains ab (remove acd two_names) ≡ true
unfolding methods
contains-remove_example = contains-remove acd ab two_names

Built-IsForest_example : IsForest (
    child b'a'
      (node false (child b'b' (node true nil) (child b'c' (node false (leaf b'd')) nil)))
      nil)
Built-IsForest_example = Built-IsForest two_names-Built

find_one-Finds_example :
    Finds (b'a' ∷ b'c' ∷ []) two_names (find_one (b'a' ∷ b'c' ∷ []) [] two_names)
find_one-Finds_example = find_one-Finds b'a' (b'c' ∷ []) [] two_names two_names-Built
