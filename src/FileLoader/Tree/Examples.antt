-- ===== src/FileLoader/Tree/Examples.antt =====
-- A small file for `OTB::Loader` of src/fileloader.cpp, and the theorem at it.
use otservbr_global.Common.{◌≡◌, refl, inr, some, [], ◌∷◌, ◌++◌, arith}
use otservbr_global.FileLoader.Escape.{escaped}
use otservbr_global.FileLoader.Tree.{
  OtbNode, otb_node, no_nodes, more_nodes, emplace_back, take_in, close_node, start_node,
  on_content, step, steps, finish, parse_content, same_bytes, wildcard, load_tree,
}
use otservbr_global.FileLoader.Tree.Encoding.{encode, encode_all, raw, load_tree-encode}

abbrev small_tree : OtbNode
small_tree = otb_node 1 (7 ∷ 0xfe ∷ []) (more_nodes (otb_node 0xff [] no_nodes) no_nodes)

-- The bytes between the children are passed over, and so is what stands behind the root.
run_load :
    load_tree
      (79 ∷ 84 ∷ 66 ∷ 77 ∷ [])
      (0 ∷ 0 ∷ 0 ∷ 0 ∷ 0xfe ∷ 1 ∷ 7 ∷ 0xfd ∷ 0xfe ∷ 0xfe ∷ 0xff ∷ 0xff ∷ 5 ∷ 0xff ∷ 9 ∷ [])
    ≡ some (otb_node 1 (7 ∷ 0xfd ∷ 0xfe ∷ []) (more_nodes (otb_node 0xff [] no_nodes) no_nodes))
unfolding load_tree parse_content finish steps step on_content start_node close_node take_in
    emplace_back same_bytes
run_load = refl

load_tree-encode_example :
    load_tree (79 ∷ 84 ∷ 66 ∷ 77 ∷ []) (wildcard ++ encode small_tree) ≡ some (raw small_tree)
unfolding encode encode_all escaped
load_tree-encode_example =
    load_tree-encode (79 ∷ 84 ∷ 66 ∷ 77 ∷ []) wildcard small_tree (inr refl) (omega arith)
      (omega arith)
