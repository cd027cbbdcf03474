-- ===== src/FileLoader/Tree/Encoding.antt =====
-- Files of trees, and what `OTB::Loader` of src/fileloader.cpp makes of them.
use otservbr_global.Common.{
  ℕ, ◌<◌, ◌≡◌, refl, sym, ap, ◌∙◌, fun_ext, ◌⊎◌, inl, inr, true, false, Option, none, some, List,
  [], ◌∷◌, ◌++◌, arith, leb, ◌==◌, Bool-cases, length, take, drop, length-append, append-nil,
  append_assoc, take-append, drop-append,
}
use otservbr_global.FileLoader.{escape_char}
use otservbr_global.FileLoader.Escape.{escaped}
use otservbr_global.FileLoader.Tree.{
  OtbNode, otb_node, OtbNodes, no_nodes, more_nodes, OpenNode, at_content, Parser, emplace_back,
  take_in, close_node, start_node, on_content, step, steps, and_then, finish, parse_content,
  same_bytes, wildcard, load_tree,
}

unfoldable mutual
  -- The bytes of a node whose properties are given without escapes.
  pub encode : OtbNode → List ℕ
  encode (otb_node type props ns) = 0xfe ∷ type ∷ (escaped props ++ (encode_all ns ++ (0xff ∷ [])))

  pub encode_all : OtbNodes → List ℕ
  encode_all no_nodes = []
  encode_all (more_nodes n ns) = encode n ++ encode_all ns

mutual
  -- The node as the loader has it, its properties with their escapes.
  pub raw : OtbNode → OtbNode
  raw (otb_node type props ns) = otb_node type (escaped props) (raw_all ns)

  pub raw_all : OtbNodes → OtbNodes
  raw_all no_nodes = no_nodes
  raw_all (more_nodes n ns) = more_nodes (raw n) (raw_all ns)

append_nodes : OtbNodes → OtbNodes → OtbNodes
append_nodes ms no_nodes = ms
append_nodes ms (more_nodes n ns) = append_nodes (emplace_back ms n) ns

append_nodes-more :
    (m : OtbNode) (ms ns : OtbNodes)
    → append_nodes (more_nodes m ms) ns ≡ more_nodes m (append_nodes ms ns)
unfolding append_nodes emplace_back
append_nodes-more m ms no_nodes = refl
append_nodes-more m ms (more_nodes n ns) = append_nodes-more m (emplace_back ms n) ns

append_nodes-no_nodes : (ns : OtbNodes) → append_nodes no_nodes ns ≡ ns
unfolding append_nodes emplace_back
append_nodes-no_nodes no_nodes = refl
append_nodes-no_nodes (more_nodes n ns) =
    append_nodes-more n no_nodes ns ∙ ap (more_nodes n) (append_nodes-no_nodes ns)

and_then_assoc :
    (o : Option Parser) (f g : Parser → Option Parser)
    → and_then (and_then o f) g ≡ and_then o (λ s. and_then (f s) g)
and_then_assoc none f g = refl
and_then_assoc (some s) f g = refl

steps-append :
    (xs ys : List ℕ) (s : Parser) → steps (xs ++ ys) s ≡ and_then (steps xs s) (λ s'. steps ys s')
unfolding steps
steps-append [] ys s = refl
steps-append (x ∷ xs) ys s =
    ap (and_then (step x s)) (fun_ext (λ s'. steps-append xs ys s'))
    ∙ sym (and_then_assoc (step x s) (λ s'. steps xs s') (λ s'. steps ys s'))

steps-then :
    (xs ys : List ℕ) (s s' : Parser) → steps xs s ≡ some s' → steps (xs ++ ys) s ≡ steps ys s'
steps-then xs ys s s' h = steps-append xs ys s ∙ ap (λ o. and_then o (λ t. steps ys t)) h

abbrev parser : List OpenNode → Option OtbNode → Parser
parser stack root = record { mode = at_content; parse_stack = stack; root = root }

abbrev open_node : ℕ → List ℕ → OtbNodes → OpenNode
open_node type props ns = record { type = type; props = props; children = ns }

steps-escaped :
    (bs ps : List ℕ) (type : ℕ) (stack : List OpenNode) (root : Option OtbNode)
    → steps (escaped bs) (parser (open_node type ps no_nodes ∷ stack) root)
      ≡ some (parser (open_node type (ps ++ escaped bs) no_nodes ∷ stack) root)
unfolding steps step escaped on_content take_in
steps-escaped [] ps type stack root =
    ap (λ l. some (parser (open_node type l no_nodes ∷ stack) root)) (sym (append-nil ps))
steps-escaped (b ∷ bs) ps type stack root = elim (Bool-cases (leb escape_char b)) [
  | inl e ↦
      let joined : ((ps ++ (escape_char ∷ [])) ++ (b ∷ [])) ++ escaped bs
          ≡ ps ++ (escape_char ∷ b ∷ escaped bs) =
        append_assoc (ps ++ (escape_char ∷ [])) (b ∷ []) (escaped bs)
        ∙ append_assoc ps (escape_char ∷ []) (b ∷ escaped bs) in
      rw e (
        steps-escaped bs ((ps ++ (escape_char ∷ [])) ++ (b ∷ [])) type stack root
        ∙ ap (λ l. some (parser (open_node type l no_nodes ∷ stack) root)) joined)
  | inr e ↦
      let not_start : (b == 0xfe) ≡ false = ground arith in
      let not_end : (b == 0xff) ≡ false = ground arith in
      let not_escape : (b == escape_char) ≡ false = ground arith in
      rw (e, not_start, not_end, not_escape)
        (steps-escaped bs (ps ++ (b ∷ [])) type stack root
          ∙ ap (λ l. some (parser (open_node type l no_nodes ∷ stack) root))
              (append_assoc ps (b ∷ []) (escaped bs)))
]

steps-start :
    (type : ℕ) (bs : List ℕ) (m : OpenNode) (stack : List OpenNode) (root : Option OtbNode)
    → steps (0xfe ∷ type ∷ bs) (parser (m ∷ stack) root)
      ≡ steps bs (parser (open_node type [] no_nodes ∷ m ∷ stack) root)
unfolding steps step on_content start_node
steps-start type bs m stack root = refl

steps-end :
    (n m : OpenNode) (stack : List OpenNode) (root : Option OtbNode)
    → steps (0xff ∷ []) (parser (n ∷ m ∷ stack) root)
      ≡ some (
          parser
            (record m { children = emplace_back m.children (otb_node n.type n.props n.children) }
              ∷ stack)
            root)
unfolding steps step on_content close_node
steps-end n m stack root = refl

steps-none : (s : Parser) → steps [] s ≡ some s
unfolding steps
steps-none s = refl

mutual
  unfolding encode raw encode_all raw_all append_nodes

  steps-encode :
      (n : OtbNode) (m : OpenNode) (stack : List OpenNode) (root : Option OtbNode)
      → steps (encode n) (parser (m ∷ stack) root)
        ≡ some (parser (record m { children = emplace_back m.children (raw n) } ∷ stack) root)
  steps-encode (otb_node type props ns) m stack root =
      let start = open_node type [] no_nodes in
      let filled = open_node type (escaped props) no_nodes in
      let full = open_node type (escaped props) (append_nodes no_nodes (raw_all ns)) in
      let inside = escaped props ++ (encode_all ns ++ (0xff ∷ [])) in
      let added : OtbNodes → Option Parser = λ ns'. some (
        parser
          (record m { children = emplace_back m.children (otb_node type (escaped props) ns') }
            ∷ stack)
          root) in
      steps-start type inside m stack root
      ∙ (steps-then (escaped props) (encode_all ns ++ (0xff ∷ [])) (parser (start ∷ m ∷ stack) root)
            (parser (filled ∷ m ∷ stack) root) (steps-escaped props [] type (m ∷ stack) root)
          ∙ (steps-then (encode_all ns) (0xff ∷ []) (parser (filled ∷ m ∷ stack) root)
                (parser (full ∷ m ∷ stack) root) (steps-encode_all ns filled (m ∷ stack) root)
              ∙ (steps-end full m stack root ∙ ap added (append_nodes-no_nodes (raw_all ns)))))

  steps-encode_all :
      (ns : OtbNodes) (m : OpenNode) (stack : List OpenNode) (root : Option OtbNode)
      → steps (encode_all ns) (parser (m ∷ stack) root)
        ≡ some (parser (record m { children = append_nodes m.children (raw_all ns) } ∷ stack) root)
  steps-encode_all no_nodes m stack root = steps-none (parser (m ∷ stack) root)
  steps-encode_all (more_nodes n ns) m stack root =
      let m' = record m { children = emplace_back m.children (raw n) } in
      steps-then (encode n) (encode_all ns) (parser (m ∷ stack) root) (parser (m' ∷ stack) root)
        (steps-encode n m stack root)
      ∙ steps-encode_all ns m' stack root

same_bytes_refl : (xs : List ℕ) → same_bytes xs xs ≡ true
unfolding same_bytes
same_bytes_refl [] = refl
same_bytes_refl (x ∷ xs) = ground (arith, same_bytes_refl xs)

parse_content-encode : (n : OtbNode) → parse_content (encode n) ≡ some (raw n)
unfolding parse_content encode raw
parse_content-encode (otb_node type props ns) =
    let start = open_node type [] no_nodes in
    let filled = open_node type (escaped props) no_nodes in
    let full = open_node type (escaped props) (append_nodes no_nodes (raw_all ns)) in
    let read_in : steps (escaped props ++ (encode_all ns ++ (0xff ∷ []))) (parser (start ∷ []) none)
        ≡ some (
            parser [] (some (otb_node type (escaped props) (append_nodes no_nodes (raw_all ns))))) =
      steps-then (escaped props) (encode_all ns ++ (0xff ∷ [])) (parser (start ∷ []) none)
        (parser (filled ∷ []) none) (steps-escaped props [] type [] none)
      ∙ (steps-then (encode_all ns) (0xff ∷ []) (parser (filled ∷ []) none)
            (parser (full ∷ []) none) (steps-encode_all ns filled [] none)
          ∙ (unfold steps step on_content close_node in refl)) in
    ap finish read_in
    ∙ (unfold finish in
        ap (λ ns'. some (otb_node type (escaped props) ns')) (append_nodes-no_nodes (raw_all ns)))

-- A file of an accepted identifier, or of the wildcard, and of a tree that has a property or a child
-- is loaded as that tree: the types, the children in their order, and the properties with the
-- escapes that the file has.
pub load_tree-encode :
    (accepted identifier : List ℕ) (n : OtbNode)
    → (identifier ≡ accepted) ⊎ (identifier ≡ wildcard)
    → length identifier ≡ 4
    → 3 < length (encode n)
    → load_tree accepted (identifier ++ encode n) ≡ some (raw n)
unfolding load_tree
load_tree-encode accepted identifier n known four long =
    let all = identifier ++ encode n in
    let large : leb (length all) 7 ≡ false =
      ground (arith, four, length-append identifier (encode n)) in
    let front : take 4 all ≡ identifier =
      ap (λ k. take k all) (sym four) ∙ take-append identifier (encode n) in
    let back : drop 4 all ≡ encode n =
      ap (λ k. drop k all) (sym four) ∙ drop-append identifier (encode n) in
    rw (large, front, back, parse_content-encode n)
      (elim known [
        | inl e ↦
            let same : same_bytes identifier accepted ≡ true =
              ap (same_bytes identifier) (sym e) ∙ same_bytes_refl identifier in
            rw same refl
        | inr e ↦
            let same : same_bytes identifier wildcard ≡ true =
              ap (same_bytes identifier) (sym e) ∙ same_bytes_refl identifier in
            rw same (elim (Bool-cases (same_bytes identifier accepted)) [
              | inl a ↦ rw a refl
              | inr a ↦ rw a refl
            ])
      ])
