-- ===== src/FileLoader/Tree.antt =====
-- `OTB::Loader::parseTree` of src/fileloader.cpp, and the identifier that the constructor tests.
-- The loop is an automaton over the bytes: where the code takes a second byte by `++it`, the mode says
-- what the next byte is. The bytes between `propsBegin` and `propsEnd` are collected as they are
-- passed, while the node has no children. An exception is `none`.
pub mod Encoding
mod Examples
use otservbr_global.Common.{
  ℕ, Bool, true, false, not, ◌&&◌, Option, none, some, List, [], ◌∷◌, ◌++◌, leb, ◌==◌,
  if◌then◌else◌, length, take, drop,
}
use otservbr_global.FileLoader.{escape_char}

mutual
  pub data OtbNode : Type 0 where
    otb_node : ℕ → List ℕ → OtbNodes → OtbNode

  pub data OtbNodes : Type 0 where
    no_nodes : OtbNodes
    more_nodes : OtbNode → OtbNodes → OtbNodes

-- A node on the stack.
pub record OpenNode : Type 0 where
  pub type : ℕ
  pub props : List ℕ
  pub children : OtbNodes

pub data Mode : Type 0 where
  at_content at_type at_escaped : Mode

pub record Parser : Type 0 where
  pub mode : Mode
  pub parse_stack : List OpenNode
  pub root : Option OtbNode

-- `children.emplace_back`
pub emplace_back : OtbNodes → OtbNode → OtbNodes
emplace_back no_nodes n = more_nodes n no_nodes
emplace_back (more_nodes m ms) n = more_nodes m (emplace_back ms n)

abbrev pub has_none : OtbNodes → Bool
has_none no_nodes = true
has_none (more_nodes m ms) = false

-- A byte that belongs to no mark; behind the root and between children it is passed over.
unfoldable pub take_in : ℕ → List OpenNode → List OpenNode
take_in b [] = []
take_in b (n ∷ ns) =
    (if has_none n.children then record n { props = n.props ++ (b ∷ []) } else n) ∷ ns

-- The end of the current node; the root's leaves the stack empty.
unfoldable pub close_node : Parser → Option Parser
close_node s = elim (s.parse_stack) [
  | [] ↦ none
  | n ∷ ns ↦
      let closed = otb_node n.type n.props n.children in
      elim ns [
        | [] ↦ some (record s { parse_stack = []; root = some closed })
        | m ∷ ms ↦
            some (record s {
              parse_stack = record m { children = emplace_back m.children closed } ∷ ms;
            })
      ]
]

pub data Mark : Type 0 where
  start_mark end_mark escape_mark no_mark : Mark

abbrev pub mark : ℕ → Mark
mark b =
    if b == 0xfe
    then start_mark
    else if b == 0xff
    then end_mark
    else if b == escape_char
    then escape_mark
    else no_mark

-- `currentNode` has to be there before its child's type is looked at.
unfoldable pub start_node : Parser → Option Parser
start_node s = elim (s.parse_stack) [ [] ↦ none | n ∷ ns ↦ some (record s { mode = at_type }) ]

unfoldable pub on_content : ℕ → Mark → Parser → Option Parser
on_content b start_mark s = start_node s
on_content b end_mark s = close_node s
on_content b escape_mark s =
    some (record s { mode = at_escaped; parse_stack = take_in b s.parse_stack })
on_content b no_mark s = some (record s { parse_stack = take_in b s.parse_stack })

unfoldable pub step : ℕ → Parser → Option Parser
step b s = elim (s.mode) [
  | at_content ↦ on_content b (mark b) s
  | at_type ↦ some (record s {
    mode = at_content;
    parse_stack = record { type = b; props = []; children = no_nodes } ∷ s.parse_stack;
  })
  | at_escaped ↦ some (record s { mode = at_content; parse_stack = take_in b s.parse_stack })
]

abbrev pub and_then : Option Parser → (Parser → Option Parser) → Option Parser
and_then none f = none
and_then (some s) f = f s

-- The loop.
unfoldable pub steps : List ℕ → Parser → Option Parser
steps [] s = some s
steps (b ∷ bs) s = and_then (step b s) (λ s'. steps bs s')

-- Only between two bytes of a file whose nodes are all closed is there a tree.
pub finish : Option Parser → Option OtbNode
finish none = none
finish (some s) = elim (s.mode) [
  | at_content ↦ elim (s.parse_stack) [ [] ↦ s.root | n ∷ ns ↦ none ]
  | at_type ↦ none
  | at_escaped ↦ none
]

-- The contents behind the identifier.
pub parse_content : List ℕ → Option OtbNode
parse_content [] = none
parse_content (b ∷ []) = none
parse_content (b ∷ type ∷ bs) =
    if b == 0xfe
    then finish (
        steps bs (record {
          mode = at_content;
          parse_stack = record { type = type; props = []; children = no_nodes } ∷ [];
          root = none;
        }))
    else none

pub same_bytes : List ℕ → List ℕ → Bool
same_bytes [] [] = true
same_bytes [] (y ∷ ys) = false
same_bytes (x ∷ xs) [] = false
same_bytes (x ∷ xs) (y ∷ ys) = (x == y) && same_bytes xs ys

abbrev pub wildcard : List ℕ
wildcard = 0 ∷ 0 ∷ 0 ∷ 0 ∷ []

-- The constructor's tests, then the tree.
pub load_tree : List ℕ → List ℕ → Option OtbNode
unfolding parse_content finish same_bytes
load_tree accepted_identifier contents =
    let identifier = take 4 contents in
    if leb (length contents) 7
    then none
    else if not (same_bytes identifier accepted_identifier) && not (same_bytes identifier wildcard)
    then none
    else parse_content (drop 4 contents)
