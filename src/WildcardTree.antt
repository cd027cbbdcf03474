-- ===== src/WildcardTree.antt =====
-- src/wildcardtree.cpp and src/wildcardtree.h: the prefix tree of the names of online players.
-- A `char` is a number. `children` is a `std::map`: an association list, whose order nothing reads
-- (`findOne` takes `begin()` of a map with one entry only). The walks over node pointers are
-- recursions on the text that rebuild the nodes on the way.
pub mod Tree
pub mod Names
pub mod Shape
pub mod Lookup
mod Examples
use otservbr_global.Common.{
  ℕ, Bool, true, false, not, ◌&&◌, ◌||◌, Option, none, some, List, [], ◌∷◌, ◌++◌, ◌==◌,
  if◌then◌else◌,
}

mutual
  pub data Node : Type 0 where
    node : Bool → Children → Node

  pub data Children : Type 0 where
    nil : Children
    child : ℕ → Node → Children → Children

pub data ReturnValue : Type 0 where
  no_error player_not_online name_is_too_ambiguous : ReturnValue

abbrev pub breakpoint : Node → Bool
breakpoint (node b cs) = b

abbrev pub children : Node → Children
children (node b cs) = cs

-- `children.find(ch)`, and so `getChild`.
pub get_child : ℕ → Children → Option Node
get_child ch nil = none
get_child ch (child c n cs) = if c == ch then some n else get_child ch cs

-- A write through the pointer to a child, and `emplace` where there is no such child.
pub put_child : ℕ → Node → Children → Children
put_child ch m nil = child ch m nil
put_child ch m (child c n cs) = if c == ch then child c m cs else child c n (put_child ch m cs)

-- `children.erase(it)`
pub erase_child : ℕ → Children → Children
erase_child ch nil = nil
erase_child ch (child c n cs) =
    let rest = erase_child ch cs in if c == ch then rest else child c n rest

-- The children after `addChild`; the child that it returns is then the one at `ch`.
pub add_child : ℕ → Bool → Children → Children
add_child ch breakp cs = elim (get_child ch cs) [
  | none ↦ put_child ch (node breakp nil) cs
  | some c ↦ if breakp && not (breakpoint c) then put_child ch (node true (children c)) cs else cs
]

-- `cur = cur->addChild(...)` and what is done at the child.
abbrev pub at_child : ℕ → (Node → Node) → Children → Children
at_child ch f cs = elim (get_child ch cs) [ none ↦ cs | some c ↦ put_child ch (f c) cs ]

pub insert_at : ℕ → List ℕ → Node → Node
insert_at c [] (node b cs) = node b (add_child c true cs)
insert_at c (d ∷ rest) (node b cs) = node b (at_child c (insert_at d rest) (add_child c false cs))

-- `none`: the length of an empty text wraps around, and the loop runs out of the text.
pub insert : List ℕ → Node → Option Node
insert [] n = none
insert (c ∷ rest) n = some (insert_at c rest n)

pub is_nil : Children → Bool
is_nil nil = true
is_nil (child c n cs) = false

-- One round of the way up: a child with no children and no breakpoint is erased from its parent.
-- A child that stays ends the loop; each node further up then has a child, so that nothing is
-- erased there either.
pub put_back : ℕ → Node → Children → Children
put_back ch c cs =
    if not (is_nil (children c)) || breakpoint c then put_child ch c cs else erase_child ch cs

-- `none`: the walk down met no node for a character, and `remove` returned.
pub remove_path : List ℕ → Node → Option Node
remove_path [] (node b cs) = some (node false cs)
remove_path (c ∷ rest) (node b cs) = elim (get_child c cs) [
  | none ↦ none
  | some m ↦ elim (remove_path rest m) [ none ↦ none | some m' ↦ some (node b (put_back c m' cs)) ]
]

pub remove : List ℕ → Node → Node
remove str n = elim (remove_path str n) [ none ↦ n | some n' ↦ n' ]

-- The first loop of `findOne`.
pub walk : List ℕ → Node → Option Node
walk [] n = some n
walk (c ∷ rest) n = elim (get_child c (children n)) [ none ↦ none | some m ↦ walk rest m ]

-- The second loop of `findOne`, down the only children.
pub complete : List ℕ → Node → ReturnValue × List ℕ
complete result (node b nil) = (no_error, result)
complete result (node b (child c m nil)) =
    let rest = complete (result ++ c ∷ []) m in if b then (name_is_too_ambiguous, result) else rest
complete result (node b (child c m (child d n cs))) = (name_is_too_ambiguous, result)

-- `result` is the text that the caller passed in by reference.
pub find_one : List ℕ → List ℕ → Node → ReturnValue × List ℕ
find_one query result n = elim (walk query n) [
  | none ↦ (player_not_online, result)
  | some m ↦ complete query m
]
