-- ===== src/WaitList/Slots.antt =====
-- What `findClient` and `getClientSlot` of src/waitlist.cpp compute: a place in the joined queue.
use otservbr_global.Common.{
  ℕ, ◌+◌, ◌≡◌, Bool, true, false, Option, map, none, some, List, [], ◌∷◌, ◌++◌, length, arith, ◌==◌,
  if◌then◌else◌,
}
use mathlib.Core.List.{Mem, not-mem-nil, mem-cons}
use mathlib.Core.Logic.Or
use mathlib.Core.HLevel.{⊥_prop}
use otservbr_global.WaitList.{
  Wait, WaitListInfo, scan, find_client, get_client_slot, Iterator, in_priority, in_waiting,
  waiting_end,
}

-- Everyone who waits, the premium clients first.
abbrev pub queue : WaitListInfo → List Wait
queue info = info.priority_wait_list ++ info.wait_list

abbrev pub shift_by : ℕ → Option ℕ → Option ℕ
shift_by n none = none
shift_by n (some i) = some (n + i)

abbrev pub or_else : Option ℕ → Option ℕ → Option ℕ
or_else none b = b
or_else (some a) b = some a

-- The index of the first entry of a player.
unfoldable pub position : ℕ → List Wait → Option ℕ
position g [] = none
position g (w ∷ ws) = if w.player_guid == g then some 0 else shift_by 1 (position g ws)

pub position-append :
    (g : ℕ) (xs ys : List Wait)
    → position g (xs ++ ys) ≡ or_else (position g xs) (shift_by (length xs) (position g ys))
unfolding position
position-append g [] ys = ground arith
position-append g (x ∷ xs) ys = ground (arith, position-append g xs ys)

abbrev slot_from : ℕ → ℕ → Option ℕ → Bool × ℕ
slot_from slot n none = (false, slot + n)
slot_from slot n (some i) = (true, slot + i)

scan_lem :
    (g slot : ℕ) (ws : List Wait) → scan g slot ws ≡ slot_from slot (length ws) (position g ws)
unfolding scan position
scan_lem g slot [] = ground arith
scan_lem g slot (w ∷ ws) = ground (arith, scan_lem g (slot + 1) ws)

-- The iterator and slot of a client, from its two possible places.
abbrev pub locate : WaitListInfo → Option ℕ → Option ℕ → Iterator × ℕ
locate info (some i) b = (in_priority i, i + 1)
locate info none (some j) = (in_waiting j, length info.priority_wait_list + j + 1)
locate info none none = (waiting_end, length info.priority_wait_list + length info.wait_list + 1)

pub find_client_lem :
    (info : WaitListInfo) (g : ℕ)
    → find_client info g
      ≡ locate info (position g info.priority_wait_list) (position g info.wait_list)
unfolding find_client
find_client_lem info g =
    let (s₁, s₂) = scan g 1 info.priority_wait_list in
    ground (
      arith,
      scan_lem g 1 info.priority_wait_list,
      scan_lem g (1 + length info.priority_wait_list) info.wait_list,
    )

abbrev pub slot_at : Option ℕ → ℕ
slot_at none = 0
slot_at (some i) = i + 1

-- `getClientSlot` is the place in the joined queue, counted from 1, and 0 for a player that has no
-- entry in either list.
pub get_client_slot_lem :
    (info : WaitListInfo) (g : ℕ) → get_client_slot info g ≡ slot_at (position g (queue info))
unfolding get_client_slot
get_client_slot_lem info g =
    ground (arith, find_client_lem info g, position-append g info.priority_wait_list info.wait_list)

abbrev pub guids : List Wait → List ℕ
guids = map λ w. w.player_guid

pub position-none : (g : ℕ) (ws : List Wait) → position g ws ≡ none → ¬ Mem g (guids ws)
unfolding position
position-none g [] h m = not-mem-nil m
position-none g (w ∷ ws) h m =
    Or.elim ⊥_prop (mem-cons.0 m) (λ e. ground (arith, e)) (position-none g ws (ground arith))
