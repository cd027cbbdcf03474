-- ===== src/WaitList/Distinct.antt =====
-- `clientLogin` of src/waitlist.cpp never gives a player two entries.
use otservbr_global.Common.{
  ℕ, zero, suc, ◌+◌, ◌≡◌, refl, ap, inl, inr, Option, none, some, List, [], ◌∷◌, ◌++◌, arith, leb,
  Bool-cases, length, append-nil, append_assoc,
}
use mathlib.Core.List.{Mem, Nodup, Sublist, map-append, mem-append, Nodup-cons, perm_middle}
use mathlib.Core.List.Perm
use mathlib.Core.List.Sublist
use mathlib.Core.List.Nodup
use mathlib.Core.Logic.Or
use mathlib.Core.HLevel.{⊥_prop}
use otservbr_global.Common.Words.{add64}
use otservbr_global.WaitList.{
  Wait, WaitListInfo, Client, Server, Outcome, done, undefined_erase, cleanup_list, cleaned,
  enqueue, erase_at, set_timeout_at, retry, client_login, is_exempt, is_open,
}
use otservbr_global.WaitList.Slots.{position, locate, find_client_lem, guids, position-none}

-- No player has two entries in the two lists together.
abbrev pub IsDistinct : WaitListInfo → Type 0
IsDistinct info = Nodup (guids info.priority_wait_list ++ guids info.wait_list)

cleanup-sublist : (t : ℕ) (ws : List Wait) → Sublist (guids (cleanup_list t ws)) (guids ws)
unfolding cleanup_list
cleanup-sublist t [] = Sublist.refl []
cleanup-sublist t (w ∷ ws) =
    let ih = cleanup-sublist t ws in
    ground (arith, Sublist.cons w.player_guid ih, Sublist.cons-cons w.player_guid ih)

erase-sublist : (i : ℕ) (ws : List Wait) → Sublist (guids (erase_at i ws)) (guids ws)
unfolding erase_at
erase-sublist zero [] = Sublist.refl []
erase-sublist (suc i) [] = Sublist.refl []
erase-sublist zero (w ∷ ws) = Sublist.cons w.player_guid (Sublist.refl (guids ws))
erase-sublist (suc i) (w ∷ ws) = Sublist.cons-cons w.player_guid (erase-sublist i ws)

guids-set_timeout : (i t : ℕ) (ws : List Wait) → guids (set_timeout_at i t ws) ≡ guids ws
unfolding set_timeout_at
guids-set_timeout zero t [] = refl
guids-set_timeout (suc i) t [] = refl
guids-set_timeout zero t (w ∷ ws) = refl
guids-set_timeout (suc i) t (w ∷ ws) = ap (λ r. w.player_guid ∷ r) (guids-set_timeout i t ws)

cleaned-IsDistinct :
    (info : WaitListInfo) (s : Server) → IsDistinct info → IsDistinct (cleaned info s)
unfolding cleaned
cleaned-IsDistinct info s = Nodup.sublist (
    Sublist.append (cleanup-sublist s.priority_cleanup info.priority_wait_list)
      (cleanup-sublist s.waiting_cleanup info.wait_list))

insert-Nodup :
    (g : ℕ) (xs ys : List ℕ) → ¬ Mem g (xs ++ ys) → Nodup (xs ++ ys) → Nodup (xs ++ (g ∷ ys))
insert-Nodup g xs ys n d = Perm.nodup (Perm.symm (perm_middle xs ys)) (Nodup-cons.1 (n, d))

enqueue-IsDistinct :
    (info : WaitListInfo) (c : Client) (s : Server)
    → ¬ Mem c.guid (guids info.priority_wait_list ++ guids info.wait_list)
    → IsDistinct info
    → IsDistinct (enqueue info c s)
unfolding enqueue
enqueue-IsDistinct info c s n d = elim (Bool-cases c.is_premium) [
  | inl e ↦ rw e (simp (map-append, append_assoc) (insert-Nodup c.guid _ _ n d))
  | inr e ↦ rw e (
      simp map-append (
        rw (← append_assoc (guids info.priority_wait_list) (guids info.wait_list) (c.guid ∷ []))
          (insert-Nodup c.guid _ [] (simp append-nil n) (simp append-nil d))))
]

found-Mem :
    (info : WaitListInfo) (g : ℕ)
    → position g info.priority_wait_list ≡ none
    → position g info.wait_list ≡ none
    → ¬ Mem g (guids info.priority_wait_list ++ guids info.wait_list)
found-Mem info g p w m = Or.elim ⊥_prop (mem-append.0 m) (position-none g _ p) (position-none g _ w)

-- What holds of the lists once a call returns; an undefined call returns nothing.
abbrev pub Leaves : (WaitListInfo → Type 0) → Outcome → Type 0
Leaves P (done b info) = P info
Leaves P undefined_erase = Unit {0}

retry-IsDistinct :
    (info : WaitListInfo) (c : Client) (s : Server) (p w : Option ℕ)
    → position c.guid info.priority_wait_list ≡ p
    → position c.guid info.wait_list ≡ w
    → IsDistinct info
    → Leaves IsDistinct (retry info c s (locate info p w))
unfolding retry
retry-IsDistinct info c s (some i) w hp hw d =
    elim (Bool-cases (leb (add64 s.players_online (i + 1)) s.max_players)) [
      | inl e ↦ rw e tt
      | inr e ↦ rw e (rw guids-set_timeout d)
    ]
retry-IsDistinct info c s none (some j) hp hw d =
    elim (Bool-cases
      (leb (add64 s.players_online (length info.priority_wait_list + j + 1)) s.max_players)) [
        | inl e ↦ rw e (
            Nodup.sublist
              (Sublist.append (Sublist.refl (guids info.priority_wait_list))
                (erase-sublist j info.wait_list))
              d)
        | inr e ↦ rw e (rw guids-set_timeout d)
      ]
retry-IsDistinct info c s none none hp hw d =
    enqueue-IsDistinct info c s (found-Mem info c.guid hp hw) d

-- Whatever a client's call to `clientLogin` returns, no player has two entries afterwards, if none
-- had before.
pub client_login-IsDistinct :
    (info : WaitListInfo) (c : Client) (s : Server)
    → IsDistinct info
    → Leaves IsDistinct (client_login info c s)
unfolding client_login
client_login-IsDistinct info c s d = elim (Bool-cases (is_exempt c)) [
  | inl e ↦ rw e d
  | inr e ↦ elim (Bool-cases (is_open info s)) [
    | inl o ↦ rw (e, o) d
    | inr o ↦
        rw (e, o, find_client_lem)
          (retry-IsDistinct (cleaned info s) c s _ _ refl refl (cleaned-IsDistinct info s d))
  ]
]
