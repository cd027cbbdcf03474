-- ===== src/WaitList/Admission.antt =====
-- Whom `clientLogin` of src/waitlist.cpp lets in, and where it puts the others.
use otservbr_global.Common.{
  ℕ, zero, suc, ◌+◌, ◌≤◌, ◌<◌, ◌≡◌, refl, ◌≢◌, inl, inr, true, false, Option, none, some, List, [],
  ◌∷◌, ◌++◌, arith, leb, if◌then◌else◌, Bool-cases, length,
}
use otservbr_global.Common.Words.{add64, u64_mod}
use otservbr_global.WaitList.{
  Wait, WaitListInfo, Client, Server, Outcome, done, undefined_erase, cleaned, enqueue,
  set_timeout_at, retry, client_login, get_client_slot, is_exempt, is_open, deadline,
}
use otservbr_global.WaitList.Slots.{
  queue, position, position-append, locate, find_client_lem, get_client_slot_lem,
}
use otservbr_global.WaitList.Deciding.{Decides, HasRoom, retry-Decides}

-- The index that a refused client has in the joined queue: its old one, or the end of its list.
abbrev pub place : WaitListInfo → Client → Option ℕ → ℕ
place info c (some i) = i
place info c none =
    if c.is_premium
    then length info.priority_wait_list
    else length info.priority_wait_list + length info.wait_list

-- The place in the queue that an answer leaves to the client; an admission has room for it and all
-- before it.
abbrev pub Places : WaitListInfo → Client → Server → Outcome → Type 0
Places info c s (done true after) =
    (i : ℕ) × (position c.guid (queue info) ≡ some i) × HasRoom s (i + 1)
Places info c s (done false after) =
    get_client_slot after c.guid ≡ place info c (position c.guid (queue info)) + 1
Places info c s undefined_erase = (i : ℕ) × (position c.guid info.priority_wait_list ≡ some i)

set_timeout-position :
    (g i t : ℕ) (ws : List Wait) → position g (set_timeout_at i t ws) ≡ position g ws
unfolding position set_timeout_at
set_timeout-position g zero t [] = refl
set_timeout-position g (suc i) t [] = refl
set_timeout-position g zero t (w ∷ ws) = refl
set_timeout-position g (suc i) t (w ∷ ws) = ground (arith, set_timeout-position g i t ws)

position-snoc :
    (w : Wait) (ws : List Wait)
    → position w.player_guid ws ≡ none
    → position w.player_guid (ws ++ w ∷ []) ≡ some (length ws)
unfolding position
position-snoc w [] h = ground arith
position-snoc w (x ∷ ws) h = ground (arith, position-snoc w ws)

position-enqueue :
    (info : WaitListInfo) (c : Client) (s : Server)
    → position c.guid info.priority_wait_list ≡ none
    → position c.guid info.wait_list ≡ none
    → position c.guid (queue (enqueue info c s)) ≡ some (place info c none)
unfolding enqueue
position-enqueue info c s p w = elim (Bool-cases c.is_premium) [
  | inl e ↦ rw e (
      ground (
        arith,
        position-snoc (entry (length info.priority_wait_list + 1)) info.priority_wait_list p,
        position-append c.guid
            (info.priority_wait_list ++ entry (length info.priority_wait_list + 1) ∷ [])
            info.wait_list,
      ))
  | inr e ↦ rw e (
      ground (
        arith,
        position-snoc (entry (length info.priority_wait_list + length info.wait_list + 1))
            info.wait_list w,
        position-append c.guid info.priority_wait_list (
            info.wait_list
            ++ entry (length info.priority_wait_list + length info.wait_list + 1) ∷ []),
      ))
]
  where
    entry : ℕ → Wait
    entry slot = record { timeout = deadline s slot; player_guid = c.guid }

retry-Places :
    (info : WaitListInfo) (c : Client) (s : Server) (p w : Option ℕ)
    → position c.guid info.priority_wait_list ≡ p
    → position c.guid info.wait_list ≡ w
    → Places info c s (retry info c s (locate info p w))
unfolding retry
retry-Places info c s (some i) w hp hw =
    elim (Bool-cases (leb (add64 s.players_online (i + 1)) s.max_players)) [
      | inl e ↦ rw e (i, hp)
      | inr e ↦
          let t = deadline s (i + 1) in
          let ws = set_timeout_at i t info.priority_wait_list in
          rw e (
            ground (
              arith,
              position-append c.guid info.priority_wait_list info.wait_list,
              position-append c.guid ws info.wait_list,
              set_timeout-position c.guid i t info.priority_wait_list,
              get_client_slot_lem (record info { priority_wait_list = ws }) c.guid,
            ))
    ]
retry-Places info c s none (some j) hp hw =
    let slot = length info.priority_wait_list + j + 1 in
    elim (Bool-cases (leb (add64 s.players_online slot) s.max_players)) [
      | inl e ↦ rw e (
        length info.priority_wait_list + j,
        ground (arith, position-append c.guid info.priority_wait_list info.wait_list),
        ground arith,
      )
      | inr e ↦
          let ws = set_timeout_at j (deadline s slot) info.wait_list in
          rw e (
            ground (
              arith,
              position-append c.guid info.priority_wait_list info.wait_list,
              position-append c.guid info.priority_wait_list ws,
              set_timeout-position c.guid j (deadline s slot) info.wait_list,
              get_client_slot_lem (record info { wait_list = ws }) c.guid,
            ))
    ]
retry-Places info c s none none hp hw = ground (
  arith,
  position-append c.guid info.priority_wait_list info.wait_list,
  get_client_slot_lem (enqueue info c s) c.guid,
  position-enqueue info c s hp hw,
)

-- A client that is neither exempt nor let in at once is decided by its first entry among those left by
-- the cleanup. In the ordinary list: admitted, and this entry alone is taken out, where there is room
-- for it and everyone before it; refused, and its deadline alone is set anew, where there is not. In the
-- priority list: refused in the same way where there is no room, and undefined where there is. Without
-- an entry: refused, with a new entry at the end of the list for its account. After a refusal its slot
-- is its place in the joined queue.
pub client_login-Decides :
    (info : WaitListInfo) (c : Client) (s : Server)
    → is_exempt c ≡ false
    → is_open info s ≡ false
    → Decides (cleaned info s) c s (client_login info c s)
      × Places (cleaned info s) c s (client_login info c s)
unfolding client_login
client_login-Decides info c s e o =
    let left = cleaned info s in
    rw (e, o, find_client_lem)
      (retry-Decides left c s _ _ refl refl, retry-Places left c s _ _ refl refl)

position-lt : (g i : ℕ) (ws : List Wait) → position g ws ≡ some i → i < length ws
unfolding position
position-lt g i [] h = cc
position-lt g zero (w ∷ ws) h = omega arith
position-lt g (suc i) (w ∷ ws) h = ground (arith, position-lt g i ws)

not-is_open :
    (info : WaitListInfo) (s : Server)
    → 0 < s.max_players
    → s.max_players ≤ s.players_online
    → is_open info s ≡ false
unfolding is_open
not-is_open info s pos full = ground arith

-- While every place is taken, `clientLogin` admits exempt clients alone.
pub client_login_full :
    (info after : WaitListInfo) (c : Client) (s : Server)
    → is_exempt c ≡ false
    → 0 < s.max_players
    → s.max_players ≤ s.players_online
    → s.players_online + length (queue (cleaned info s)) + 1 < u64_mod
    → client_login info c s ≢ done true after
client_login_full info after c s e pos full fits h =
    let decides = rw h at ((client_login-Decides info c s e (not-is_open info s pos full)).1) in
    let (i, at_i, room) = decides in
    omega (arith, position-lt c.guid i (queue (cleaned info s)) at_i)
