-- ===== src/WaitList.antt =====
-- src/waitlist.cpp: the queue of clients that wait for a free place on the server.
-- Times and sizes are 64-bit words (`size_t` and `int64_t` of an LP64 build). Each reading of the
-- clock is an argument, as are the number of players online and the configured maximum.
pub mod Slots
pub mod Cleanup
pub mod Distinct
pub mod Deciding
pub mod Admission
mod Examples
use otservbr_global.Common.{
  ℕ, zero, suc, ◌+◌, ◌-◌, Bool, true, false, ◌&&◌, ◌||◌, List, [], ◌∷◌, ◌++◌, length, ltb, leb,
  ◌==◌, if◌then◌else◌,
}
use otservbr_global.Common.Words.{add64, sub64, mul64}

pub record Wait : Type 0 where
  pub timeout : ℕ
  pub player_guid : ℕ

pub record WaitListInfo : Type 0 where
  pub priority_wait_list : List Wait
  pub wait_list : List Wait

-- `it->timeout - time` mixes `size_t` with `int64_t`, so the difference is unsigned.
pub cleanup_list : ℕ → List Wait → List Wait
cleanup_list time [] = []
cleanup_list time (w ∷ ws) =
    let rest = cleanup_list time ws in if leb (sub64 w.timeout time) 0 then rest else w ∷ rest

pub get_time : ℕ → ℕ
get_time slot =
    if ltb slot 5
    then 5
    else if ltb slot 10
    then 10
    else if ltb slot 20
    then 20
    else if ltb slot 50
    then 60
    else 120

pub get_timeout : ℕ → ℕ
get_timeout slot = add64 (get_time slot) 15

-- A loop of `findClient` over one list: whether the player was met, and the slot reached.
pub scan : ℕ → ℕ → List Wait → Bool × ℕ
scan guid slot [] = (false, slot)
scan guid slot (w ∷ ws) =
    let later = scan guid (slot + 1) ws in if w.player_guid == guid then (true, slot) else later

-- The iterator that `findClient` returns, by the list that it points into.
pub data Iterator : Type 0 where
  in_priority : ℕ → Iterator
  in_waiting : ℕ → Iterator
  waiting_end : Iterator

pub find_client : WaitListInfo → ℕ → Iterator × ℕ
find_client info guid =
    let (found, slot) = scan guid 1 info.priority_wait_list in
    let (found_later, later) = scan guid slot info.wait_list in
    if found
    then (in_priority (slot - 1), slot)
    else if found_later
    then (in_waiting (later - slot), later)
    else (waiting_end, later)

-- What `clientLogin` reads of the player.
pub record Client : Type 0 where
  pub guid : ℕ
  pub can_always_login : Bool
  pub account_type : ℕ
  pub is_premium : Bool

-- What `clientLogin` reads of the server: the limit, the players online, three clock readings.
pub record Server : Type 0 where
  pub max_players : ℕ
  pub players_online : ℕ
  pub priority_cleanup : ℕ
  pub waiting_cleanup : ℕ
  pub now : ℕ

-- `undefined_erase`: an iterator into one `std::list` was handed to the `erase` of another.
pub data Outcome : Type 0 where
  done : Bool → WaitListInfo → Outcome
  undefined_erase : Outcome

abbrev pub account_type_gamemaster : ℕ
account_type_gamemaster = 4

abbrev pub is_empty {ℓ} : {A : Type ℓ} → List A → Bool
is_empty [] = true
is_empty (x ∷ xs) = false

pub erase_at : ℕ → List Wait → List Wait
erase_at i [] = []
erase_at zero (w ∷ ws) = ws
erase_at (suc i) (w ∷ ws) = w ∷ erase_at i ws

pub set_timeout_at : ℕ → ℕ → List Wait → List Wait
set_timeout_at i t [] = []
set_timeout_at zero t (w ∷ ws) = record w { timeout = t } ∷ ws
set_timeout_at (suc i) t (w ∷ ws) = w ∷ set_timeout_at i t ws

-- `OTSYS_TIME() + (getTimeout(slot) * 1000)`
pub deadline : Server → ℕ → ℕ
deadline s slot = add64 s.now (mul64 (get_timeout slot) 1000)

pub enqueue : WaitListInfo → Client → Server → WaitListInfo
enqueue info c s =
    let ahead = length info.priority_wait_list in
    let all = ahead + length info.wait_list in
    if c.is_premium
    then record info {
      priority_wait_list =
          info.priority_wait_list
          ++ (record { timeout = deadline s (ahead + 1); player_guid = c.guid } ∷ []);
    }
    else record info {
      wait_list =
          info.wait_list ++ (record { timeout = deadline s (all + 1); player_guid = c.guid } ∷ []);
    }

-- The rest of `clientLogin` once the client has been looked up.
pub retry : WaitListInfo → Client → Server → Iterator × ℕ → Outcome
retry info c s (in_priority i, slot) =
    if leb (add64 s.players_online slot) s.max_players
    then undefined_erase
    else done false (record info {
      priority_wait_list = set_timeout_at i (deadline s slot) info.priority_wait_list;
    })
retry info c s (in_waiting i, slot) =
    if leb (add64 s.players_online slot) s.max_players
    then done true (record info { wait_list = erase_at i info.wait_list })
    else done false (record info { wait_list = set_timeout_at i (deadline s slot) info.wait_list })
retry info c s (waiting_end, slot) = done false (enqueue info c s)

pub cleaned : WaitListInfo → Server → WaitListInfo
cleaned info s = record {
  priority_wait_list = cleanup_list s.priority_cleanup info.priority_wait_list;
  wait_list = cleanup_list s.waiting_cleanup info.wait_list;
}

-- The two early returns of `clientLogin`.
pub is_exempt : Client → Bool
is_exempt c = c.can_always_login || leb account_type_gamemaster c.account_type

pub is_open : WaitListInfo → Server → Bool
is_open info s =
    (s.max_players == 0)
    || (is_empty info.priority_wait_list
        && is_empty info.wait_list
        && ltb s.players_online s.max_players)

pub client_login : WaitListInfo → Client → Server → Outcome
client_login info c s =
    if is_exempt c
    then done true info
    else if is_open info s
    then done true info
    else retry (cleaned info s) c s (find_client (cleaned info s) c.guid)

abbrev slot_of : Iterator → ℕ → ℕ
slot_of (in_priority i) slot = slot
slot_of (in_waiting i) slot = slot
slot_of waiting_end slot = 0

-- 0 for a client that does not wait.
pub get_client_slot : WaitListInfo → ℕ → ℕ
get_client_slot info guid = let (it, slot) = find_client info guid in slot_of it slot
