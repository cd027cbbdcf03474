-- ===== src/WaitList/Examples.antt =====
-- Runs of src/waitlist.cpp, and the theorems at concrete inputs.
use otservbr_global.Common.{
  ℕ, ◌+◌, ◌≤◌, ◌≡◌, refl, Bool, true, false, [], ◌∷◌, arith, AllDistinct-Nodup,
}
use otservbr_global.WaitList.{
  Wait, WaitListInfo, Client, Server, done, undefined_erase, cleanup_list, cleaned, client_login,
  get_client_slot, is_exempt, is_open, find_client, scan, retry, enqueue, deadline, get_time,
  get_timeout, set_timeout_at, erase_at,
}
use otservbr_global.WaitList.Slots.{position}
use otservbr_global.WaitList.Cleanup.{cleanup_list_lem, get_time_mono}
use otservbr_global.WaitList.Distinct.{IsDistinct, Leaves, client_login-IsDistinct}
use otservbr_global.WaitList.Deciding.{Decides}
use otservbr_global.WaitList.Admission.{Places, client_login-Decides}

abbrev wait : ℕ → ℕ → Wait
wait timeout guid = record { timeout = timeout; player_guid = guid }

-- A premium client 7 and two ordinary clients; the deadline of 8 has passed at time 1000.
abbrev waiting : WaitListInfo
waiting = record {
  priority_wait_list = wait 30000 7 ∷ [];
  wait_list = wait 400 8 ∷ wait 30000 9 ∷ [];
}

abbrev client : ℕ → Bool → Client
client guid premium = record {
  guid = guid;
  can_always_login = false;
  account_type = 1;
  is_premium = premium;
}

abbrev server : ℕ → Server
server online = record {
  max_players = 100;
  players_online = online;
  priority_cleanup = 1000;
  waiting_cleanup = 1000;
  now = 1001;
}

methods : Unit {0}
unfolding cleanup_list cleaned client_login get_client_slot is_exempt is_open find_client scan retry
    enqueue deadline get_time get_timeout set_timeout_at erase_at position
methods = tt

runs :
    (client_login waiting (client 5 false) (server 100)
      ≡ done false (record waiting { wait_list = wait 400 8 ∷ wait 30000 9 ∷ wait 21001 5 ∷ [] }))
    × (client_login waiting (client 9 false) (server 97)
        ≡ done true (record waiting { wait_list = wait 400 8 ∷ [] }))
    × (get_client_slot waiting 9 ≡ 3)
    × (get_client_slot waiting 1 ≡ 0)
    × (client_login waiting (client 7 true) (server 99) ≡ undefined_erase)
unfolding methods
runs = (refl, refl, refl, refl, refl)

cleanup_list_lem_example : cleanup_list 1000 waiting.wait_list ≡ waiting.wait_list
cleanup_list_lem_example = cleanup_list_lem 1000 waiting.wait_list (omega arith) (omega arith)

get_time_mono_example :
    (5 ≤ get_time 3)
    × (get_time 3 ≤ get_time 30)
    × (get_time 30 ≤ 120)
    × (get_timeout 3 ≡ get_time 3 + 15)
get_time_mono_example = get_time_mono 3 30 (omega arith)

client_login-IsDistinct_example :
    Leaves IsDistinct (client_login waiting (client 5 false) (server 100))
client_login-IsDistinct_example =
    client_login-IsDistinct waiting (client 5 false) (server 100)
      (AllDistinct-Nodup (7 ∷ 8 ∷ 9 ∷ []) (omega arith))

client_login-Decides_example :
    Decides
      (cleaned waiting (server 97))
      (client 9 false)
      (server 97)
      (client_login waiting (client 9 false) (server 97))
    × Places
        (cleaned waiting (server 97))
        (client 9 false)
        (server 97)
        (client_login waiting (client 9 false) (server 97))
unfolding methods
client_login-Decides_example = client_login-Decides waiting (client 9 false) (server 97) refl refl
