-- ===== src/WaitList/Cleanup.antt =====
-- `cleanupList` and the retry times of src/waitlist.cpp.
use otservbr_global.Common.{
  ℕ, ◌+◌, ◌≤◌, ◌<◌, ◌≡◌, refl, ◌↔◌, true, List, [], ◌∷◌, arith, leb, ◌==◌, if◌then◌else◌, All,
}
use otservbr_global.Common.Words.{sub64, u64_mod}
use otservbr_global.WaitList.{Wait, cleanup_list, get_time, get_timeout}

-- The difference of a 64-bit deadline and a clock reading is 0 only where they are equal.
removed_iff :
    (t time : ℕ) → t < u64_mod → time < u64_mod → (leb (sub64 t time) 0 ≡ true) ↔ (t ≡ time)
removed_iff t time ht hn = ground arith

abbrev pub without_deadline : ℕ → List Wait → List Wait
without_deadline time [] = []
without_deadline time (w ∷ ws) =
    let rest = without_deadline time ws in if w.timeout == time then rest else w ∷ rest

-- `cleanupList` removes exactly the entries whose deadline is the very millisecond of the call. An
-- entry whose deadline has passed stays, since the difference is taken in unsigned arithmetic.
pub cleanup_list_lem :
    (time : ℕ) (ws : List Wait)
    → time < u64_mod
    → All (λ w. w.timeout < u64_mod) ws
    → cleanup_list time ws ≡ without_deadline time ws
unfolding cleanup_list
cleanup_list_lem time [] ht hw = refl
cleanup_list_lem time (w ∷ ws) ht (fits, rest) =
    ground (arith, removed_iff w.timeout time fits ht, cleanup_list_lem time ws ht rest)

-- The retry times are one of five values and grow with the slot; the time after which a client is
-- meant to be dropped is 15 seconds longer.
pub get_time_mono :
    (a b : ℕ)
    → a ≤ b
    → (5 ≤ get_time a)
      × (get_time a ≤ get_time b)
      × (get_time b ≤ 120)
      × (get_timeout a ≡ get_time a + 15)
unfolding get_time get_timeout
get_time_mono a b h = ground arith
