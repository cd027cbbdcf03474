-- ===== src/Ban/Examples.antt =====
-- Attempts at `Ban::acceptConnection` of src/ban.cpp, and its theorems at concrete times.
use otservbr_global.Common.{◌≡◌, refl, true, false, none, some, [], ◌∷◌, arith, ◌==◌, if◌then◌else◌}
use otservbr_global.Ban.{
  IpConnectMap, diff_within, count_attempt, visit, accept_connection, answers,
}
use otservbr_global.Ban.Flood.{accept_first, answers_flood}
use otservbr_global.Ban.Patience.{acceptances, answers_sparse}

abbrev empty_map : IpConnectMap
empty_map ip = none

abbrev one_address : IpConnectMap
one_address ip =
    if ip == 7 then some (record { last_attempt = 1000; block_time = 900; count = 4 }) else none

-- Half a second between the attempts gets through once the block has run out.
run_slow :
    answers 7 (0 ∷ 500 ∷ 1000 ∷ 1500 ∷ 2000 ∷ 2500 ∷ 5000 ∷ 5800 ∷ []) empty_map
    ≡ true ∷ true ∷ true ∷ true ∷ true ∷ false ∷ false ∷ true ∷ []
unfolding answers accept_connection visit count_attempt diff_within
run_slow = refl

answers_flood_example :
    answers 7 (0 ∷ 100 ∷ 200 ∷ 300 ∷ 400 ∷ 500 ∷ 750 ∷ []) empty_map
    ≡ accept_first 5 (0 ∷ 100 ∷ 200 ∷ 300 ∷ 400 ∷ 500 ∷ 750 ∷ [])
answers_flood_example =
    answers_flood 7 0 (100 ∷ 200 ∷ 300 ∷ 400 ∷ 500 ∷ 750 ∷ []) empty_map refl
      (
        omega arith,
        omega arith,
        (
          omega arith,
          omega arith,
          (
            omega arith,
            omega arith,
            (omega arith, omega arith, (omega arith, omega arith, (omega arith, omega arith, tt))),
          ),
        ),
      )
      (omega arith)

answers_sparse_example : answers 7 (7000 ∷ 13000 ∷ []) one_address ≡ acceptances (7000 ∷ 13000 ∷ [])
answers_sparse_example =
    answers_sparse 7 (7000 ∷ 13000 ∷ []) one_address
      (record { last_attempt = 1000; block_time = 900; count = 4 }) refl
      (omega arith, omega arith, (omega arith, omega arith, tt)) (omega arith)
