-- ===== src/Adler/Examples.antt =====
-- Runs of `adlerChecksum` of src/tools.cpp, and its theorem at concrete bytes.
use otservbr_global.Common.{ℕ, ◌+◌, ◌*◌, ◌^◌, ◌<◌, ◌≡◌, refl, List, [], ◌∷◌, arith, All}
use otservbr_global.Common.Words.{u32_mod}
use otservbr_global.Adler.{sum_chunk, reduce, sum_chunks, adler_checksum}
use otservbr_global.Adler.Reference.{adler_sums, adler_checksum-adler_sums}

-- "Wikipedia"
abbrev bytes : List ℕ
bytes = 87 ∷ 105 ∷ 107 ∷ 105 ∷ 112 ∷ 101 ∷ 100 ∷ 105 ∷ 97 ∷ []

run_checksum : adler_checksum bytes ≡ 0x11e6_0398
unfolding adler_checksum sum_chunks sum_chunk reduce
run_checksum = refl

bytes_are_bytes : All (λ d. d < 256) bytes
bytes_are_bytes = (
  omega arith,
  (
    omega arith,
    (
      omega arith,
      (omega arith, (omega arith, (omega arith, (omega arith, (omega arith, (omega arith, tt)))))),
    ),
  ),
)

adler_checksum-adler_sums_example :
    let (a, b) = adler_sums bytes (1, 0) in
    (adler_checksum bytes ≡ b * 2 ^ 16 + a) × (adler_checksum bytes < u32_mod)
adler_checksum-adler_sums_example = adler_checksum-adler_sums bytes (omega arith) bytes_are_bytes
