-- ===== src/Adler.antt =====
-- `adlerChecksum` of src/tools.cpp, in 32-bit words. A byte list has the length that is passed.
pub mod Reference
mod Examples
use otservbr_global.Common.{
  ℕ, zero, suc, ◌*◌, ◌%◌, ◌^◌, List, [], ◌∷◌, ltb, if◌then◌else◌, length, take, drop, min, bit_or,
}
use otservbr_global.Common.Words.{add32, u32_mod}

abbrev pub networkmessage_maxsize : ℕ
networkmessage_maxsize = 24590

abbrev pub adler : ℕ
adler = 65521

abbrev pub chunk : ℕ
chunk = 5552

-- The `do` loop over one chunk: `a += *data++; b += a;`
pub sum_chunk : List ℕ → ℕ × ℕ → ℕ × ℕ
sum_chunk [] (a, b) = (a, b)
sum_chunk (d ∷ ds) (a, b) = sum_chunk ds (add32 a d, add32 b (add32 a d))

reduce : ℕ × ℕ → ℕ × ℕ
reduce (a, b) = (a % adler, b % adler)

-- The outer loop; each round takes at least one byte, so `length data` rounds are enough.
sum_chunks : ℕ → List ℕ → ℕ × ℕ → ℕ × ℕ
sum_chunks fuel [] ab = ab
sum_chunks zero (d ∷ ds) ab = ab
sum_chunks (suc fuel) (d ∷ ds) ab =
    let size : ℕ = min chunk (length (d ∷ ds)) in
    sum_chunks fuel (drop size (d ∷ ds)) (reduce (sum_chunk (take size (d ∷ ds)) ab))

pub adler_checksum : List ℕ → ℕ
unfolding sum_chunk reduce sum_chunks
adler_checksum data' =
    if ltb networkmessage_maxsize (length data')
    then 0
    else (let (a, b) = sum_chunks (length data') data' (1, 0) in bit_or (b * 2 ^ 16 % u32_mod) a)
