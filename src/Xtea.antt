-- ===== src/Xtea.antt =====
-- src/xtea.cpp: the block cipher of the protocol, over a buffer of bytes.
-- The arrays `left` and `right` are one list of pairs; an inner loop over `j`, which reads and
-- writes the pair `j` alone, is a `map`. A key is a `std::array<uint32_t, 4>`, read at `& 3`.
-- A block size is a power of two, 2 ^ k: the build picks the first of 128, 32, 8, 2 and 1, and
-- `(BlockSize + 1u) / 2u` is the next power down.
pub mod Words
pub mod Rounds
pub mod Blocks
mod Examples
use otservbr_global.Common.{
  ℕ, zero, suc, ◌+◌, ◌*◌, ◌/◌, ◌%◌, ◌^◌, List, [], ◌∷◌, ◌++◌, map, length, get_or, drop, bit_xor,
  bit_or, bit_and,
}
use otservbr_global.Common.Words.{add32, sub32, u32_mod}

abbrev pub Key : Type 0
Key = ℕ → ℕ

pub record Pair : Type 0 where
  pub left : ℕ
  pub right : ℕ

abbrev pub delta : ℕ
delta = 0x9e37_79b9

-- `data[j] | data[j+1] << 8u | data[j+2] << 16u | data[j+3] << 24u`
pub load_word : List ℕ → ℕ → ℕ
load_word d j =
    bit_or
      (bit_or (bit_or (get_or d j 0) (get_or d (j + 1) 0 * 2 ^ 8)) (get_or d (j + 2) 0 * 2 ^ 16))
      (get_or d (j + 3) 0 * 2 ^ 24)

pub load : ℕ → List ℕ → List Pair
load zero d = []
load (suc n) d = record { left = load_word d 0; right = load_word d 4 } ∷ load n (drop 8 d)

pub store_word : ℕ → List ℕ
store_word w = w % 2 ^ 8 ∷ w / 2 ^ 8 % 2 ^ 8 ∷ w / 2 ^ 16 % 2 ^ 8 ∷ w / 2 ^ 24 % 2 ^ 8 ∷ []

pub store : List Pair → List ℕ
store [] = []
store (p ∷ ps) = (store_word p.left ++ store_word p.right) ++ store ps

-- `(((x << 4) ^ (x >> 5)) + x) ^ (sum + k[i])`
pub mix : ℕ → ℕ → ℕ → ℕ
mix x sum word = bit_xor (add32 (bit_xor (x * 2 ^ 4 % u32_mod) (x / 2 ^ 5)) x) (add32 sum word)

abbrev pub low_word : Key → ℕ → ℕ
low_word k sum = k (bit_and sum 3)

abbrev pub high_word : Key → ℕ → ℕ
high_word k sum = k (bit_and (sum / 2 ^ 11) 3)

pub add_left : Key → ℕ → Pair → Pair
add_left k sum p = record p { left = add32 p.left (mix p.right sum (low_word k sum)) }

pub add_right : Key → ℕ → Pair → Pair
add_right k sum p = record p { right = add32 p.right (mix p.left sum (high_word k sum)) }

pub sub_right : Key → ℕ → Pair → Pair
sub_right k sum p = record p { right = sub32 p.right (mix p.left sum (high_word k sum)) }

pub sub_left : Key → ℕ → Pair → Pair
sub_left k sum p = record p { left = sub32 p.left (mix p.right sum (low_word k sum)) }

-- The rounds that are left, and `sum` at their start.
pub encrypt_rounds : Key → ℕ → ℕ → List Pair → List Pair
encrypt_rounds k zero sum ps = ps
encrypt_rounds k (suc n) sum ps =
    let next = add32 sum delta in
    encrypt_rounds k n next (map (add_right k next) (map (add_left k sum) ps))

pub decrypt_rounds : Key → ℕ → ℕ → List Pair → List Pair
decrypt_rounds k zero sum ps = ps
decrypt_rounds k (suc n) sum ps =
    let next = sub32 sum delta in
    decrypt_rounds k n next (map (sub_left k next) (map (sub_right k sum) ps))

-- The bytes that `XTEA_encrypt<size>` and `XTEA_decrypt<size>` write over the first 8 * size.
pub encrypt_block : Key → ℕ → List ℕ → List ℕ
encrypt_block k size d = store (encrypt_rounds k 32 0 (load size d))

pub decrypt_block : Key → ℕ → List ℕ → List ℕ
decrypt_block k size d = store (decrypt_rounds k 32 (delta * 2 ^ 5 % u32_mod) (load size d))

-- The loop of `XTEA::operator()`, with `n` steps to go.
pub each_step : (ℕ → List ℕ → List ℕ) → ℕ → ℕ → List ℕ → List ℕ
each_step crypt size zero d = []
each_step crypt size (suc n) d = crypt size d ++ each_step crypt size n (drop (size * 8) d)

-- `XTEA<Encrypt, 2 ^ k>()(input, length, key)` on the whole buffer, with `crypt` for the choice of
-- `Encrypt`. `length & ~(step - 1)` is the largest multiple of the step.
pub run : (ℕ → List ℕ → List ℕ) → ℕ → List ℕ → List ℕ
run crypt zero d = let steps = length d / 8 in each_step crypt 1 steps d ++ drop (steps * 8) d
run crypt (suc k) d =
    let size = 2 ^ suc k in
    let steps = length d / (size * 8) in
    each_step crypt size steps d ++ run crypt k (drop (steps * (size * 8)) d)

-- `encrypt` and `decrypt` of a build whose `InitialBlockSize` is 2 ^ level.
pub encrypt : ℕ → Key → List ℕ → List ℕ
encrypt level k = run (encrypt_block k) level

pub decrypt : ℕ → Key → List ℕ → List ℕ
decrypt level k = run (decrypt_block k) level
