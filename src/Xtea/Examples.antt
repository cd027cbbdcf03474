-- ===== src/Xtea/Examples.antt =====
-- Runs of src/xtea.cpp, and the theorems at a concrete buffer.
use otservbr_global.Common.{ℕ, zero, suc, ◌≡◌, refl, List, [], ◌∷◌, arith, length, drop}
use otservbr_global.Xtea.{
  Key, encrypt, decrypt, run, each_step, encrypt_block, decrypt_block, store, load, store_word,
  load_word, encrypt_rounds, decrypt_rounds, add_left, add_right, sub_left, sub_right, mix,
}
use otservbr_global.Xtea.Rounds.{encrypt_pair}
use otservbr_global.Xtea.Blocks.{blockwise, encrypt-blockwise, decrypt-encrypt}

methods : Unit {0}
unfolding encrypt decrypt run each_step encrypt_block decrypt_block store load store_word load_word
    encrypt_rounds decrypt_rounds add_left add_right sub_left sub_right mix
methods = tt

abbrev test_key : Key
test_key zero = 0x0001_0203
test_key (suc zero) = 0x0405_0607
test_key (suc (suc zero)) = 0x0809_0a0b
test_key _ = 0x0c0d_0e0f

abbrev buffer : List ℕ
buffer = 1 ∷ 2 ∷ 3 ∷ 4 ∷ 5 ∷ 6 ∷ 7 ∷ 8 ∷ 9 ∷ 10 ∷ []

-- Two builds agree, and the last two bytes are left alone.
runs :
    (encrypt 0 test_key buffer ≡ encrypt 1 test_key buffer)
    × (drop 8 (encrypt 1 test_key buffer) ≡ 9 ∷ 10 ∷ [])
    × (decrypt 3 test_key (encrypt 1 test_key buffer) ≡ buffer)
unfolding methods
runs = (refl, refl, refl)

encrypt-blockwise_example :
    encrypt 1 test_key buffer ≡ blockwise (encrypt_pair test_key 32 0) buffer
encrypt-blockwise_example = encrypt-blockwise 1 test_key buffer

decrypt-encrypt_example :
    (length (encrypt 1 test_key buffer) ≡ 10)
    × (decrypt 5 test_key (encrypt 1 test_key buffer) ≡ buffer)
decrypt-encrypt_example = decrypt-encrypt 1 5 test_key buffer (omega arith)
