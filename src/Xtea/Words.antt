-- ===== src/Xtea/Words.antt =====
-- Bytes and words of src/xtea.cpp: loading undoes storing, and storing undoes loading.
use otservbr_global.Common.{
  ℕ, zero, suc, ◌+◌, ◌*◌, ◌/◌, ◌%◌, ◌^◌, ◌≤◌, ◌<◌, ◌≡◌, refl, ◌∙◌, List, [], ◌∷◌, ◌++◌, arith,
  length, get_or, take, All, bit_or,
}
use otservbr_global.Common.Words.{u32_mod}
use otservbr_global.Common.Bits.{bit_or_shifted}
use otservbr_global.Xtea.{Pair, load_word, load, store_word, store}

abbrev pub IsByte : ℕ → Type 0
IsByte b = b < 256

abbrev pub IsWord : ℕ → Type 0
IsWord w = w < u32_mod

abbrev pub IsPair : Pair → Type 0
IsPair p = IsWord p.left × IsWord p.right

word_of : ℕ → ℕ → ℕ → ℕ → ℕ
word_of a b c d = a + b * 2 ^ 8 + c * 2 ^ 16 + d * 2 ^ 24

bit_or-word_of :
    (a b c d : ℕ)
    → IsByte a
    → IsByte b
    → IsByte c
    → bit_or (bit_or (bit_or a (b * 2 ^ 8)) (c * 2 ^ 16)) (d * 2 ^ 24) ≡ word_of a b c d
unfolding word_of
bit_or-word_of a b c d ha hb hc = rw (bit_or_shifted 8 a b (omega arith)) (
    rw (bit_or_shifted 16 (a + b * 2 ^ 8) c (omega arith))
      (bit_or_shifted 24 (a + b * 2 ^ 8 + c * 2 ^ 16) d (omega arith)))

store_word-word_of :
    (a b c d : ℕ)
    → IsByte a
    → IsByte b
    → IsByte c
    → IsByte d
    → store_word (word_of a b c d) ≡ a ∷ b ∷ c ∷ d ∷ []
unfolding store_word word_of
store_word-word_of a b c d ha hb hc hd = ground arith

word_of-bytes :
    (w : ℕ)
    → IsWord w
    → word_of (w % 2 ^ 8) (w / 2 ^ 8 % 2 ^ 8) (w / 2 ^ 16 % 2 ^ 8) (w / 2 ^ 24 % 2 ^ 8) ≡ w
unfolding word_of
word_of-bytes w h = omega arith

load-store_word :
    (w : ℕ)
    → IsWord w
    → bit_or
        (bit_or (bit_or (w % 2 ^ 8) (w / 2 ^ 8 % 2 ^ 8 * 2 ^ 8)) (w / 2 ^ 16 % 2 ^ 8 * 2 ^ 16))
        (w / 2 ^ 24 % 2 ^ 8 * 2 ^ 24)
      ≡ w
load-store_word w h =
    bit_or-word_of (w % 2 ^ 8) (w / 2 ^ 8 % 2 ^ 8) (w / 2 ^ 16 % 2 ^ 8) (w / 2 ^ 24 % 2 ^ 8)
      (omega arith) (omega arith) (omega arith)
    ∙ word_of-bytes w h

pub load-store :
    (ps : List Pair) (rest : List ℕ) → All IsPair ps → load (length ps) (store ps ++ rest) ≡ ps
unfolding load store load_word store_word
load-store [] rest h = refl
load-store (p ∷ ps) rest h =
    rw (load-store_word p.left h.0.0, load-store_word p.right h.0.1, load-store ps rest h.1)

stored_word :
    (a b c d : ℕ)
    → IsByte a
    → IsByte b
    → IsByte c
    → IsByte d
    → store_word (bit_or (bit_or (bit_or a (b * 2 ^ 8)) (c * 2 ^ 16)) (d * 2 ^ 24))
      ≡ a ∷ b ∷ c ∷ d ∷ []
stored_word a b c d ha hb hc hd =
    rw (bit_or-word_of a b c d ha hb hc) (store_word-word_of a b c d ha hb hc hd)

eight_more : (n : ℕ) → suc n * 8 ≡ suc (suc (suc (suc (suc (suc (suc (suc (n * 8))))))))
eight_more n = omega arith

pub store-load :
    (n : ℕ) (d : List ℕ) → n * 8 ≤ length d → All IsByte d → store (load n d) ≡ take (n * 8) d
unfolding load store load_word
store-load zero d h b = refl
store-load (suc n) (a₀ ∷ a₁ ∷ a₂ ∷ a₃ ∷ a₄ ∷ a₅ ∷ a₆ ∷ a₇ ∷ d) h
      (h₀, (h₁, (h₂, (h₃, (h₄, (h₅, (h₆, (h₇, b)))))))) =
    rw (
      eight_more n,
      stored_word a₀ a₁ a₂ a₃ h₀ h₁ h₂ h₃,
      stored_word a₄ a₅ a₆ a₇ h₄ h₅ h₆ h₇,
      store-load n d (omega arith) b,
    )
store-load (suc n) _ h b = absurd (omega arith)

get_or-IsByte : (d : List ℕ) (i : ℕ) → All IsByte d → IsByte (get_or d i 0)
get_or-IsByte [] i h = omega arith
get_or-IsByte (b ∷ d) zero h = h.0
get_or-IsByte (b ∷ d) (suc i) h = get_or-IsByte d i h.1

pub load_word-IsWord : (d : List ℕ) (j : ℕ) → All IsByte d → IsWord (load_word d j)
unfolding load_word
load_word-IsWord d j h =
    rw
      (bit_or-word_of (get_or d j 0) (get_or d (j + 1) 0) (get_or d (j + 2) 0) (get_or d (j + 3) 0)
        (get_or-IsByte d j h) (get_or-IsByte d (j + 1) h) (get_or-IsByte d (j + 2) h))
      (unfold word_of in
        omega (
          arith,
          get_or-IsByte d j h,
          get_or-IsByte d (j + 1) h,
          get_or-IsByte d (j + 2) h,
          get_or-IsByte d (j + 3) h,
        ))
