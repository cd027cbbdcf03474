-- ===== src/Adler/Reference.antt =====
-- `adlerChecksum` of src/tools.cpp is the Adler-32 sum of the bytes: reducing once in 5552 bytes
-- loses nothing, since no sum wraps around before.
use otservbr_global.Common.{
  ℕ, zero, suc, ◌+◌, ◌*◌, ◌%◌, ◌^◌, ◌≤◌, ◌<◌, ◌≡◌, refl, sym, ap, ap₂, ◌∙◌, false, List, [], ◌∷◌,
  ◌++◌, arith, ltb, length, take, drop, All, length-take, length-drop, take-append-drop, min,
  bit_or,
}
use otservbr_global.Common.Words.{add32, u32_mod}
use otservbr_global.Common.Bits.{shifted_bit_or}
use otservbr_global.Adler.{
  networkmessage_maxsize, adler, chunk, sum_chunk, reduce, sum_chunks, adler_checksum,
}

-- The definition of Adler-32, reduced at every byte.
pub adler_sums : List ℕ → ℕ × ℕ → ℕ × ℕ
adler_sums [] (a, b) = (a, b)
adler_sums (d ∷ ds) (a, b) = adler_sums ds ((a + d) % adler, (b + (a + d) % adler) % adler)

-- After `i` bytes of a chunk the two sums are at most so large.
record IsSmall (i a b : ℕ) : Type 0 where
  a_small : a ≤ 65520 + 255 * i
  b_small : 2 * b ≤ 131040 * (i + 1) + 255 * (i * (i + 1))

IsSmall-step : (i a b d : ℕ) → d < 256 → IsSmall i a b → IsSmall (suc i) (a + d) (b + (a + d))
IsSmall-step i a b d hd h = record {
  a_small = omega (arith, h.a_small);
  b_small = omega (arith, h.a_small, h.b_small);
}

IsSmall-lt : (i a b : ℕ) → i ≤ chunk → IsSmall i a b → (a < u32_mod) × (b < u32_mod)
IsSmall-lt i a b le h =
    let square : i * (i + 1) ≤ 5552 * (i + 1) = grind arith in
    (omega (arith, h.a_small), omega (arith, h.b_small))

pair_path : {a b c d : ℕ} → a ≡ c → b ≡ d → ◌≡◌ {A = ℕ × ℕ} (a, b) (c, d)
pair_path p q = ap₂ (λ x y. (x, y)) p q

-- A chunk, reduced at its end, gives what reducing at every byte gives.
reduce-sum_chunk :
    (i a b : ℕ) (ds : List ℕ)
    → i + length ds ≤ chunk
    → All (λ d. d < 256) ds
    → IsSmall i a b
    → reduce (sum_chunk ds (a, b)) ≡ adler_sums ds (a % adler, b % adler)
unfolding reduce sum_chunk adler_sums
reduce-sum_chunk i a b [] le bytes h = refl
reduce-sum_chunk i a b (d ∷ ds) le bytes h =
    let next = IsSmall-step i a b d bytes.0 h in
    let small = IsSmall-lt (suc i) (a + d) (b + (a + d)) (omega arith) next in
    let a_is : add32 a d ≡ a + d = omega (arith, small.0) in
    let b_is : add32 b (add32 a d) ≡ b + (a + d) = omega (arith, small.0, small.1) in
    let a_mod : (a % adler + d) % adler ≡ (a + d) % adler = omega arith in
    let b_mod : (b % adler + (a % adler + d) % adler) % adler ≡ (b + (a + d)) % adler =
      omega arith in
    ap (λ s. reduce (sum_chunk ds s)) (pair_path a_is b_is)
    ∙ (reduce-sum_chunk (suc i) (a + d) (b + (a + d)) ds (omega arith) bytes.1 next
        ∙ ap (adler_sums ds) (pair_path (sym a_mod) (sym b_mod)))

adler_sums-append :
    (xs ys : List ℕ) (ab : ℕ × ℕ) → adler_sums (xs ++ ys) ab ≡ adler_sums ys (adler_sums xs ab)
unfolding adler_sums
adler_sums-append [] ys ab = refl
adler_sums-append (x ∷ xs) ys (a, b) =
    adler_sums-append xs ys ((a + x) % adler, (b + (a + x) % adler) % adler)

abbrev IsReduced : ℕ × ℕ → Type 0
IsReduced (a, b) = (a < adler) × (b < adler)

adler_sums-IsReduced : (ds : List ℕ) (ab : ℕ × ℕ) → IsReduced ab → IsReduced (adler_sums ds ab)
unfolding adler_sums
adler_sums-IsReduced [] ab h = h
adler_sums-IsReduced (d ∷ ds) (a, b) h = adler_sums-IsReduced ds _ (omega arith, omega arith)

All-take : (n : ℕ) (ds : List ℕ) → All (λ d. d < 256) ds → All (λ d. d < 256) (take n ds)
All-take zero ds h = tt
All-take (suc n) [] h = tt
All-take (suc n) (d ∷ ds) h = (h.0, All-take n ds h.1)

All-drop : (n : ℕ) (ds : List ℕ) → All (λ d. d < 256) ds → All (λ d. d < 256) (drop n ds)
All-drop zero ds h = h
All-drop (suc n) [] h = tt
All-drop (suc n) (d ∷ ds) h = All-drop n ds h.1

sum_chunks-adler_sums :
    (fuel : ℕ) (ds : List ℕ) (ab : ℕ × ℕ)
    → length ds ≤ fuel
    → All (λ d. d < 256) ds
    → IsReduced ab
    → sum_chunks fuel ds ab ≡ adler_sums ds ab
unfolding sum_chunks
sum_chunks-adler_sums zero [] ab le bytes h = unfold adler_sums in refl
sum_chunks-adler_sums (suc fuel) [] ab le bytes h = unfold adler_sums in refl
sum_chunks-adler_sums zero (d ∷ ds) ab le bytes h = absurd (omega arith)
sum_chunks-adler_sums (suc fuel) (d ∷ ds) (a, b) le bytes h =
    let all = d ∷ ds in
    let size : ℕ = min chunk (length all) in
    let same_a : a % adler ≡ a = omega (arith, h.0) in
    let same_b : b % adler ≡ b = omega (arith, h.1) in
    let first : reduce (sum_chunk (take size all) (a, b)) ≡ adler_sums (take size all) (a, b) =
      rw (same_a, same_b) at
        (reduce-sum_chunk 0 a b (take size all) (omega (arith, length-take size all (omega arith)))
          (All-take size all bytes)
          (record { a_small = omega (arith, h.0); b_small = omega (arith, h.1) })) in
    let rest =
      sum_chunks-adler_sums fuel (drop size all) (adler_sums (take size all) (a, b))
        (omega (arith, length-drop size all)) (All-drop size all bytes)
        (adler_sums-IsReduced (take size all) (a, b) h) in
    ap (sum_chunks fuel (drop size all)) first
    ∙ (rest
        ∙ (sym (adler_sums-append (take size all) (drop size all) (a, b))
            ∙ ap (λ t. adler_sums t (a, b)) (take-append-drop size all)))

-- The checksum of up to 24590 bytes: the two Adler-32 sums in one 32-bit word.
pub adler_checksum-adler_sums :
    (ds : List ℕ)
    → length ds ≤ networkmessage_maxsize
    → All (λ d. d < 256) ds
    → let (a, b) = adler_sums ds (1, 0) in
      (adler_checksum ds ≡ b * 2 ^ 16 + a) × (adler_checksum ds < u32_mod)
unfolding adler_checksum
adler_checksum-adler_sums ds le bytes =
    let start : IsReduced (1, 0) = (omega arith, omega arith) in
    let (a, b) = adler_sums ds (1, 0) in
    let small = adler_sums-IsReduced ds (1, 0) start in
    let short : ltb networkmessage_maxsize (length ds) ≡ false = ground arith in
    let fits : b * 2 ^ 16 % u32_mod ≡ b * 2 ^ 16 = omega (arith, small.1) in
    let joined : bit_or (b * 2 ^ 16 % u32_mod) a ≡ b * 2 ^ 16 + a =
      rw fits (shifted_bit_or 16 b a (omega (arith, small.0))) in
    rw (short, sum_chunks-adler_sums (length ds) ds (1, 0) (omega arith) bytes start)
      (joined, omega (arith, joined, small.0, small.1))
