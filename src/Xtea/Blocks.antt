-- ===== src/Xtea/Blocks.antt =====
-- The buffer as 8-byte blocks: src/xtea.cpp does the same for every block size of a build, and
-- decrypting undoes encrypting.
use otservbr_global.Common.{
  ℕ, zero, suc, ◌+◌, ◌*◌, ◌/◌, ◌%◌, ◌^◌, ◌≤◌, ◌≡◌, refl, sym, ap, ◌∙◌, List, [], ◌∷◌, ◌++◌, map,
  arith, length, drop, All, length-append, append_assoc, drop-append, length-drop, take-append-drop,
  length-map,
}
use mathlib.Core.Path.{subst}
use native.Mathlib.Nat.{mul_assoc, suc-add, zero-add}
use otservbr_global.Common.Words.{u32_mod}
use otservbr_global.Xtea.{
  Key, Pair, delta, load_word, load, store_word, store, encrypt_block, decrypt_block, each_step,
  run, encrypt, decrypt,
}
use otservbr_global.Xtea.Words.{IsByte, IsPair, load-store, store-load, load_word-IsWord}
use otservbr_global.Xtea.Rounds.{
  encrypt_pair, decrypt_pair, encrypt_rounds-map, decrypt_rounds-map, encrypt_pair-IsPair,
  decrypt_pair-encrypt_pair_rounds,
}

drop-nil {ℓ} : {A : Type ℓ} (n : ℕ) → drop {A = A} n [] ≡ []
drop-nil zero = refl
drop-nil (suc n) = refl

drop-drop {ℓ} : {A : Type ℓ} (m n : ℕ) (xs : List A) → drop m (drop n xs) ≡ drop (n + m) xs
drop-drop m zero xs = rw (zero-add m)
drop-drop m (suc n) [] = rw (drop-nil m, drop-nil (suc n + m))
drop-drop m (suc n) (x ∷ xs) = rw (suc-add n m) (drop-drop m n xs)

load-add : (a b : ℕ) (d : List ℕ) → load (a + b) d ≡ load a d ++ load b (drop (a * 8) d)
unfolding load
load-add zero b d = rw (zero-add b)
load-add (suc a) b d =
    let eight : suc a * 8 ≡ 8 + a * 8 = omega arith in
    rw (suc-add a b, eight, ← drop-drop (a * 8) 8 d)
      (ap (λ r. record { left = load_word d 0; right = load_word d 4 } ∷ r)
        (load-add a b (drop 8 d)))

store-append : (ps qs : List Pair) → store (ps ++ qs) ≡ store ps ++ store qs
unfolding store
store-append [] qs = refl
store-append (p ∷ ps) qs =
    rw (append_assoc (store_word p.left ++ store_word p.right) (store ps) (store qs))
      (ap (λ r. (store_word p.left ++ store_word p.right) ++ r) (store-append ps qs))

map-append {ℓ} : {A : Type ℓ} (f : A → A) (xs ys : List A) → map f (xs ++ ys) ≡ map f xs ++ map f ys
map-append f [] ys = refl
map-append f (x ∷ xs) ys = ap (λ r. f x ∷ r) (map-append f xs ys)

-- Every 8-byte block goes through `f`, and what does not fill a block stays as it was.
abbrev pub blockwise : (Pair → Pair) → List ℕ → List ℕ
blockwise f d = store (map f (load (length d / 8) d)) ++ drop (length d / 8 * 8) d

steps_fit : (x s : ℕ) → x / s * s ≤ x
steps_fit x s = grind arith

module _ (f : Pair → Pair) (crypt : ℕ → List ℕ → List ℕ)
    (by_pairs : (n : ℕ) (d : List ℕ) → crypt n d ≡ store (map f (load n d))) where
  each_step-store :
      (size n : ℕ) (d : List ℕ) → each_step crypt size n d ≡ store (map f (load (n * size) d))
  unfolding each_step
  each_step-store size zero d =
      let none_left : 0 * size ≡ 0 = omega arith in rw none_left (unfold load store in refl)
  each_step-store size (suc n) d =
      let more : suc n * size ≡ size + n * size = omega arith in
      rw (
        more,
        load-add size (n * size) d,
        map-append f (load size d) (load (n * size) (drop (size * 8) d)),
        store-append (map f (load size d)) (map f (load (n * size) (drop (size * 8) d))),
        by_pairs size d,
        each_step-store size n (drop (size * 8) d),
      )

  split-blockwise :
      (a : ℕ) (d : List ℕ)
      → a * 8 ≤ length d
      → store (map f (load a d)) ++ blockwise f (drop (a * 8) d) ≡ blockwise f d
  split-blockwise a d h =
      let m = length (drop (a * 8) d) / 8 in
      let blocks : length d / 8 ≡ a + m = omega (arith, length-drop (a * 8) d) in
      let bytes : (a + m) * 8 ≡ a * 8 + m * 8 = omega arith in
      rw
        (
          blocks,
          load-add a m d,
          map-append f (load a d) (load m (drop (a * 8) d)),
          store-append (map f (load a d)) (map f (load m (drop (a * 8) d))),
          bytes,
          ← drop-drop (m * 8) (a * 8) d,
        )
        (sym (append_assoc (store (map f (load a d))) (store (map f (load m (drop (a * 8) d)))) _))

  run-blockwise : (k : ℕ) (d : List ℕ) → run crypt k d ≡ blockwise f d
  unfolding run
  run-blockwise zero d =
      let one_each : length d / 8 * 1 ≡ length d / 8 = omega arith in
      rw (each_step-store 1 (length d / 8) d, one_each)
  run-blockwise (suc k) d =
      let size : ℕ = 2 ^ suc k in
      let n : ℕ = length d / (size * 8) in
      let starts : n * (size * 8) ≡ n * size * 8 = sym (mul_assoc n size 8) in
      let fits : n * (size * 8) ≤ length d = steps_fit (length d) (size * 8) in
      rw (each_step-store size n d, run-blockwise k (drop (n * (size * 8)) d), starts)
        (split-blockwise (n * size) d (rw starts at fits))

encrypt_block-store :
    (k : Key) (n : ℕ) (d : List ℕ)
    → encrypt_block k n d ≡ store (map (encrypt_pair k 32 0) (load n d))
unfolding encrypt_block
encrypt_block-store k n d = ap store (encrypt_rounds-map k 32 0 (load n d))

decrypt_block-store :
    (k : Key) (n : ℕ) (d : List ℕ)
    → decrypt_block k n d ≡ store (map (decrypt_pair k 32 (delta * 2 ^ 5 % u32_mod)) (load n d))
unfolding decrypt_block
decrypt_block-store k n d = ap store (decrypt_rounds-map k 32 (delta * 2 ^ 5 % u32_mod) (load n d))

-- A build of any block size encrypts each 8-byte block on its own, and leaves up to 7 bytes at the
-- end alone.
pub encrypt-blockwise :
    (level : ℕ) (k : Key) (d : List ℕ) → encrypt level k d ≡ blockwise (encrypt_pair k 32 0) d
unfolding encrypt
encrypt-blockwise level k d = run-blockwise _ _ (encrypt_block-store k) level d

decrypt-blockwise :
    (level : ℕ) (k : Key) (d : List ℕ)
    → decrypt level k d ≡ blockwise (decrypt_pair k 32 (delta * 2 ^ 5 % u32_mod)) d
unfolding decrypt
decrypt-blockwise level k d = run-blockwise _ _ (decrypt_block-store k) level d

length-load : (n : ℕ) (d : List ℕ) → length (load n d) ≡ n
unfolding load
length-load zero d = refl
length-load (suc n) d = ap suc (length-load n (drop 8 d))

length-store : (ps : List Pair) → length (store ps) ≡ length ps * 8
unfolding store store_word
length-store [] = omega arith
length-store (p ∷ ps) = omega (arith, length-store ps)

length-blockwise : (f : Pair → Pair) (d : List ℕ) → length (blockwise f d) ≡ length d
length-blockwise f d =
    let n = length d / 8 in
    omega (
      arith,
      length-append (store (map f (load n d))) (drop (n * 8) d),
      length-store (map f (load n d)),
      length-map f (load n d),
      length-load n d,
      length-drop (n * 8) d,
    )

All-drop : (n : ℕ) (d : List ℕ) → All IsByte d → All IsByte (drop n d)
All-drop zero d h = h
All-drop (suc n) [] h = h
All-drop (suc n) (b ∷ d) h = All-drop n d h.1

All-load : (n : ℕ) (d : List ℕ) → All IsByte d → All IsPair (load n d)
unfolding load
All-load zero d h = tt
All-load (suc n) d h =
    ((load_word-IsWord d 0 h, load_word-IsWord d 4 h), All-load n (drop 8 d) (All-drop 8 d h))

module _ (f g : Pair → Pair) (keeps : (p : Pair) → IsPair p → IsPair (f p))
    (undoes : (p : Pair) → IsPair p → g (f p) ≡ p) where
  All-mapped : (ps : List Pair) → All IsPair ps → All IsPair (map f ps)
  All-mapped [] h = tt
  All-mapped (p ∷ ps) h = (keeps p h.0, All-mapped ps h.1)

  map-undoes : (ps : List Pair) → All IsPair ps → map g (map f ps) ≡ ps
  map-undoes [] h = refl
  map-undoes (p ∷ ps) h = rw (undoes p h.0, map-undoes ps h.1)

  blockwise-blockwise : (d : List ℕ) → All IsByte d → blockwise g (blockwise f d) ≡ d
  blockwise-blockwise d h =
      let n = length d / 8 in
      let ps = load n d in
      let bytes = store (map f ps) in
      let tail = drop (n * 8) d in
      let pairs = All-load n d h in
      let count : length (map f ps) ≡ n = length-map f ps ∙ length-load n d in
      let loaded : load n (bytes ++ tail) ≡ map f ps =
        subst (λ m. load m (bytes ++ tail) ≡ map f ps) count
          (load-store (map f ps) tail (All-mapped ps pairs)) in
      let filled : length bytes ≡ n * 8 = length-store (map f ps) ∙ ap (λ m. m * 8) count in
      let rest : drop (n * 8) (bytes ++ tail) ≡ tail =
        subst (λ m. drop m (bytes ++ tail) ≡ tail) filled (drop-append bytes tail) in
      let same : length (bytes ++ tail) / 8 ≡ n = ap (λ m. m / 8) (length-blockwise f d) in
      rw (same, loaded, rest, map-undoes ps pairs, store-load n d (omega arith) h)
        (take-append-drop (n * 8) d)

-- Encrypting keeps the length of the buffer, and a program of one block size decrypts what another
-- encrypted with the same key.
pub decrypt-encrypt :
    (level level' : ℕ) (k : Key) (d : List ℕ)
    → All IsByte d
    → (length (encrypt level k d) ≡ length d) × (decrypt level' k (encrypt level k d) ≡ d)
decrypt-encrypt level level' k d h =
    rw (encrypt-blockwise level k d, decrypt-blockwise level' k)
      (
        length-blockwise (encrypt_pair k 32 0) d,
        blockwise-blockwise _ _ (encrypt_pair-IsPair k 32 0) (decrypt_pair-encrypt_pair_rounds k) d
            h,
      )
