-- ===== src/Xtea/Rounds.antt =====
-- The 32 rounds of src/xtea.cpp on one pair of words, and that decryption undoes them.
use otservbr_global.Common.{
  ℕ, zero, suc, ◌*◌, ◌%◌, ◌^◌, ◌≡◌, refl, sym, ap, ◌∙◌, List, [], ◌∷◌, map, arith,
}
use otservbr_global.Common.Words.{add32, sub32, u32_mod}
use otservbr_global.Xtea.{
  Key, Pair, delta, mix, low_word, high_word, add_left, add_right, sub_left, sub_right,
  encrypt_rounds, decrypt_rounds,
}
use otservbr_global.Xtea.Words.{IsWord, IsPair}

-- The rounds on one pair: what each index `j` of the arrays goes through.
pub encrypt_pair : Key → ℕ → ℕ → Pair → Pair
encrypt_pair k zero sum p = p
encrypt_pair k (suc n) sum p =
    let next = add32 sum delta in encrypt_pair k n next (add_right k next (add_left k sum p))

pub decrypt_pair : Key → ℕ → ℕ → Pair → Pair
decrypt_pair k zero sum p = p
decrypt_pair k (suc n) sum p =
    let next = sub32 sum delta in decrypt_pair k n next (sub_left k next (sub_right k sum p))

map-map {ℓ} : {A : Type ℓ} (f g : A → A) (xs : List A) → map f (map g xs) ≡ map (λ x. f (g x)) xs
map-map f g [] = refl
map-map f g (x ∷ xs) = ap (λ r. f (g x) ∷ r) (map-map f g xs)

map-id {ℓ} : {A : Type ℓ} (xs : List A) → map (λ x. x) xs ≡ xs
map-id [] = refl
map-id (x ∷ xs) = ap (λ r. x ∷ r) (map-id xs)

pub encrypt_rounds-map :
    (k : Key) (n sum : ℕ) (ps : List Pair)
    → encrypt_rounds k n sum ps ≡ map (encrypt_pair k n sum) ps
unfolding encrypt_rounds encrypt_pair
encrypt_rounds-map k zero sum ps = sym (map-id ps)
encrypt_rounds-map k (suc n) sum ps =
    let next = add32 sum delta in
    encrypt_rounds-map k n next (map (add_right k next) (map (add_left k sum) ps))
    ∙ (ap (map (encrypt_pair k n next)) (map-map (add_right k next) (add_left k sum) ps)
        ∙ map-map (encrypt_pair k n next) (λ p. add_right k next (add_left k sum p)) ps)

pub decrypt_rounds-map :
    (k : Key) (n sum : ℕ) (ps : List Pair)
    → decrypt_rounds k n sum ps ≡ map (decrypt_pair k n sum) ps
unfolding decrypt_rounds decrypt_pair
decrypt_rounds-map k zero sum ps = sym (map-id ps)
decrypt_rounds-map k (suc n) sum ps =
    let next = sub32 sum delta in
    decrypt_rounds-map k n next (map (sub_left k next) (map (sub_right k sum) ps))
    ∙ (ap (map (decrypt_pair k n next)) (map-map (sub_left k next) (sub_right k sum) ps)
        ∙ map-map (decrypt_pair k n next) (λ p. sub_left k next (sub_right k sum p)) ps)

sum_after : ℕ → ℕ → ℕ
sum_after zero sum = sum
sum_after (suc n) sum = add32 (sum_after n sum) delta

sum_after-step : (n sum : ℕ) → sum_after n (add32 sum delta) ≡ add32 (sum_after n sum) delta
unfolding sum_after
sum_after-step zero sum = refl
sum_after-step (suc n) sum = ap (λ s. add32 s delta) (sum_after-step n sum)

sum_after-IsWord : (n sum : ℕ) → IsWord sum → IsWord (sum_after n sum)
unfolding sum_after
sum_after-IsWord zero sum h = h
sum_after-IsWord (suc n) sum h = omega arith

abbrev round : Key → ℕ → Pair → Pair
round k sum p = add_right k (add32 sum delta) (add_left k sum p)

encrypt_pair-last :
    (k : Key) (n sum : ℕ) (p : Pair)
    → encrypt_pair k (suc n) sum p ≡ round k (sum_after n sum) (encrypt_pair k n sum p)
unfolding encrypt_pair sum_after
encrypt_pair-last k zero sum p = refl
encrypt_pair-last k (suc n) sum p =
    encrypt_pair-last k n (add32 sum delta) (round k sum p)
    ∙ ap (λ s. round k s (encrypt_pair k n (add32 sum delta) (round k sum p)))
        (sum_after-step n sum)

round-IsPair : (k : Key) (sum : ℕ) (p : Pair) → IsPair (round k sum p)
unfolding add_left add_right
round-IsPair k sum p = omega arith

pub encrypt_pair-IsPair :
    (k : Key) (n sum : ℕ) (p : Pair) → IsPair p → IsPair (encrypt_pair k n sum p)
unfolding encrypt_pair
encrypt_pair-IsPair k zero sum p h = h
encrypt_pair-IsPair k (suc n) sum p h =
    encrypt_pair-IsPair k n (add32 sum delta) (round k sum p) (round-IsPair k sum p)

sub32-add32 : (a b : ℕ) → IsWord a → sub32 (add32 a b) b ≡ a
sub32-add32 a b h = omega arith

sub_right-add_right :
    (k : Key) (sum : ℕ) (p : Pair) → IsPair p → sub_right k sum (add_right k sum p) ≡ p
unfolding sub_right add_right
sub_right-add_right k sum p h =
    ap (λ r. record p { right = r }) (sub32-add32 p.right (mix p.left sum (high_word k sum)) h.1)

sub_left-add_left :
    (k : Key) (sum : ℕ) (p : Pair) → IsPair p → sub_left k sum (add_left k sum p) ≡ p
unfolding sub_left add_left
sub_left-add_left k sum p h =
    ap (λ l. record p { left = l }) (sub32-add32 p.left (mix p.right sum (low_word k sum)) h.0)

add_left-IsPair : (k : Key) (sum : ℕ) (p : Pair) → IsPair p → IsPair (add_left k sum p)
unfolding add_left
add_left-IsPair k sum p h = omega arith

-- One round is undone by its two subtractions in the opposite order.
unround :
    (k : Key) (sum : ℕ) (p : Pair)
    → IsPair p
    → sub_left k sum (sub_right k (add32 sum delta) (round k sum p)) ≡ p
unround k sum p h =
    ap (sub_left k sum)
      (sub_right-add_right k (add32 sum delta) (add_left k sum p) (add_left-IsPair k sum p h))
    ∙ sub_left-add_left k sum p h

decrypt_pair-encrypt_pair :
    (k : Key) (n sum : ℕ) (p : Pair)
    → IsWord sum
    → IsPair p
    → decrypt_pair k n (sum_after n sum) (encrypt_pair k n sum p) ≡ p
unfolding decrypt_pair sum_after
decrypt_pair-encrypt_pair k zero sum p hs h = unfold encrypt_pair in refl
decrypt_pair-encrypt_pair k (suc n) sum p hs h =
    let s = sum_after n sum in
    rw
      (
        sub32-add32 s delta (sum_after-IsWord n sum hs),
        encrypt_pair-last k n sum p,
        unround k s (encrypt_pair k n sum p) (encrypt_pair-IsPair k n sum p h),
      )
      (decrypt_pair-encrypt_pair k n sum p hs h)

-- All 32 rounds, from the constants that the two functions start with.
pub decrypt_pair-encrypt_pair_rounds :
    (k : Key) (p : Pair)
    → IsPair p
    → decrypt_pair k 32 (delta * 2 ^ 5 % u32_mod) (encrypt_pair k 32 0 p) ≡ p
unfolding sum_after
decrypt_pair-encrypt_pair_rounds k p h = decrypt_pair-encrypt_pair k 32 0 p (omega arith) h
