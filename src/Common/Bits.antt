-- ===== src/Common/Bits.antt =====
-- `bit_or` of disjoint fields as a sum: how the sources put bytes together.
use Prim.Native.Nat.{digits, bit_or-bitwise}
use native.Mathlib.Nat.{pow-suc, le_refl}
use otservbr_global.Common.{
  ℕ, zero, suc, ◌+◌, ◌*◌, ◌/◌, ◌%◌, ◌^◌, ◌≤◌, ◌<◌, ◌≡◌, refl, ap, max, bit_or, arith,
}

-- The definition that `bit_or` stands for, on any count of digits that is enough.
or_on : ℕ → ℕ → ℕ → ℕ
or_on count a b = digits (λ rest. rest) max count a b

or_on-eq : (m n a b : ℕ) → a ≤ m → a ≤ n → or_on m a b ≡ or_on n a b
unfolding or_on
or_on-eq zero zero a b p q = refl
or_on-eq zero (suc n) zero b p q = refl
or_on-eq zero (suc n) (suc a) b p q = absurd (omega arith)
or_on-eq (suc m) zero zero b p q = refl
or_on-eq (suc m) zero (suc a) b p q = absurd (omega arith)
or_on-eq (suc m) (suc n) zero b p q = refl
or_on-eq (suc m) (suc n) (suc a) b p q =
    rw (or_on-eq m n (suc a / 2) (b / 2) (omega arith) (omega arith))

bit_or_halves : (a b : ℕ) → bit_or a b ≡ bit_or (a / 2) (b / 2) * 2 + max (a % 2) (b % 2)
unfolding or_on
bit_or_halves zero b = simp bit_or-bitwise (omega arith)
bit_or_halves (suc a) b =
    simp bit_or-bitwise
      (omega (arith, or_on-eq a (suc a / 2) (suc a / 2) (b / 2) (omega arith) (le_refl _)))

-- The lower field comes first, as in `data[0] | data[1] << 8`.
pub bit_or_shifted : (k low high : ℕ) → low < 2 ^ k → bit_or low (high * 2 ^ k) ≡ low + high * 2 ^ k
bit_or_shifted zero zero high h = simp bit_or-bitwise (omega arith)
bit_or_shifted zero (suc low) high h = absurd (omega arith)
bit_or_shifted (suc k) low high h = ground (
  arith,
  bit_or_halves low (high * 2 ^ suc k),
  ap (λ (t : ℕ). high * t) (pow-suc 2 k),
  pow-suc 2 k,
  bit_or_shifted k (low / 2) high,
)

or_on-zero : (n a : ℕ) → a ≤ n → or_on n a 0 ≡ a
unfolding or_on
or_on-zero zero zero h = refl
or_on-zero zero (suc a) h = absurd (omega arith)
or_on-zero (suc n) zero h = refl
or_on-zero (suc n) (suc a) h = omega (arith, or_on-zero n (suc a / 2) (omega arith))

bit_or-zero : (a : ℕ) → bit_or a 0 ≡ a
unfolding or_on
bit_or-zero a = simp bit_or-bitwise (or_on-zero a a (le_refl a))

-- The higher field comes first, as in `b << 16 | a`.
pub shifted_bit_or : (k high low : ℕ) → low < 2 ^ k → bit_or (high * 2 ^ k) low ≡ high * 2 ^ k + low
shifted_bit_or zero high zero h = ground (arith, bit_or-zero high)
shifted_bit_or zero high (suc low) h = absurd (omega arith)
shifted_bit_or (suc k) high low h = ground (
  arith,
  bit_or_halves (high * 2 ^ suc k) low,
  ap (λ (t : ℕ). high * t) (pow-suc 2 k),
  pow-suc 2 k,
  shifted_bit_or k high (low / 2),
)
