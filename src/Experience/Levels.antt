-- ===== src/Experience/Levels.antt =====
-- The experience that a level of src/player.h needs, up to the level 700000.
use otservbr_global.Common.{ℕ, zero, suc, ◌+◌, ◌-◌, ◌*◌, ◌%◌, ◌^◌, ◌≤◌, ◌<◌, ◌≡◌, refl, arith}
use native.Mathlib.Nat.{add-zero, add-suc}
use otservbr_global.Common.Words.{u64_mod}
use otservbr_global.Experience.{get_exp_for_level, widen}

-- Level 1 needs nothing, and the level after `suc x` needs so much more.
pub exp_after : ℕ → ℕ
exp_after zero = 0
exp_after (suc x) = exp_after x + 50 * (x * x) + 100 - 50 * x

-- The cubic that the code computes.
pub exp_after-cubic : (x : ℕ) → 3 * exp_after x + 150 * (x * x) ≡ 50 * (x * x * x) + 400 * x
unfolding exp_after
exp_after-cubic zero = omega arith
exp_after-cubic (suc x) =
    let small : 50 * x ≤ 50 * (x * x) = grind arith in omega (arith, exp_after-cubic x)

-- The levels at which nothing wraps around.
abbrev pub top : ℕ
top = 700000

cube_bound : (x : ℕ) → x < top → x * x * x < 343000000000000000
cube_bound x h =
    let square : x * x ≤ 700000 * x = grind arith in
    let cube : x * x * x ≤ 700000 * (x * x) = grind arith in omega arith

pub get_exp_for_level_lem : (x : ℕ) → x < top → get_exp_for_level (suc x) ≡ exp_after x
unfolding get_exp_for_level
get_exp_for_level_lem x h =
    let narrow : widen (suc x) ≡ suc x = ground arith in
    let lv : (suc x + u64_mod - 1) % u64_mod ≡ x = omega arith in
    rw (narrow, lv) (omega (arith, exp_after-cubic x, cube_bound x h))

pub exp_after-step : (x : ℕ) → exp_after x + 50 ≤ exp_after (suc x)
unfolding exp_after
exp_after-step x = let small : 50 * x ≤ 50 * (x * x) = grind arith in omega arith

pub exp_after_mono : (x n : ℕ) → exp_after x + 50 * n ≤ exp_after (x + n)
exp_after_mono x zero = rw (add-zero x) (omega arith)
exp_after_mono x (suc n) =
    rw (add-suc x n) (omega (arith, exp_after-step (x + n), exp_after_mono x n))

exp_after-le-add : (x n : ℕ) → exp_after x ≤ exp_after (x + n)
exp_after-le-add x n = omega (arith, exp_after_mono x n)

pub exp_after_le : (x y : ℕ) → x ≤ y → exp_after x ≤ exp_after y
exp_after_le x y h = let e : x + (y - x) ≡ y = omega arith in rw e at (exp_after-le-add x (y - x))

-- Experience belongs to one level only.
pub exp_after_unique :
    (x y e : ℕ)
    → exp_after x ≤ e
    → e < exp_after (suc x)
    → exp_after y ≤ e
    → e < exp_after (suc y)
    → x ≡ y
exp_after_unique x y e lx hx ly hy = ground (arith, exp_after_le (suc x) y, exp_after_le (suc y) x)

pub exp_after-top : exp_after (top - 1) < 2 ^ 63
exp_after-top = omega (arith, exp_after-cubic (top - 1))

pub exp_after_zero : exp_after 0 ≡ 0
unfolding exp_after
exp_after_zero = refl
