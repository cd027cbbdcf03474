-- ===== src/Common/Places.antt =====
-- Memory as a function from addresses, pointers that may be null, and lists of addresses.
use otservbr_global.Common.{
  ℕ, ◌≡◌, refl, inl, inr, Bool, false, ◌||◌, Option, none, some, List, [], ◌∷◌, ◌==◌, if◌then◌else◌,
  Bool-cases,
}

-- A write to one place of the memory.
unfoldable pub write_at {ℓ} : {A : Type ℓ} → ℕ → A → (ℕ → A) → ℕ → A
write_at i v f j = if j == i then v else f j

-- `std::find(...) != end`
unfoldable pub has : ℕ → List ℕ → Bool
has a [] = false
has a (x ∷ xs) = (x == a) || has a xs

-- `player->getParty() == party`, and other comparisons with a pointer that may be null.
abbrev pub points_to : Option ℕ → ℕ → Bool
points_to none q = false
points_to (some r) q = r == q

pub write_at_lem {ℓ} :
    {A : Type ℓ} (i : ℕ) (v : A) (f : ℕ → A) (j : ℕ)
    → write_at i v f j ≡ (if j == i then v else f j)
unfolding write_at
write_at_lem i v f j = refl

-- A property of the thing at a place, after a write.
pub write_at-field {ℓ κ} :
    {A : Type ℓ} {B : Type κ} (g : A → B) (i : ℕ) (v : A) (f : ℕ → A) (j : ℕ)
    → g (write_at i v f j) ≡ (if j == i then g v else g (f j))
unfolding write_at
write_at-field g i v f j = elim (Bool-cases (j == i)) [ inl e ↦ rw e refl | inr e ↦ rw e refl ]
