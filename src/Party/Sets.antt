-- ===== src/Party/Sets.antt =====
-- The lists of players and parties of src/party.cpp, as sets, and writes to places of the memory.
pub use otservbr_global.Common.Places.{write_at_lem, write_at-field}
use otservbr_global.Common.{
  ℕ, ◌≡◌, refl, inl, inr, false, not, ◌&&◌, ◌||◌, List, [], ◌∷◌, ◌++◌, arith, ◌==◌, Bool-cases,
}
use otservbr_global.Party.{has, erase, remove_all}

pub has-append : (a : ℕ) (xs ys : List ℕ) → has a (xs ++ ys) ≡ has a xs || has a ys
unfolding has
has-append a [] ys = refl
has-append a (x ∷ xs) ys = ground (arith, has-append a xs ys)

pub has-remove_all : (a b : ℕ) (xs : List ℕ) → has a (remove_all b xs) ≡ has a xs && not (a == b)
unfolding has remove_all
has-remove_all a b [] = refl
has-remove_all a b (x ∷ xs) = ground (arith, has-remove_all a b xs)

-- No element stands twice.
abbrev pub IsDistinct : List ℕ → Type 0
IsDistinct [] = Unit {0}
IsDistinct (x ∷ xs) = (has x xs ≡ false) × IsDistinct xs

has-erase_kept : (a b : ℕ) (xs : List ℕ) → has a xs ≡ false → has a (erase b xs) ≡ false
unfolding has erase
has-erase_kept a b [] h = refl
has-erase_kept a b (x ∷ xs) h = ground (arith, has-erase_kept a b xs)

pub has-erase :
    (a b : ℕ) (xs : List ℕ) → IsDistinct xs → has a (erase b xs) ≡ has a xs && not (a == b)
unfolding has erase
has-erase a b [] h = refl
has-erase a b (x ∷ xs) h = ground (arith, h.0, has-erase a b xs h.1)

pub erase-IsDistinct : (b : ℕ) (xs : List ℕ) → IsDistinct xs → IsDistinct (erase b xs)
unfolding erase
erase-IsDistinct b [] h = tt
erase-IsDistinct b (x ∷ xs) h = elim (Bool-cases (x == b)) [
  | inl e ↦ rw e h.1
  | inr e ↦ rw e (has-erase_kept x b xs h.0, erase-IsDistinct b xs h.1)
]

pub append-IsDistinct :
    (a : ℕ) (xs : List ℕ) → IsDistinct xs → has a xs ≡ false → IsDistinct (xs ++ (a ∷ []))
unfolding has
append-IsDistinct a [] h new = (refl, tt)
append-IsDistinct a (x ∷ xs) h new =
    (ground (arith, h.0, has-append x xs (a ∷ [])), append-IsDistinct a xs h.1 (ground arith))
