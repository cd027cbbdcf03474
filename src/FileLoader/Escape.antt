-- ===== src/FileLoader/Escape.antt =====
-- The escape bytes in the properties of a node, which `OTB::Loader::getProps` of src/fileloader.cpp
-- takes out.
use otservbr_global.Common.{
  ℕ, ◌≡◌, refl, ap, inl, inr, false, none, some, List, [], ◌∷◌, arith, leb, ◌==◌, if◌then◌else◌,
  Bool-cases, length,
}
use otservbr_global.FileLoader.{escape_char, copy_unescaped, get_props}

-- The bytes of a file for the properties of a node: a byte that stands for the start or the end of a
-- node, or for an escape, has an escape in front.
unfoldable pub escaped : List ℕ → List ℕ
escaped [] = []
escaped (b ∷ bs) =
    let rest = escaped bs in if leb escape_char b then escape_char ∷ b ∷ rest else b ∷ rest

copy_unescaped-escaped : (bs : List ℕ) → copy_unescaped false (escaped bs) ≡ bs
unfolding copy_unescaped escaped
copy_unescaped-escaped [] = refl
copy_unescaped-escaped (b ∷ bs) = elim (Bool-cases (leb escape_char b)) [
  | inl e ↦ rw e (elim (Bool-cases (b == escape_char)) [
    | inl s ↦ rw s (ap (λ r. b ∷ r) (copy_unescaped-escaped bs))
    | inr s ↦ rw s (ap (λ r. b ∷ r) (copy_unescaped-escaped bs))
  ])
  | inr e ↦
      let plain : (b == escape_char) ≡ false = ground arith in
      rw (e, plain) (ap (λ r. b ∷ r) (copy_unescaped-escaped bs))
]

-- The properties of a node come out of a file as they were before the escapes went in; a node without
-- properties has no stream.
pub get_props-escaped :
    (bs : List ℕ) → get_props (escaped bs) ≡ (if length bs == 0 then none else some bs)
unfolding get_props
get_props-escaped [] = unfold escaped in refl
get_props-escaped (b ∷ bs) =
    let some_left : (length (escaped (b ∷ bs)) == 0) ≡ false = unfold escaped in ground arith in
    let some_given : (length (b ∷ bs) == 0) ≡ false = ground arith in
    rw (some_left, some_given) (ap some (copy_unescaped-escaped (b ∷ bs)))
