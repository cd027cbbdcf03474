-- ===== src/FileLoader/Examples.antt =====
-- The theorems on the properties of a node of src/fileloader.h at concrete ones.
use otservbr_global.Common.{◌≡◌, some, List, [], ◌∷◌, ◌++◌, map, arith}
use otservbr_global.FileLoader.Stream.{
  Entry, number, text, kind, stored, write_all, read_all, read_all-write_all,
}

abbrev entries : List Entry
entries = number 4 70000 ∷ text (72 ∷ 105 ∷ []) ∷ number 1 255 ∷ []

read_all-write_all_example :
    read_all (map kind entries) (write_all entries [] ++ (9 ∷ []))
    ≡ (map (λ e. some (stored e)) entries, 9 ∷ [])
read_all-write_all_example =
    read_all-write_all entries (9 ∷ []) (omega arith, (tt, (omega arith, tt)))
