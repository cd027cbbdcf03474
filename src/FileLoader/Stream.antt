-- ===== src/FileLoader/Stream.antt =====
-- What `PropWriteStream` of src/fileloader.h writes, `PropStream` reads.
use otservbr_global.Common.{
  ℕ, ◌^◌, ◌<◌, ◌≡◌, refl, sym, ap, ◌∙◌, inl, inr, false, Option, none, some, List, [], ◌∷◌, ◌++◌,
  map, arith, ltb, if◌then◌else◌, Bool-cases, length, take, drop, All, length-append, append-nil,
  append_assoc, take-append, drop-append,
}
use otservbr_global.Common.Buffer.{le_bytes, length-le_bytes, le_value-le_bytes}
use otservbr_global.FileLoader.{read, read_characters, read_string, write, write_string}

-- An entry of a stream, and what a reader has to know of it.
pub data Entry : Type 0 where
  number : ℕ → ℕ → Entry
  text : List ℕ → Entry

pub data Kind : Type 0 where
  a_number : ℕ → Kind
  a_text : Kind

abbrev pub kind : Entry → Kind
kind (number size value) = a_number size
kind (text t) = a_text

-- The numbers fit their types. A text may have any length.
abbrev pub IsEntry : Entry → Type 0
IsEntry (number size value) = value < 256 ^ size
IsEntry (text t) = Unit {0}

pub write_entry : Entry → List ℕ → List ℕ
write_entry (number size value) buffer = write size value buffer
write_entry (text t) buffer = write_string t buffer

unfoldable pub write_all : List Entry → List ℕ → List ℕ
write_all [] buffer = buffer
write_all (e ∷ es) buffer = write_all es (write_entry e buffer)

some_number : ℕ → Option ℕ × List ℕ → Option Entry × List ℕ
some_number size (none, s) = (none, s)
some_number size (some v, s) = (some (number size v), s)

some_text : Option (List ℕ) × List ℕ → Option Entry × List ℕ
some_text (none, s) = (none, s)
some_text (some t, s) = (some (text t), s)

pub read_entry : Kind → List ℕ → Option Entry × List ℕ
unfolding some_number some_text
read_entry (a_number size) stream = some_number size (read size stream)
read_entry a_text stream = some_text (read_string stream)

-- All entries, up to the first that cannot be read.
unfoldable pub read_all : List Kind → List ℕ → List (Option Entry) × List ℕ
read_all [] stream = ([], stream)
read_all (k ∷ ks) stream =
    let (e, stream') = read_entry k stream in
    let (es, stream'') = read_all ks stream' in (e ∷ es, stream'')

-- A text that is too long for its length field is written as the empty text.
abbrev pub stored : Entry → Entry
stored (number size value) = number size value
stored (text t) = text (if ltb 65535 (length t) then [] else t)

-- The bytes of an entry.
abbrev bytes : Entry → List ℕ
bytes (number size value) = le_bytes size value
bytes (text t) = if ltb 65535 (length t) then le_bytes 2 0 else le_bytes 2 (length t) ++ t

write_entry-bytes : (e : Entry) (buffer : List ℕ) → write_entry e buffer ≡ buffer ++ bytes e
unfolding write_entry write write_string
write_entry-bytes (number size value) buffer = refl
write_entry-bytes (text t) buffer = elim (Bool-cases (ltb 65535 (length t))) [
  | inl e ↦ rw e refl
  | inr e ↦ rw e (append_assoc buffer (le_bytes 2 (length t)) t)
]

read-le_bytes :
    (size value : ℕ) (rest : List ℕ)
    → value < 256 ^ size
    → read size (le_bytes size value ++ rest) ≡ (some value, rest)
unfolding read
read-le_bytes size value rest small =
    let len = length-le_bytes size value in
    let enough : ltb (length (le_bytes size value ++ rest)) size ≡ false =
      ground (arith, len, length-append (le_bytes size value) rest) in
    let front : take size (le_bytes size value ++ rest) ≡ le_bytes size value =
      ap (λ n. take n (le_bytes size value ++ rest)) (sym len)
      ∙ take-append (le_bytes size value) rest in
    let back : drop size (le_bytes size value ++ rest) ≡ rest =
      ap (λ n. drop n (le_bytes size value ++ rest)) (sym len)
      ∙ drop-append (le_bytes size value) rest in
    rw (enough, front, back, le_value-le_bytes size value small) refl

read_characters-append :
    (t rest : List ℕ) → read_characters (some (length t), t ++ rest) ≡ (some t, rest)
unfolding read_characters
read_characters-append t rest =
    let enough : ltb (length (t ++ rest)) (length t) ≡ false =
      ground (arith, length-append t rest) in
    rw (enough, take-append t rest, drop-append t rest) refl

read_entry-bytes :
    (e : Entry) (rest : List ℕ)
    → IsEntry e
    → read_entry (kind e) (bytes e ++ rest) ≡ (some (stored e), rest)
unfolding read_entry read_string some_number some_text
read_entry-bytes (number size value) rest ok =
    ap (some_number size) (read-le_bytes size value rest ok)
read_entry-bytes (text t) rest ok = elim (Bool-cases (ltb 65535 (length t))) [
  | inl e ↦ rw e (
      ap (λ r. some_text (read_characters r)) (read-le_bytes 2 0 rest (omega arith))
      ∙ ap some_text (read_characters-append [] rest))
  | inr e ↦
      let small : length t < 256 ^ 2 = ground arith in
      rw (e, append_assoc (le_bytes 2 (length t)) t rest)
        (ap (λ r. some_text (read_characters r)) (read-le_bytes 2 (length t) (t ++ rest) small)
          ∙ ap some_text (read_characters-append t rest))
]

bytes_all : List Entry → List ℕ
bytes_all [] = []
bytes_all (e ∷ es) = bytes e ++ bytes_all es

write_all-bytes_all :
    (es : List Entry) (buffer : List ℕ) → write_all es buffer ≡ buffer ++ bytes_all es
unfolding write_all bytes_all
write_all-bytes_all [] buffer = sym (append-nil buffer)
write_all-bytes_all (e ∷ es) buffer =
    write_all-bytes_all es (write_entry e buffer)
    ∙ (ap (λ b. b ++ bytes_all es) (write_entry-bytes e buffer)
        ∙ append_assoc buffer (bytes e) (bytes_all es))

read_all-bytes_all :
    (es : List Entry) (rest : List ℕ)
    → All IsEntry es
    → read_all (map kind es) (bytes_all es ++ rest) ≡ (map (λ e. some (stored e)) es, rest)
unfolding read_all bytes_all
read_all-bytes_all [] rest ok = refl
read_all-bytes_all (e ∷ es) rest ok =
    rw
      (
        append_assoc (bytes e) (bytes_all es) rest,
        read_entry-bytes e (bytes_all es ++ rest) ok.0,
        read_all-bytes_all es rest ok.1,
      )
      refl

-- A new stream that any entries were written to is read back entry by entry, and what stands behind
-- it is left: the same numbers and texts, but the empty text for one of over 65535 bytes.
pub read_all-write_all :
    (es : List Entry) (rest : List ℕ)
    → All IsEntry es
    → read_all (map kind es) (write_all es [] ++ rest) ≡ (map (λ e. some (stored e)) es, rest)
read_all-write_all es rest ok = rw (write_all-bytes_all es []) (read_all-bytes_all es rest ok)
