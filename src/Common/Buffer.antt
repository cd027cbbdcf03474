-- ===== src/Common/Buffer.antt =====
-- A block of memory as a function from offsets to bytes, and little-endian numbers in it.
use otservbr_global.Common.{
  ℕ, zero, suc, ◌+◌, ◌-◌, ◌*◌, ◌/◌, ◌%◌, ◌^◌, ◌≤◌, ◌<◌, ◌≡◌, refl, ap, ap₂, ◌&&◌, List, [], ◌∷◌,
  ◌++◌, arith, ltb, leb, if◌then◌else◌, length, get_or, length-append, append_assoc,
}
use native.Mathlib.Nat.{pow-suc, suc-add, zero-add, add-zero}

abbrev pub Buffer : Type 0
Buffer = ℕ → ℕ

-- `memcpy(buffer + at, bytes, n)`
unfoldable pub write : Buffer → ℕ → List ℕ → Buffer
write buf at bs i = if leb at i && ltb i (at + length bs) then get_or bs (i - at) 0 else buf i

-- The bytes from an offset on.
unfoldable pub read : Buffer → ℕ → ℕ → List ℕ
read buf at zero = []
read buf at (suc n) = buf at ∷ read buf (at + 1) n

-- The bytes of a number, lowest first, and the number of such bytes.
unfoldable pub le_bytes : ℕ → ℕ → List ℕ
le_bytes zero v = []
le_bytes (suc n) v = v % 256 ∷ le_bytes n (v / 256)

unfoldable pub le_value : List ℕ → ℕ
le_value [] = 0
le_value (b ∷ bs) = b + 256 * le_value bs

pub length-read : (buf : Buffer) (at n : ℕ) → length (read buf at n) ≡ n
unfolding read
length-read buf at zero = refl
length-read buf at (suc n) = ap suc (length-read buf (at + 1) n)

pub length-le_bytes : (n v : ℕ) → length (le_bytes n v) ≡ n
unfolding le_bytes
length-le_bytes zero v = refl
length-le_bytes (suc n) v = ap suc (length-le_bytes n (v / 256))

pub le_value-le_bytes : (n v : ℕ) → v < 256 ^ n → le_value (le_bytes n v) ≡ v
unfolding le_value le_bytes
le_value-le_bytes zero v h = omega arith
le_value-le_bytes (suc n) v h =
    omega (arith, le_value-le_bytes n (v / 256) (omega (arith, pow-suc 256 n)))

pub read-add :
    (buf : Buffer) (at m n : ℕ) → read buf at (m + n) ≡ read buf at m ++ read buf (at + m) n
unfolding read
read-add buf at zero n = rw (zero-add n, add-zero at)
read-add buf at (suc m) n =
    let next : at + 1 + m ≡ at + suc m = omega arith in
    rw (suc-add m n, read-add buf (at + 1) m n, next)

get_or-middle :
    (before bs : List ℕ) (b i : ℕ) → i ≡ length before → get_or (before ++ b ∷ bs) i 0 ≡ b
get_or-middle [] bs b i h = rw h
get_or-middle (a ∷ before) bs b zero h = absurd (omega arith)
get_or-middle (a ∷ before) bs b (suc i) h = get_or-middle before bs b i (omega arith)

write-middle :
    (buf : Buffer) (start at b : ℕ) (before bs : List ℕ)
    → start + length before ≡ at
    → write buf start (before ++ b ∷ bs) at ≡ b
unfolding write
write-middle buf start at b before bs h =
    ground (arith, length-append before (b ∷ bs), get_or-middle before bs b (at - start))

-- What is written is read back, and everything else stays.
read-write_from :
    (buf : Buffer) (start at : ℕ) (before bs : List ℕ)
    → start + length before ≡ at
    → read (write buf start (before ++ bs)) at (length bs) ≡ bs
unfolding read write
read-write_from buf start at before [] h = refl
read-write_from buf start at before (b ∷ bs) h =
    ap₂ (λ c cs. c ∷ cs) (write-middle buf start at b before bs h)
      (rw (append_assoc before (b ∷ []) bs) at (
        read-write_from buf start (at + 1) (before ++ b ∷ []) bs
          (omega (arith, length-append before (b ∷ [])))))

pub read-write_self :
    (buf : Buffer) (at : ℕ) (bs : List ℕ) → read (write buf at bs) at (length bs) ≡ bs
read-write_self buf at bs = read-write_from buf at at [] bs (omega arith)

pub write-eq_before : (buf : Buffer) (at i : ℕ) (bs : List ℕ) → i < at → write buf at bs i ≡ buf i
unfolding write
write-eq_before buf at i bs h = ground arith

pub write-eq_after :
    (buf : Buffer) (at i : ℕ) (bs : List ℕ) → at + length bs ≤ i → write buf at bs i ≡ buf i
unfolding write
write-eq_after buf at i bs h = ground arith

-- Two buffers that agree on a range read the same there.
pub read-congr :
    (buf buf' : Buffer) (at n : ℕ)
    → ((i : ℕ) → at ≤ i → i < at + n → buf i ≡ buf' i)
    → read buf at n ≡ read buf' at n
unfolding read
read-congr buf buf' at zero h = refl
read-congr buf buf' at (suc n) h =
    ap₂ (λ b bs. b ∷ bs) (h at (omega arith) (omega arith))
      (read-congr buf buf' (at + 1) n (λ i lo hi. h i (omega arith) (omega arith)))

pub read-write_before :
    (buf : Buffer) (at a n : ℕ) (bs : List ℕ)
    → a + n ≤ at
    → read (write buf at bs) a n ≡ read buf a n
read-write_before buf at a n bs h =
    read-congr (write buf at bs) buf a n (λ i lo hi. write-eq_before buf at i bs (omega arith))

pub read-write_after :
    (buf : Buffer) (at a n : ℕ) (bs : List ℕ)
    → at + length bs ≤ a
    → read (write buf at bs) a n ≡ read buf a n
read-write_after buf at a n bs h =
    read-congr (write buf at bs) buf a n (λ i lo hi. write-eq_after buf at i bs (omega arith))
