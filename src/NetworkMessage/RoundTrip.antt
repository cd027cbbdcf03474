-- ===== src/NetworkMessage/RoundTrip.antt =====
-- The readers of src/networkmessage.cpp return what the writers added.
use otservbr_global.Common.{
  ℕ, ◌+◌, ◌%◌, ◌^◌, ◌≤◌, ◌<◌, ◌≡◌, refl, sym, ap, ap₂, ◌∙◌, true, List, [], ◌∷◌, ◌++◌, map, arith,
  length, All, length-append,
}
use otservbr_global.Common.Words.{u16_mod}
use otservbr_global.Common.Buffer.{
  Buffer, read, le_bytes, read-add, length-le_bytes, le_value-le_bytes, length-read,
}
use otservbr_global.NetworkMessage.{
  Message, Position, fresh, max_body_length, networkmessage_maxsize, can_read, add_byte, add,
  add_string, add_position, advance, get_byte, get, get_string, get_position, get_text,
}
use mathlib.Core.Path.{subst}
use otservbr_global.NetworkMessage.Extends.{
  Extends, HasRoom, Extends-then, add_byte-Extends, add-Extends, add_string-Extends,
  add_position-Extends,
}

-- One entry of a packet, as the protocol classes write it.
pub data Field : Type 0 where
  byte : ℕ → Field
  number : ℕ → ℕ → Field
  text : List ℕ → Field
  place : Position → Field

-- What a reader has to know of an entry.
pub data Kind : Type 0 where
  a_byte a_text a_place : Kind
  a_number : ℕ → Kind

abbrev pub kind : Field → Kind
kind (byte v) = a_byte
kind (number n v) = a_number n
kind (text t) = a_text
kind (place p) = a_place

-- The values that the types of the entries admit; a text over 8192 bytes is not sent.
abbrev pub IsField : Field → Type 0
IsField (byte v) = v < 256
IsField (number n v) = v < 256 ^ n
IsField (text t) = length t ≤ 8192
IsField (place p) = (p.x < 65536) × (p.y < 65536) × (p.z < 256)

abbrev pub encode : Field → List ℕ
encode (byte v) = v % 256 ∷ []
encode (number n v) = le_bytes n v
encode (text t) = le_bytes 2 (length t) ++ t
encode (place p) = (le_bytes 2 p.x ++ le_bytes 2 p.y) ++ (p.z % 256 ∷ [])

abbrev pub encode_all : List Field → List ℕ
encode_all [] = []
encode_all (f ∷ fs) = encode f ++ encode_all fs

abbrev pub add_field : Field → Message → Message
add_field (byte v) m = add_byte v m
add_field (number n v) m = add n v m
add_field (text t) m = add_string t m
add_field (place p) m = add_position p m

abbrev pub add_fields : List Field → Message → Message
add_fields [] m = m
add_fields (f ∷ fs) m = add_fields fs (add_field f m)

abbrev get_field : Kind → Message → Field × Message
get_field a_byte m = let (v, m') = get_byte m in (byte v, m')
get_field (a_number n) m = let (v, m') = get n m in (number n v, m')
get_field a_text m = let (t, m') = get_string 0 m in (text t, m')
get_field a_place m = let (p, m') = get_position m in (place p, m')

abbrev pub get_fields : List Kind → Message → List Field
get_fields [] m = []
get_fields (k ∷ ks) m = let (f, m') = get_field k m in f ∷ get_fields ks m'

add_field-Extends :
    (f : Field) (m : Message)
    → IsField f
    → HasRoom m (length (encode f))
    → Extends m (add_field f m) (encode f)
add_field-Extends (byte v) m v< h = add_byte-Extends v m h
add_field-Extends (number n v) m v< h = add-Extends n v m (rw (length-le_bytes n v) at h)
add_field-Extends (text t) m short h = add_string-Extends t m short (record {
  room =
      omega (arith, h.room, length-append (le_bytes 2 (length t)) t, length-le_bytes 2 (length t));
  counted = h.counted;
})
add_field-Extends (place p) m ok h = add_position-Extends p m (record {
  room = omega (
    arith,
    h.room,
    length-append (le_bytes 2 p.x ++ le_bytes 2 p.y) (p.z % 256 ∷ []),
    length-append (le_bytes 2 p.x) (le_bytes 2 p.y),
    length-le_bytes 2 p.x,
    length-le_bytes 2 p.y,
  );
  counted = h.counted;
})

pub add_fields-Extends :
    (fs : List Field) (m : Message)
    → All IsField fs
    → HasRoom m (length (encode_all fs))
    → Extends m (add_fields fs m) (encode_all fs)
add_fields-Extends [] m ok h = record {
  position_is = omega arith;
  length_is = omega arith;
  reads = unfold read in refl;
  keeps = λ i lt. refl;
  beyond = λ i le. refl;
  overrun_is = refl;
}
add_fields-Extends (f ∷ fs) m ok h =
    let all = rw (length-append (encode f) (encode_all fs)) at h in
    Extends-then m (add_field f m) _ (encode f) (encode_all fs) (length (encode_all fs)) all
      (add_field-Extends f m ok.0 (record {
        room = omega (arith, h.room, length-append (encode f) (encode_all fs));
        counted = h.counted;
      }))
      (λ r. add_fields-Extends fs (add_field f m) ok.1 r)

-- The bytes at the position, in reach of the readers.
pub record Holds (m : Message) (bytes : List ℕ) : Type 0 where
  pub reads : read m.buffer m.position (length bytes) ≡ bytes
  pub fits : m.position + length bytes ≤ m.length + 8
  pub inside : m.position + length bytes < networkmessage_maxsize

pub append-inj :
    (xs ys us vs : List ℕ) → length xs ≡ length us → xs ++ ys ≡ us ++ vs → (xs ≡ us) × (ys ≡ vs)
append-inj [] ys [] vs l e = (refl, e)
append-inj [] ys (u ∷ us) vs l e = absurd (omega arith)
append-inj (x ∷ xs) ys [] vs l e = absurd (omega arith)
append-inj (x ∷ xs) ys (u ∷ us) vs l e =
    let rest = append-inj xs ys us vs (omega arith) (ground (arith, e)) in
    (ap₂ (λ z zs. z ∷ zs) (ground (arith, e)) rest.0, rest.1)

split_reads :
    (m : Message) (bs cs : List ℕ)
    → Holds m (bs ++ cs)
    → (read m.buffer m.position (length bs) ≡ bs)
      × (read m.buffer (m.position + length bs) (length cs) ≡ cs)
split_reads m bs cs h = append-inj _ _ bs cs (length-read m.buffer m.position (length bs)) (
    sym (read-add m.buffer m.position (length bs) (length cs))
    ∙ rw (length-append bs cs) at h.reads)

Holds-first : (m : Message) (bs cs : List ℕ) → Holds m (bs ++ cs) → Holds m bs
Holds-first m bs cs h = record {
  reads = (split_reads m bs cs h).0;
  fits = omega (arith, h.fits, length-append bs cs);
  inside = omega (arith, h.inside, length-append bs cs);
}

Holds-rest : (m : Message) (bs cs : List ℕ) → Holds m (bs ++ cs) → Holds (advance (length bs) m) cs
unfolding advance
Holds-rest m bs cs h =
    let at : (m.position + length bs) % u16_mod ≡ m.position + length bs =
      omega (arith, h.inside, length-append bs cs) in
    record {
      reads = rw at (split_reads m bs cs h).1;
      fits = omega (arith, h.fits, length-append bs cs);
      inside = omega (arith, h.inside, length-append bs cs);
    }

Holds-can_read : (m : Message) (bs : List ℕ) → Holds m bs → can_read m (length bs) ≡ true
unfolding can_read
Holds-can_read m bs h = ground arith

get-Holds :
    (n v : ℕ) (m : Message) → v < 256 ^ n → Holds m (le_bytes n v) → get n m ≡ (v, advance n m)
unfolding get
get-Holds n v m lt h =
    let can = rw (length-le_bytes n v) at (Holds-can_read m (le_bytes n v) h) in
    let bytes = rw (length-le_bytes n v) at h.reads in rw (can, bytes, le_value-le_bytes n v lt)

get_byte-Holds :
    (v : ℕ) (m : Message) → v < 256 → Holds m (v % 256 ∷ []) → get_byte m ≡ (v, advance 1 m)
unfolding get_byte read
get_byte-Holds v m lt h =
    let b : m.buffer m.position ≡ v = ground (arith, h.reads) in
    rw (Holds-can_read m (v % 256 ∷ []) h, b)

get_text-Holds :
    (t : List ℕ) (m : Message) → Holds m t → get_text (length t) m ≡ (t, advance (length t) m)
unfolding get_text
get_text-Holds t m h = rw (Holds-can_read m t h, h.reads)

advance-advance : (a b : ℕ) (m : Message) → advance b (advance a m) ≡ advance (a + b) m
unfolding advance
advance-advance a b m = ap (λ p. record m { position = p }) (omega arith)

get_string-Holds :
    (t : List ℕ) (m : Message)
    → length t ≤ 8192
    → Holds m (le_bytes 2 (length t) ++ t)
    → get_string 0 m ≡ (t, advance (2 + length t) m)
unfolding get_string
get_string-Holds t m short h =
    let two = length-le_bytes 2 (length t) in
    rw (get-Holds 2 (length t) m (omega arith) (Holds-first m (le_bytes 2 (length t)) t h)) (
      get_text-Holds t (advance 2 m)
        (subst (λ n. Holds (advance n m) t) two (Holds-rest m (le_bytes 2 (length t)) t h))
      ∙ ap (λ m'. (t, m')) (advance-advance 2 (length t) m))

get_position-Holds :
    (p : Position) (m : Message)
    → IsField (place p)
    → Holds m (encode (place p))
    → get_position m ≡ (p, advance 5 m)
unfolding get_position
get_position-Holds p m (hx, hy, hz) h =
    let xs = le_bytes 2 p.x in
    let ys = le_bytes 2 p.y in
    let zs = p.z % 256 ∷ [] in
    let xy = Holds-first m (xs ++ ys) zs h in
    let y_at =
      subst (λ n. Holds (advance n m) ys) (length-le_bytes 2 p.x) (Holds-rest m xs ys xy) in
    let four : length (xs ++ ys) ≡ 4 =
      omega (arith, length-append xs ys, length-le_bytes 2 p.x, length-le_bytes 2 p.y) in
    let z_at = subst (λ n. Holds (advance n m) zs) four (Holds-rest m (xs ++ ys) zs h) in
    rw (
      get-Holds 2 p.x m hx (Holds-first m xs ys xy),
      get-Holds 2 p.y (advance 2 m) hy y_at,
      advance-advance 2 2 m,
      get_byte-Holds p.z (advance 4 m) hz z_at,
      advance-advance 4 1 m,
    )

get_field-Holds :
    (f : Field) (m : Message)
    → IsField f
    → Holds m (encode f)
    → get_field (kind f) m ≡ (f, advance (length (encode f)) m)
get_field-Holds (byte v) m lt h = rw (get_byte-Holds v m lt h)
get_field-Holds (number n v) m lt h = rw (get-Holds n v m lt h, length-le_bytes n v)
get_field-Holds (text t) m short h = rw (get_string-Holds t m short h) (
    ap (λ n. (text t, advance n m))
      (omega (arith, length-append (le_bytes 2 (length t)) t, length-le_bytes 2 (length t))))
get_field-Holds (place p) m ok h = rw (get_position-Holds p m ok h) (
    ap (λ n. (place p, advance n m))
      (omega (
        arith,
        length-append (le_bytes 2 p.x ++ le_bytes 2 p.y) (p.z % 256 ∷ []),
        length-append (le_bytes 2 p.x) (le_bytes 2 p.y),
        length-le_bytes 2 p.x,
        length-le_bytes 2 p.y,
      )))

-- Readers that know the kinds of the entries get the entries back.
get_fields-Holds :
    (fs : List Field) (m : Message)
    → All IsField fs
    → Holds m (encode_all fs)
    → get_fields (map kind fs) m ≡ fs
get_fields-Holds [] m ok h = refl
get_fields-Holds (f ∷ fs) m ok h =
    rw (get_field-Holds f m ok.0 (Holds-first m (encode f) (encode_all fs) h)) (
      ap (λ r. f ∷ r)
        (get_fields-Holds fs (advance (length (encode f)) m) ok.1
          (Holds-rest m (encode f) (encode_all fs) h)))

-- A message of any entries that fit its body is read back entry by entry from its start.
pub get_fields-add_fields :
    (fs : List Field) (buf : Buffer)
    → All IsField fs
    → 8 + length (encode_all fs) < max_body_length
    → get_fields (map kind fs) (record (add_fields fs (fresh buf)) { position = 8 }) ≡ fs
get_fields-add_fields fs buf ok fits =
    let e = add_fields-Extends fs (fresh buf) ok (record { room = fits; counted = omega arith }) in
    get_fields-Holds fs _ ok
      (record { reads = e.reads; fits = omega (arith, e.length_is); inside = omega arith })
