-- ===== src/NetworkMessage/Bounds.antt =====
-- No writer of src/networkmessage.cpp touches memory outside of the message's body, and no reader
-- passes the end of the message.
use otservbr_global.Common.{
  ℕ, zero, suc, ◌+◌, ◌%◌, ◌^◌, ◌≤◌, ◌<◌, ◌≡◌, refl, ap, ◌∙◌, inl, inr, true, false, not, ◌||◌, List,
  [], ◌∷◌, arith, ltb, ◌==◌, Bool-cases, length, max,
}
use otservbr_global.Common.Words.{u16_mod}
use otservbr_global.Common.Buffer.{le_bytes, length-le_bytes, write-eq_after}
use otservbr_global.NetworkMessage.{
  Message, Position, max_body_length, networkmessage_maxsize, can_add, can_read, put_bytes,
  add_byte, add, add_bytes, add_string, add_position, add_padding_bytes, replicate, advance,
  get_byte, get, get_text, get_string, get_position,
}

pub data Write : Type 0 where
  byte : ℕ → Write
  number : ℕ → ℕ → Write
  bytes : List ℕ → Write
  text : List ℕ → Write
  place : Position → Write
  padding : ℕ → Write

abbrev pub perform : Write → Message → Message
perform (byte v) = add_byte v
perform (number n v) = add n v
perform (bytes bs) = add_bytes bs
perform (text t) = add_string t
perform (place p) = add_position p
perform (padding n) = add_padding_bytes n

-- What the caller asks for fits a 64-bit size; a number has at most 8 bytes.
abbrev pub IsAsked : Write → Type 0
IsAsked (byte v) = Unit {0}
IsAsked (number n v) = n ≤ 8
IsAsked (bytes bs) = length bs < 2 ^ 63
IsAsked (text t) = length t < 2 ^ 63
IsAsked (place p) = Unit {0}
IsAsked (padding n) = n < 2 ^ 63

-- The position stays within the body, and no byte behind the body changes.
pub record StaysIn (m m' : Message) : Type 0 where
  pub position_in : m'.position ≤ max_body_length
  pub kept : (i : ℕ) → max_body_length ≤ i → m'.buffer i ≡ m.buffer i

StaysIn-refl : (m : Message) → m.position ≤ max_body_length → StaysIn m m
StaysIn-refl m h = record { position_in = h; kept = λ i le. refl }

StaysIn-trans : {m m' m'' : Message} → StaysIn m m' → StaysIn m' m'' → StaysIn m m''
StaysIn-trans a b = record { position_in = b.position_in; kept = λ i le. b.kept i le ∙ a.kept i le }

put_bytes-StaysIn :
    (m : Message) (bs : List ℕ)
    → m.position + length bs ≤ max_body_length
    → StaysIn m (put_bytes m bs)
unfolding put_bytes
put_bytes-StaysIn m bs h = record {
  position_in = omega arith;
  kept = λ i le. write-eq_after m.buffer m.position i bs (omega arith);
}

can_add-le :
    (m : Message) (n : ℕ)
    → m.position ≤ max_body_length
    → n < 2 ^ 63
    → can_add m n ≡ true
    → m.position + n ≤ max_body_length
unfolding can_add
can_add-le m n h lt can = ground arith

length-replicate : (n b : ℕ) → length (replicate n b) ≡ n
unfolding replicate
length-replicate zero b = refl
length-replicate (suc n) b = ap suc (length-replicate n b)

add_byte-StaysIn : (v : ℕ) (m : Message) → m.position ≤ max_body_length → StaysIn m (add_byte v m)
unfolding add_byte
add_byte-StaysIn v m h = elim (Bool-cases (can_add m 1)) [
  | inl e ↦ rw e (put_bytes-StaysIn m (v % 256 ∷ []) (can_add-le m 1 h (omega arith) e))
  | inr e ↦ rw e (StaysIn-refl m h)
]

add-StaysIn : (n v : ℕ) (m : Message) → n ≤ 8 → m.position ≤ max_body_length → StaysIn m (add n v m)
unfolding add
add-StaysIn n v m le h = elim (Bool-cases (can_add m n)) [
  | inl e ↦ rw e (
      put_bytes-StaysIn m (le_bytes n v)
        (rw (length-le_bytes n v) (can_add-le m n h (omega arith) e)))
  | inr e ↦ rw e (StaysIn-refl m h)
]

position-add : (n v : ℕ) (m : Message) → (add n v m).position ≤ m.position + n
unfolding add put_bytes
position-add n v m = ground (arith, length-le_bytes n v)

add_bytes-StaysIn :
    (bs : List ℕ) (m : Message)
    → length bs < 2 ^ 63
    → m.position ≤ max_body_length
    → StaysIn m (add_bytes bs m)
unfolding add_bytes
add_bytes-StaysIn bs m lt h =
    elim (Bool-cases (not (can_add m (length bs)) || ltb 8192 (length bs))) [
      | inl e ↦ rw e (StaysIn-refl m h)
      | inr e ↦ rw e (put_bytes-StaysIn m bs (can_add-le m (length bs) h lt (ground arith)))
    ]

add_string-StaysIn :
    (t : List ℕ) (m : Message)
    → length t < 2 ^ 63
    → m.position ≤ max_body_length
    → StaysIn m (add_string t m)
unfolding add_string
add_string-StaysIn t m lt h =
    elim (Bool-cases (not (can_add m (length t + 2)) || ltb 8192 (length t))) [
      | inl e ↦ rw e (StaysIn-refl m h)
      | inr e ↦ rw e (
          StaysIn-trans (add-StaysIn 2 (length t % u16_mod) m (omega arith) h) (
            put_bytes-StaysIn (add 2 (length t % u16_mod) m) t (
              omega (
                arith,
                position-add 2 (length t % u16_mod) m,
                can_add-le m (length t + 2) h (short e) (ground arith),
              ))))
    ]
  where
    short : not (can_add m (length t + 2)) || ltb 8192 (length t) ≡ false → length t + 2 < 2 ^ 63
    short e = ground arith

-- Whatever is written to a message, by any of its writers, its position stays within the body and no
-- byte behind the body changes.
pub perform-StaysIn :
    (w : Write) (m : Message) → IsAsked w → m.position ≤ max_body_length → StaysIn m (perform w m)
unfolding add_position add_padding_bytes
perform-StaysIn (byte v) m ok h = add_byte-StaysIn v m h
perform-StaysIn (number n v) m ok h = add-StaysIn n v m ok h
perform-StaysIn (bytes bs) m ok h = add_bytes-StaysIn bs m ok h
perform-StaysIn (text t) m ok h = add_string-StaysIn t m ok h
perform-StaysIn (place p) m ok h =
    let first = add-StaysIn 2 p.x m (omega arith) h in
    let second = add-StaysIn 2 p.y (add 2 p.x m) (omega arith) first.position_in in
    StaysIn-trans first
      (StaysIn-trans second (add_byte-StaysIn p.z (add 2 p.y (add 2 p.x m)) second.position_in))
perform-StaysIn (padding n) m ok h = elim (Bool-cases (can_add m n)) [
  | inl e ↦ rw e (record {
    position_in = h;
    kept = λ i le.
        write-eq_after m.buffer m.position i (replicate n 0x33)
          (omega (arith, can_add-le m n h ok e, length-replicate n 0x33));
  })
  | inr e ↦ rw e (StaysIn-refl m h)
]

pub data Read : Type 0 where
  a_byte : Read
  a_number : ℕ → Read
  a_text : ℕ → Read
  a_place : Read

abbrev pub after : Read → Message → Message
after a_byte m = (get_byte m).1
after (a_number n) m = (get n m).1
after (a_text n) m = (get_string n m).1
after a_place m = (get_position m).1

-- The position goes forward, at most to the end of the message; the message itself stays. A reader
-- that would pass the end leaves a mark.
pub record StaysBefore (m m' : Message) : Type 0 where
  pub forward : m.position ≤ m'.position
  pub before_end : m'.position ≤ max m.position (m.length + 8)
  pub in_memory : m'.position ≤ max m.position networkmessage_maxsize
  pub length_is : m'.length ≡ m.length
  pub buffer_is : m'.buffer ≡ m.buffer
  pub marked : m.overrun ≡ true → m'.overrun ≡ true

StaysBefore-trans : {m m' m'' : Message} → StaysBefore m m' → StaysBefore m' m'' → StaysBefore m m''
StaysBefore-trans a b = record {
  forward = omega (arith, a.forward, b.forward);
  before_end = omega (arith, a.before_end, b.before_end, a.length_is);
  in_memory = omega (arith, a.in_memory, b.in_memory);
  length_is = b.length_is ∙ a.length_is;
  buffer_is = b.buffer_is ∙ a.buffer_is;
  marked = λ e. b.marked (a.marked e);
}

advance-StaysBefore : (n : ℕ) (m : Message) → can_read m n ≡ true → StaysBefore m (advance n m)
unfolding can_read advance
advance-StaysBefore n m can = ground arith

overrun-StaysBefore : (m : Message) → StaysBefore m (record m { overrun = true })
overrun-StaysBefore m = record {
  forward = omega arith;
  before_end = omega arith;
  in_memory = omega arith;
  length_is = refl;
  buffer_is = refl;
  marked = λ e. refl;
}

get_byte-StaysBefore : (m : Message) → StaysBefore m (get_byte m).1
unfolding get_byte
get_byte-StaysBefore m = elim (Bool-cases (can_read m 1)) [
  | inl e ↦ rw e (advance-StaysBefore 1 m e)
  | inr e ↦ rw e (overrun-StaysBefore m)
]

get-StaysBefore : (n : ℕ) (m : Message) → StaysBefore m (get n m).1
unfolding get
get-StaysBefore n m = elim (Bool-cases (can_read m n)) [
  | inl e ↦ rw e (advance-StaysBefore n m e)
  | inr e ↦ rw e (overrun-StaysBefore m)
]

get_text-StaysBefore : (n : ℕ) (m : Message) → StaysBefore m (get_text n m).1
unfolding get_text
get_text-StaysBefore n m = elim (Bool-cases (can_read m n)) [
  | inl e ↦ rw e (advance-StaysBefore n m e)
  | inr e ↦ rw e (overrun-StaysBefore m)
]

get_string-StaysBefore : (n : ℕ) (m : Message) → StaysBefore m (get_string n m).1
unfolding get_string
get_string-StaysBefore n m = elim (Bool-cases (n == 0)) [
  | inl e ↦
      rw e (StaysBefore-trans (get-StaysBefore 2 m) (get_text-StaysBefore (get 2 m).0 (get 2 m).1))
  | inr e ↦ rw e (get_text-StaysBefore n m)
]

-- Every reader moves the position forward, never past the end of the message or of the memory
-- unless it stood there already, changes nothing else, and keeps the overrun mark once it is set.
pub after-StaysBefore : (r : Read) (m : Message) → StaysBefore m (after r m)
unfolding get_position
after-StaysBefore a_byte m = get_byte-StaysBefore m
after-StaysBefore (a_number n) m = get-StaysBefore n m
after-StaysBefore (a_text n) m = get_string-StaysBefore n m
after-StaysBefore a_place m =
    let m₁ = (get 2 m).1 in
    let m₂ = (get 2 m₁).1 in
    StaysBefore-trans (get-StaysBefore 2 m)
      (StaysBefore-trans (get-StaysBefore 2 m₁) (get_byte-StaysBefore m₂))
