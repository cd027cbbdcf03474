-- ===== src/NetworkMessage/Extends.antt =====
-- What the writers of src/networkmessage.cpp add to a message.
use otservbr_global.Common.{
  ℕ, ◌+◌, ◌%◌, ◌≤◌, ◌<◌, ◌≡◌, refl, ◌∙◌, true, false, List, [], ◌∷◌, ◌++◌, arith, ltb, length,
  length-append,
}
use otservbr_global.Common.Words.{u16_mod}
use otservbr_global.Common.Buffer.{
  read, le_bytes, read-add, read-congr, read-write_self, length-le_bytes, write-eq_before,
  write-eq_after,
}
use otservbr_global.NetworkMessage.{
  Message, Position, max_body_length, can_add, put_bytes, add_byte, add, add_bytes, add_string,
  add_position,
}

-- `m'` is `m` with some bytes added at its position; what stands before them stays.
pub record Extends (m m' : Message) (bytes : List ℕ) : Type 0 where
  pub position_is : m'.position ≡ m.position + length bytes
  pub length_is : m'.length ≡ m.length + length bytes
  pub reads : read m'.buffer m.position (length bytes) ≡ bytes
  pub keeps : (i : ℕ) → i < m.position → m'.buffer i ≡ m.buffer i
  pub beyond : (i : ℕ) → m.position + length bytes ≤ i → m'.buffer i ≡ m.buffer i
  pub overrun_is : m'.overrun ≡ m.overrun

-- There is room for so many bytes.
pub record HasRoom (m : Message) (n : ℕ) : Type 0 where
  pub room : m.position + n < max_body_length
  pub counted : m.length ≤ m.position

put_bytes-Extends :
    (m : Message) (bytes : List ℕ) → HasRoom m (length bytes) → Extends m (put_bytes m bytes) bytes
unfolding put_bytes
put_bytes-Extends m bytes h = record {
  position_is = omega arith;
  length_is = omega arith;
  reads = read-write_self m.buffer m.position bytes;
  keeps = λ i lt. write-eq_before m.buffer m.position i bytes lt;
  beyond = λ i le. write-eq_after m.buffer m.position i bytes le;
  overrun_is = refl;
}

pub Extends-trans :
    (m m' m'' : Message) (bs cs : List ℕ)
    → Extends m m' bs
    → Extends m' m'' cs
    → Extends m m'' (bs ++ cs)
Extends-trans m m' m'' bs cs e f = record {
  position_is = omega (arith, e.position_is, f.position_is, length-append bs cs);
  length_is = omega (arith, e.length_is, f.length_is, length-append bs cs);
  reads = reads_both;
  keeps = λ i lt. f.keeps i (omega (arith, e.position_is)) ∙ e.keeps i lt;
  beyond = λ i le.
      f.beyond i (omega (arith, e.position_is, length-append bs cs))
      ∙ e.beyond i (omega (arith, length-append bs cs));
  overrun_is = f.overrun_is ∙ e.overrun_is;
}
  where
    early : read m''.buffer m.position (length bs) ≡ bs
    early =
        read-congr m''.buffer m'.buffer m.position (length bs)
          (λ i lo hi. f.keeps i (omega (arith, e.position_is)))
        ∙ e.reads

    late : read m''.buffer (m.position + length bs) (length cs) ≡ cs
    late = rw (← e.position_is) f.reads

    reads_both : read m''.buffer m.position (length (bs ++ cs)) ≡ bs ++ cs
    reads_both =
        rw
          (length-append bs cs, read-add m''.buffer m.position (length bs) (length cs), early, late)

HasRoom-can_add : (m : Message) (n : ℕ) → HasRoom m n → can_add m n ≡ true
unfolding can_add
HasRoom-can_add m n h = ground arith

pub HasRoom-rest :
    (m m' : Message) (bs : List ℕ) (n : ℕ)
    → HasRoom m (length bs + n)
    → Extends m m' bs
    → HasRoom m' n
HasRoom-rest m m' bs n h e = record {
  room = omega (arith, h.room, e.position_is);
  counted = omega (arith, h.counted, e.position_is, e.length_is);
}

-- One writer after another.
pub Extends-then :
    (m m' m'' : Message) (bs cs : List ℕ) (n : ℕ)
    → HasRoom m (length bs + n)
    → Extends m m' bs
    → (HasRoom m' n → Extends m' m'' cs)
    → Extends m m'' (bs ++ cs)
Extends-then m m' m'' bs cs n h e next =
    Extends-trans m m' m'' bs cs e (next (HasRoom-rest m m' bs n h e))

pub add_byte-Extends : (v : ℕ) (m : Message) → HasRoom m 1 → Extends m (add_byte v m) (v % 256 ∷ [])
unfolding add_byte
add_byte-Extends v m h = rw (HasRoom-can_add m 1 h) (put_bytes-Extends m (v % 256 ∷ []) h)

pub add-Extends : (n v : ℕ) (m : Message) → HasRoom m n → Extends m (add n v m) (le_bytes n v)
unfolding add
add-Extends n v m h =
    rw (HasRoom-can_add m n h) (put_bytes-Extends m (le_bytes n v) (rw (length-le_bytes n v) h))

pub add_bytes-Extends :
    (bs : List ℕ) (m : Message)
    → length bs ≤ 8192
    → HasRoom m (length bs)
    → Extends m (add_bytes bs m) bs
unfolding add_bytes
add_bytes-Extends bs m le h =
    let short : ltb 8192 (length bs) ≡ false = ground arith in
    rw (HasRoom-can_add m (length bs) h, short) (put_bytes-Extends m bs h)

pub add_string-Extends :
    (text : List ℕ) (m : Message)
    → length text ≤ 8192
    → HasRoom m (length text + 2)
    → Extends m (add_string text m) (le_bytes 2 (length text) ++ text)
unfolding add_string
add_string-Extends text m le h =
    let short : ltb 8192 (length text) ≡ false = ground arith in
    let same : length text % u16_mod ≡ length text = omega arith in
    let two = add-Extends 2 (length text) m (record { room = omega arith; counted = h.counted }) in
    let rest =
      HasRoom-rest m (add 2 (length text) m) (le_bytes 2 (length text)) (length text)
        (record { room = omega (arith, length-le_bytes 2 (length text)); counted = h.counted })
        two in
    rw (HasRoom-can_add m (length text + 2) h, short, same)
      (Extends-trans m _ _ (le_bytes 2 (length text)) text two (put_bytes-Extends _ text rest))

pub add_position-Extends :
    (p : Position) (m : Message)
    → HasRoom m 5
    → Extends m (add_position p m) ((le_bytes 2 p.x ++ le_bytes 2 p.y) ++ (p.z % 256 ∷ []))
unfolding add_position
add_position-Extends p m h =
    Extends-then m (add 2 p.y (add 2 p.x m)) _ (le_bytes 2 p.x ++ le_bytes 2 p.y) (p.z % 256 ∷ []) 1
      (roomy (le_bytes 2 p.x ++ le_bytes 2 p.y) 1 (
        omega (
          arith,
          length-append (le_bytes 2 p.x) (le_bytes 2 p.y),
          length-le_bytes 2 p.x,
          length-le_bytes 2 p.y,
        )))
      (Extends-then m (add 2 p.x m) _ (le_bytes 2 p.x) (le_bytes 2 p.y) 2
        (roomy (le_bytes 2 p.x) 2 (omega (arith, length-le_bytes 2 p.x)))
        (add-Extends 2 p.x m (record { room = omega arith; counted = h.counted }))
        (λ r. add-Extends 2 p.y (add 2 p.x m) r))
      (λ r. add_byte-Extends p.z (add 2 p.y (add 2 p.x m)) r)
  where
    roomy : (bs : List ℕ) (n : ℕ) → length bs + n ≤ 5 → HasRoom m (length bs + n)
    roomy bs n le = record { room = omega (arith, h.room); counted = h.counted }
