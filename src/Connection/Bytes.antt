-- ===== src/Connection/Bytes.antt =====
-- The bytes of the server name, one by one, in the login of src/connection.cpp.
use otservbr_global.Common.{
  ℕ, ◌+◌, ◌-◌, ◌/◌, ◌%◌, ◌≤◌, ◌<◌, ◌≡◌, refl, sym, ap, ◌∙◌, ◌≢◌, ◌⊎◌, inl, inr, Bool, true, false,
  ◌&&◌, Option, none, some, List, [], ◌∷◌, ◌++◌, arith, ltb, ◌==◌, if◌then◌else◌, if_elim, length,
  All, max,
}
use mathlib.Core.Path.{subst}
use native.Mathlib.Nat.{div-le_self}
use otservbr_global.Common.Words.{u32_mod, add32, sub64}
use otservbr_global.Connection.{
  Connection, Settings, disconnected, connecting_stage2, Reading, header, body, is_disconnected,
  is_stage2, close, accept, char_at, greet, parse_header,
}
use otservbr_global.Connection.Histories.{header_read, happen}

-- What a line and a stream of bytes have in common: all of the line, with the rest of the stream, all of
-- the stream, or neither.
pub data Verdict : Type 0 where
  whole_line : List ℕ → Verdict
  waiting refused : Verdict

unfoldable pub compare_line : List ℕ → List ℕ → Verdict
compare_line [] bs = whole_line bs
compare_line (l ∷ ls) [] = waiting
compare_line (l ∷ ls) (b ∷ bs) = let rest = compare_line ls bs in if b == l then rest else refused

abbrev pub wants_byte : Option Reading → Bool
wants_byte none = false
wants_byte (some (header n)) = n == 1
wants_byte (some (body n)) = false

-- The socket delivers bytes as long as single ones are read. The result has the bytes that are left.
unfoldable pub feed : Settings → ℕ → List ℕ → Connection → Connection × List ℕ
feed s now [] c = (c, [])
feed s now (b ∷ bs) c =
    let rest = feed s now bs (happen s (header_read false false now b 0) c) in
    if wants_byte c.reading then rest else (c, b ∷ bs)

-- The state of a connection that a verdict comes to: the next read is that of a packet's header; or one
-- more byte is waited for; or the connection is closed.
abbrev pub Tells : Verdict → Connection × List ℕ → Type 0
Tells (whole_line bs) out =
    (out.0.received_last_char ≡ true)
    × (is_stage2 out.0.state ≡ true)
    × (out.0.reading ≡ some (header 2))
    × (out.1 ≡ bs)
Tells waiting out =
    (out.0.received_last_char ≡ false)
    × (is_stage2 out.0.state ≡ true)
    × (out.0.reading ≡ some (header 1))
    × (out.1 ≡ [])
Tells refused out =
    (is_disconnected out.0.state ≡ true) × (out.0.socket_open ≡ false) × (out.0.handled ≡ 0)

-- The name of the server has been read up to an index.
abbrev pub naming : ℕ → Connection → Connection
naming t c = record c {
  state = connecting_stage2;
  received_name = true;
  received_last_char = false;
  server_name_time = t;
  packets_sent = t;
  reading = some (header 1);
  protocol = some true;
  message_queue = [];
  handled = 0;
}

pub not_too_fast :
    (s : Settings) (now t : ℕ) (c : Connection)
    → t < s.max_packets_per_second
    → s.max_packets_per_second < u32_mod
    → ltb s.max_packets_per_second (add32 t 1 / max 1 ((sub64 now c.time_connected + 1) % u32_mod))
        && true
      ≡ false
not_too_fast s now t c lt word =
    let few = div-le_self (add32 t 1) (max 1 ((sub64 now c.time_connected + 1) % u32_mod)) in
    ground (arith, lt, word, few)

-- The state after one more byte.
abbrev named : ℕ → ℕ → Connection → Connection
named b t c = record (naming t c) {
  reading = none;
  first_byte = b;
  server_name_time = add32 t 1;
  packets_sent = add32 t 1;
}

-- The byte that is read is that of the line, or the connection is closed.
byte_lem :
    (s : Settings) (now t b : ℕ) (c : Connection)
    → t < s.max_packets_per_second
    → s.max_packets_per_second < u32_mod
    → happen s (header_read false false now b 0) (naming t c) ≡ (
        if b == char_at (s.server_name ++ (10 ∷ [])) (add32 t 1)
        then accept false
            (if b == 10 then record (named b t c) { received_last_char = true } else named b t c)
        else close true (named b t c))
unfolding happen parse_header greet
byte_lem s now t b c lt word = rw (not_too_fast s now t c lt word) refl

-- What the byte at an index makes of the connection.
abbrev Steps : ℕ → ℕ → ℕ → Connection → Connection → Type 0
Steps b l t c d =
    ((b ≡ l)
      × (l ≡ 10)
      × (d ≡ record (named b t c) { received_last_char = true; reading = some (header 2) }))
    ⊎ ((b ≡ l) × (l ≢ 10) × (d ≡ naming (add32 t 1) (record c { first_byte = b })))
    ⊎ ((b ≢ l) × (d ≡ record (named b t c) { state = disconnected; socket_open = false }))

byte-Steps :
    (b l t : ℕ) (c : Connection)
    → Steps b l t c (
        if b == l
        then accept false
            (if b == 10 then record (named b t c) { received_last_char = true } else named b t c)
        else close true (named b t c))
unfolding accept close
byte-Steps b l t c =
    if_elim (Steps b l t c) (b == l)
      (λ e.
        if_elim (λ d. Steps b l t c (accept false d)) (b == 10)
          (λ e'. inl (ground (arith, e), ground (arith, e, e'), refl))
          (λ e'. inr (inl (ground (arith, e), ground (arith, e, e'), refl))))
      (λ e. inr (inr (ground (arith, e), refl)))

-- A line feed stands at the end alone.
abbrev pub IsLine : List ℕ → Type 0
IsLine [] = ⊥
IsLine (l ∷ []) = l ≡ 10
IsLine (l ∷ l' ∷ ls) = (l ≢ 10) × IsLine (l' ∷ ls)

pub name-IsLine : (name : List ℕ) → All (λ b. b ≢ 10) name → IsLine (name ++ (10 ∷ []))
name-IsLine [] h = refl
name-IsLine (b ∷ []) h = (h.0, refl)
name-IsLine (b ∷ b' ∷ bs) h = (h.0, name-IsLine (b' ∷ bs) h.1)

pub feed_stops :
    (s : Settings) (now : ℕ) (bs : List ℕ) (c : Connection)
    → wants_byte c.reading ≡ false
    → feed s now bs c ≡ (c, bs)
unfolding feed
feed_stops s now [] c e = refl
feed_stops s now (b ∷ bs) c e =
    if_elim (λ x. x ≡ (c, b ∷ bs)) (wants_byte c.reading) (λ e'. absurd (cc (e, e'))) (λ _. refl)

-- From an index on, the line is what is left to compare.
abbrev pub Continues : List ℕ → ℕ → List ℕ → Type 0
Continues line t ls = (i : ℕ) → char_at line (t + 1 + i) ≡ char_at ls i

byte_step :
    (s : Settings) (now t b l : ℕ) (ls : List ℕ) (c : Connection)
    → Continues (s.server_name ++ (10 ∷ [])) t (l ∷ ls)
    → t < s.max_packets_per_second
    → s.max_packets_per_second < u32_mod
    → Steps b l t c (happen s (header_read false false now b 0) (naming t c))
unfolding char_at
byte_step s now t b l ls c on lt word =
    let index : add32 t 1 ≡ t + 1 + 0 = omega (arith, lt, word) in
    let here : char_at (s.server_name ++ (10 ∷ [])) (add32 t 1) ≡ l =
      ap (char_at (s.server_name ++ (10 ∷ []))) index ∙ on 0 in
    let at_index = char_at (s.server_name ++ (10 ∷ [])) (add32 t 1) in
    subst (λ k. Steps b k t c (happen s (header_read false false now b 0) (naming t c))) here
      (subst (Steps b at_index t c) (sym (byte_lem s now t b c lt word))
        (byte-Steps b at_index t c))

continue_on :
    (line : List ℕ) (t l : ℕ) (ls : List ℕ)
    → t + 1 < u32_mod
    → Continues line t (l ∷ ls)
    → Continues line (add32 t 1) ls
unfolding char_at
continue_on line t l ls word on i =
    let index : add32 t 1 + 1 + i ≡ t + 1 + (i + 1) = omega (arith, word) in
    let later : (i + 1 == 0) ≡ false = ground arith in
    let back : i + 1 - 1 ≡ i = omega arith in
    ap (char_at line) index ∙ on (i + 1) ∙ rw (later, back) refl

-- A byte that differs ends it.
feed_refused :
    (s : Settings) (now t b : ℕ) (bs : List ℕ) (c d : Connection)
    → d ≡ record (named b t c) { state = disconnected; socket_open = false }
    → Tells refused (feed s now bs d)
feed_refused s now t b bs c d e =
    subst (λ x. Tells refused (feed s now bs x)) (sym e)
      (subst (Tells refused)
        (sym (
          feed_stops s now bs (record (named b t c) { state = disconnected; socket_open = false })
            refl))
        (refl, refl, refl))

pub feed_lem :
    (s : Settings) (now t : ℕ) (bs : List ℕ) (l : ℕ) (ls : List ℕ) (c : Connection)
    → IsLine (l ∷ ls)
    → Continues (s.server_name ++ (10 ∷ [])) t (l ∷ ls)
    → t + length (l ∷ ls) ≤ s.max_packets_per_second
    → s.max_packets_per_second < u32_mod
    → Tells (compare_line (l ∷ ls) bs) (feed s now bs (naming t c))
unfolding compare_line feed
feed_lem s now t [] l ls c line on le word = (refl, refl, refl, refl)
feed_lem s now t (b ∷ bs) l [] c line on le word =
    let done = record (named b t c) { received_last_char = true; reading = some (header 2) } in
    elim (byte_step s now t b l [] c on (omega (arith, le)) word) [
      | inl h ↦
          let e : (b == l) ≡ true = ground (arith, h.0) in
          rw e (
            subst (λ x. Tells (whole_line bs) (feed s now bs x)) (sym h.2)
              (subst (Tells (whole_line bs)) (sym (feed_stops s now bs done refl))
                (refl, refl, refl, refl)))
      | inr (inl h) ↦ absurd (h.1 line)
      | inr (inr h) ↦
          let e : (b == l) ≡ false = ground (arith, h.0) in rw e (feed_refused s now t b bs c _ h.1)
    ]
feed_lem s now t (b ∷ bs) l (l' ∷ ls) c line on le word =
    let here : add32 t 1 ≡ t + 1 = omega (arith, le, word) in
    elim (byte_step s now t b l (l' ∷ ls) c on (omega (arith, le)) word) [
      | inl h ↦ absurd (line.0 h.1)
      | inr (inl h) ↦
          let e : (b == l) ≡ true = ground (arith, h.0) in
          rw e (
            subst (λ x. Tells (compare_line (l' ∷ ls) bs) (feed s now bs x)) (sym h.2)
              (feed_lem s now (add32 t 1) bs l' ls (record c { first_byte = b }) line.1
                (continue_on (s.server_name ++ (10 ∷ [])) t l (l' ∷ ls) (omega (arith, le, word))
                  on)
                (omega (arith, le, here)) word))
      | inr (inr h) ↦
          let e : (b == l) ≡ false = ground (arith, h.0) in rw e (feed_refused s now t b bs c _ h.1)
    ]
