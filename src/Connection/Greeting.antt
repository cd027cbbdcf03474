-- ===== src/Connection/Greeting.antt =====
-- The login of the server name in src/connection.cpp: a client of the game sends the name of the server
-- and a line feed before its first packet.
use otservbr_global.Common.{
  ℕ, ◌+◌, ◌-◌, ◌≤◌, ◌<◌, ◌≡◌, refl, sym, ap, ◌∙◌, ◌≢◌, inl, inr, true, false, ◌&&◌, some, List, [],
  ◌∷◌, ◌++◌, arith, ◌==◌, if◌then◌else◌, Bool-cases, length, All, length-append,
}
use mathlib.Core.Path.{subst}
use otservbr_global.Common.Words.{u32_mod}
use otservbr_global.Connection.{
  Connection, Settings, disconnected, connecting_stage2, new_connection, close, accept, accept_with,
  char_at, greet, parse_header,
}
use otservbr_global.Connection.Histories.{header_read, happen, accepted}
use otservbr_global.Connection.Bytes.{
  refused, compare_line, feed, Tells, naming, not_too_fast, name-IsLine, feed_stops, Continues,
  feed_lem,
}

-- A connection for the game gets two bytes, and then one by one.
unfoldable pub greeting : Settings → ℕ → ℕ → ℕ → List ℕ → Connection × List ℕ
greeting s now b b' bs =
    feed s now bs (happen s (header_read false false now b b') (accepted false (some true) now))

char_at-tail : (l i : ℕ) (ls : List ℕ) → char_at (l ∷ ls) (i + 1) ≡ char_at ls i
unfolding char_at
char_at-tail l i ls =
    let later : (i + 1 == 0) ≡ false = ground arith in
    let back : i + 1 - 1 ≡ i = omega arith in rw (later, back) refl

-- The connection once the first two bytes have come.
abbrev first_read : ℕ → ℕ → ℕ → Connection
first_read now b b' = record (new_connection now) {
  state = connecting_stage2;
  protocol = some true;
  first_byte = b;
  second_byte = b';
  packets_sent = 1;
}

abbrev settings : List ℕ → ℕ → Settings
settings name k = record { server_name = name; max_packets_per_second = k }

first_step :
    (now b b' n n' k : ℕ) (name : List ℕ)
    → 0 < k
    → k < u32_mod
    → b' ≢ 0
    → happen
        (settings (n ∷ n' ∷ name) k)
        (header_read false false now b b')
        (accepted false (some true) now)
      ≡ (if (b == n) && (b' == n')
          then naming 1 (first_read now b b')
          else close true (first_read now b b'))
unfolding happen accept_with accept parse_header greet char_at
first_step now b b' n n' k name pos word shown =
    let fast = not_too_fast (settings (n ∷ n' ∷ name) k) now 0 (new_connection now) pos word in
    let second : (b' == 0) ≡ false = ground (arith, shown) in rw (fast, second) refl

name-Continues : (n n' : ℕ) (name : List ℕ) → Continues (n ∷ n' ∷ name) 1 name
name-Continues n n' name i =
    let index : 1 + 1 + i ≡ i + 1 + 1 = omega arith in
    ap (char_at (n ∷ n' ∷ name)) index ∙ char_at-tail n (i + 1) (n' ∷ name) ∙ char_at-tail n' i name

named_on :
    (now b b' n n' k : ℕ) (name bs : List ℕ)
    → All (λ x. x ≢ 10) name
    → 2 + length name ≤ k
    → k < u32_mod
    → Tells
        (compare_line (name ++ (10 ∷ [])) bs)
        (feed (settings (n ∷ n' ∷ name) k) now bs (naming 1 (first_read now b b')))
named_on now b b' n n' k [] bs h le word =
    feed_lem (settings (n ∷ n' ∷ []) k) now 1 bs 10 [] (first_read now b b') refl
      (name-Continues n n' (10 ∷ [])) le word
named_on now b b' n n' k (x ∷ xs) bs h le word =
    feed_lem (settings (n ∷ n' ∷ x ∷ xs) k) now 1 bs x (xs ++ (10 ∷ [])) (first_read now b b')
      (name-IsLine (x ∷ xs) h) (name-Continues n n' (x ∷ xs ++ (10 ∷ [])))
      (omega (arith, le, length-append xs (10 ∷ []))) word

-- The client of a connection for the game sends the name of the server, with more than one byte and no
-- line feed in it, where the limit of packets allows as many reads; the second byte that comes is not 0.
-- The connection goes on to packets, with what came behind the line feed, exactly if the stream begins
-- with the name and a line feed; it is closed, and has handed nothing to the protocol, if the stream
-- differs from that; and it waits for a byte if there are too few.
pub greeting-Tells :
    (now b b' n n' k : ℕ) (name bs : List ℕ)
    → All (λ x. x ≢ 10) (n ∷ n' ∷ name)
    → 2 + length name ≤ k
    → k < u32_mod
    → b' ≢ 0
    → Tells
        (compare_line (n ∷ n' ∷ name ++ (10 ∷ [])) (b ∷ b' ∷ bs))
        (greeting (settings (n ∷ n' ∷ name) k) now b b' bs)
unfolding greeting compare_line close
greeting-Tells now b b' n n' k name bs clean le word shown =
    let s = settings (n ∷ n' ∷ name) k in
    let first = first_read now b b' in
    subst (λ d. Tells (compare_line (n ∷ n' ∷ name ++ (10 ∷ [])) (b ∷ b' ∷ bs)) (feed s now bs d))
      (sym (first_step now b b' n n' k name (omega (arith, le)) word shown))
      (elim (Bool-cases (b == n)) [
        | inr e ↦ rw e (stopped (close true first) refl)
        | inl e ↦ elim (Bool-cases (b' == n')) [
          | inr e' ↦ rw (e, e') (stopped (close true first) refl)
          | inl e' ↦ rw (e, e') (named_on now b b' n n' k name bs clean.1.1 le word)
        ]
      ])
  where
    stopped :
        (d : Connection)
        → d ≡ record (first_read now b b') { state = disconnected; socket_open = false }
        → Tells refused (feed (settings (n ∷ n' ∷ name) k) now bs d)
    stopped d e =
        let closed = record (first_read now b b') { state = disconnected; socket_open = false } in
        subst (λ x. Tells refused (feed (settings (n ∷ n' ∷ name) k) now bs x)) (sym e)
          (subst (Tells refused) (sym (feed_stops (settings (n ∷ n' ∷ name) k) now bs closed refl))
            (refl, refl, refl))
