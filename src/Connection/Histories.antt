-- ===== src/Connection/Histories.antt =====
-- What happens to a connection of src/connection.cpp, in any order.
use otservbr_global.Common.{
  ℕ, ◌+◌, ◌-◌, ◌*◌, ◌/◌, ◌%◌, ◌≡◌, refl, sym, ap, inl, Bool, true, false, not, ◌&&◌, ◌||◌, Option,
  none, some, List, [], ◌∷◌, ◌++◌, arith, ltb, leb, ◌==◌, if◌then◌else◌, if_elim, max,
}
use otservbr_global.Common.Words.{u32_mod, add32, sub64}
use otservbr_global.NetworkMessage.{networkmessage_maxsize}
use otservbr_global.Connection.{
  ConnectionState, disconnected, connecting_stage1, connecting_stage2, game, pending, Connection,
  Settings, Reading, char_at, header, body, is_disconnected, is_stage2, is_game, new_connection,
  close, async_read, promoted, accept, accept_with, read_size, greet, parse_header, Reply, sends,
  closes, reply, handle, parse_packet, on_write_operation, handle_timeout,
}
use otservbr_global.Connection.Writing.{
  outbox, IsOrderly, same-IsOrderly, close-IsOrderly, replies-IsOrderly,
  on_write_operation-IsOrderly, send-IsOrderly,
}

-- A read or a write that ends, a call of the protocol, or a timer that runs out.
pub data Event : Type 0 where
  header_read : Bool → Bool → ℕ → ℕ → ℕ → Event
  body_read : Bool → Bool → Option Bool → List Reply → Event
  written_out : Bool → Bool → Event
  called : Reply → Event
  timed_out : Bool → Event

-- The bytes of a header come to the front of the buffer.
abbrev pub fill : ℕ → ℕ → ℕ → Connection → Connection
fill n b b' c =
    if n == 1
    then record c { first_byte = b; reading = none }
    else record c { first_byte = b; second_byte = b'; reading = none }

-- A handler runs only for an operation in flight.
unfoldable pub happen : Settings → Event → Connection → Connection
happen s (header_read throws error now b b') c = elim (c.reading) [
  | none ↦ c
  | some (header n) ↦ parse_header s throws error now (fill n b b' c)
  | some (body n) ↦ c
]
happen s (body_read throws error made rs) c = elim (c.reading) [
  | none ↦ c
  | some (header n) ↦ c
  | some (body n) ↦ parse_packet throws error made rs (record c { reading = none })
]
happen s (written_out throws error) c = elim (c.writing) [
  | none ↦ c
  | some m ↦ on_write_operation throws error c
]
happen s (called r) c = reply r c
happen s (timed_out aborted) c = handle_timeout aborted c

unfoldable pub history : Settings → List Event → Connection → Connection
history s [] c = c
history s (e ∷ es) c = history s es (happen s e c)

-- A connection that a port has accepted; a port for one protocol makes it at once.
abbrev pub accepted : Bool → Option Bool → ℕ → Connection
accepted throws none now = accept throws (new_connection now)
accepted throws (some of_game) now = accept_with throws of_game (new_connection now)

async_read-IsOrderly :
    (throws : Bool) (r : Reading) (c : Connection) → IsOrderly c → IsOrderly (async_read throws r c)
async_read-IsOrderly throws r c h =
    if_elim IsOrderly throws (λ _. close-IsOrderly true c h) (λ _. h)

promoted-open : (s : ConnectionState) → is_disconnected (promoted s) ≡ is_disconnected s
promoted-open disconnected = refl
promoted-open connecting_stage1 = refl
promoted-open connecting_stage2 = refl
promoted-open game = refl
promoted-open pending = refl

accept-IsOrderly : (throws : Bool) (c : Connection) → IsOrderly c → IsOrderly (accept throws c)
unfolding accept
accept-IsOrderly throws c h =
    async_read-IsOrderly throws _ (record c { state = promoted c.state })
      (same-IsOrderly c (record c { state = promoted c.state })
        (ap (λ b. record (outbox c) { is_closed = b }) (promoted-open c.state)) h)

stage2_open : (s : ConnectionState) → is_stage2 s ≡ true → is_disconnected s ≡ false
stage2_open disconnected e = absurd (cc e)
stage2_open connecting_stage1 e = absurd (cc e)
stage2_open connecting_stage2 e = refl
stage2_open game e = absurd (cc e)
stage2_open pending e = absurd (cc e)

read_size-IsOrderly :
    (throws : Bool) (now passed : ℕ) (c : Connection)
    → IsOrderly c
    → IsOrderly (read_size throws now passed c)
unfolding read_size
read_size-IsOrderly throws now passed c h =
    let c' = if c.received_last_char && is_stage2 c.state then record c { state = game } else c in
    let c'' = if ltb 2 passed then record c' { time_connected = now; packets_sent = 0 } else c' in
    let h' : IsOrderly c' =
      if_elim IsOrderly (c.received_last_char && is_stage2 c.state)
        (λ e.
          same-IsOrderly c (record c { state = game })
            (ap (λ b. record (outbox c) { is_closed = b })
              (sym (stage2_open c.state (ground (arith, e)))))
            h)
        (λ _. h) in
    let h'' : IsOrderly c'' = if_elim IsOrderly (ltb 2 passed) (λ _. h') (λ _. h') in
    let size = c.first_byte + 256 * c.second_byte in
    if_elim IsOrderly ((size == 0) || leb (networkmessage_maxsize - 16) size)
      (λ _. close-IsOrderly true c'' h'') (λ _. async_read-IsOrderly throws (body size) c'' h'')

greet-IsOrderly :
    (name : List ℕ) (throws : Bool) (go_on : Connection → Connection) (c : Connection)
    → ((d : Connection) → IsOrderly d → IsOrderly (go_on d))
    → IsOrderly c
    → IsOrderly (greet name throws go_on c)
unfolding greet
greet-IsOrderly name throws go_on c g h =
    let line = name ++ (10 ∷ []) in
    let time = add32 c.server_name_time 1 in
    let c' = record c { server_name_time = time } in
    let last = record c' { received_last_char = true } in
    let named = record c { received_name = true; server_name_time = 1 } in
    let next = if c.first_byte == 10 then last else c' in
    let h' : IsOrderly next =
      if_elim IsOrderly (c.first_byte == 10) {x = last} {y = c'} (λ _. h) (λ _. h) in
    if_elim IsOrderly (not c.received_name && (c.second_byte == 0))
      (λ _. g (record c { received_last_char = true }) h)
      (λ _.
        if_elim IsOrderly (not c.received_name)
          (λ _.
            if_elim IsOrderly
              ((c.first_byte == char_at line 0) && (c.second_byte == char_at line 1))
              (λ _. accept-IsOrderly throws named h) (λ _. close-IsOrderly true c h))
          (λ _.
            if_elim IsOrderly (c.first_byte == char_at line time)
              (λ _. accept-IsOrderly throws next h') (λ _. close-IsOrderly true c' h)))

parse_header-IsOrderly :
    (s : Settings) (throws error : Bool) (now : ℕ) (c : Connection)
    → IsOrderly c
    → IsOrderly (parse_header s throws error now c)
unfolding parse_header
parse_header-IsOrderly s throws error now c h =
    let time_passed = max 1 ((sub64 now c.time_connected + 1) % u32_mod) in
    let c' = record c { packets_sent = add32 c.packets_sent 1 } in
    if_elim IsOrderly error (λ _. close-IsOrderly true c h)
      (λ _.
        if_elim IsOrderly (is_disconnected c.state) (λ _. h)
          (λ _.
            if_elim IsOrderly
              (ltb s.max_packets_per_second (c'.packets_sent / time_passed) && is_game c.protocol)
              (λ _. close-IsOrderly false c' h)
              (λ _.
                if_elim IsOrderly (not c.received_last_char && is_stage2 c.state)
                  (λ _.
                    greet-IsOrderly s.server_name throws (read_size throws now time_passed) c'
                      (read_size-IsOrderly throws now time_passed) h)
                  (λ _. read_size-IsOrderly throws now time_passed c' h))))

handle-IsOrderly :
    (throws : Bool) (rs : List Reply) (c : Connection)
    → IsOrderly c
    → IsOrderly (handle throws rs c)
unfolding handle
handle-IsOrderly throws rs c h =
    async_read-IsOrderly throws (header 2) _
      (replies-IsOrderly rs (record c { handled = c.handled + 1 }) h)

parse_packet-IsOrderly :
    (throws error : Bool) (made : Option Bool) (rs : List Reply) (c : Connection)
    → IsOrderly c
    → IsOrderly (parse_packet throws error made rs c)
unfolding parse_packet
parse_packet-IsOrderly throws error made rs c h =
    if_elim IsOrderly error (λ _. close-IsOrderly true c h)
      (λ _.
        if_elim IsOrderly (is_disconnected c.state) (λ _. h)
          (λ _.
            if_elim IsOrderly c.received_first (λ _. handle-IsOrderly throws rs c h)
              (λ _. first_one c.protocol made)))
  where
    first : Connection
    first = record c { received_first = true }

    first_one :
        (o made' : Option Bool)
        → IsOrderly (elim o [
          | some p ↦ handle throws rs first
          | none ↦ elim made' [
            | none ↦ close true first
            | some p ↦ handle throws rs (record first { protocol = some p })
          ]
        ])
    first_one (some p) made' = handle-IsOrderly throws rs first h
    first_one none none = close-IsOrderly true first h
    first_one none (some p) = handle-IsOrderly throws rs (record first { protocol = some p }) h

happen-IsOrderly :
    (s : Settings) (e : Event) (c : Connection) → IsOrderly c → IsOrderly (happen s e c)
unfolding happen reply
happen-IsOrderly s (header_read throws error now b b') c h = ended c.reading
  where
    filled : (n : ℕ) → IsOrderly (fill n b b' c)
    filled n =
        if_elim IsOrderly (n == 1) {x = record c { first_byte = b; reading = none }} (λ _. h)
          (λ _. h)

    ended :
        (o : Option Reading)
        → IsOrderly (elim o [
          | none ↦ c
          | some (header n) ↦ parse_header s throws error now (fill n b b' c)
          | some (body n) ↦ c
        ])
    ended none = h
    ended (some (header n)) = parse_header-IsOrderly s throws error now (fill n b b' c) (filled n)
    ended (some (body n)) = h
happen-IsOrderly s (body_read throws error made rs) c h = ended c.reading
  where
    ended :
        (o : Option Reading)
        → IsOrderly (elim o [
          | none ↦ c
          | some (header n) ↦ c
          | some (body n) ↦ parse_packet throws error made rs (record c { reading = none })
        ])
    ended none = h
    ended (some (header n)) = h
    ended (some (body n)) =
        parse_packet-IsOrderly throws error made rs (record c { reading = none }) h
happen-IsOrderly s (written_out throws error) c h = ended c.writing refl
  where
    ended :
        (o : Option ℕ)
        → c.writing ≡ o
        → IsOrderly (elim o [ none ↦ c | some m ↦ on_write_operation throws error c ])
    ended none e = h
    ended (some m) e = on_write_operation-IsOrderly throws error m c e h
happen-IsOrderly s (called (sends throws m)) c h = send-IsOrderly throws m c h
happen-IsOrderly s (called (closes force)) c h = close-IsOrderly force c h
happen-IsOrderly s (timed_out aborted) c h =
    if_elim IsOrderly aborted (λ _. h) (λ _. close-IsOrderly true c h)

new_connection-IsOrderly : (now : ℕ) → IsOrderly (new_connection now)
new_connection-IsOrderly now = record {
  lost = [];
  in_order = refl;
  one_write = λ m e. absurd (cc e);
  idle = λ _. inl refl;
  closing = λ e _. absurd (cc e);
  losing = inl refl;
  opened = λ _. refl;
}

accepted-IsOrderly :
    (throws : Bool) (made : Option Bool) (now : ℕ) → IsOrderly (accepted throws made now)
unfolding accept_with
accepted-IsOrderly throws none now =
    accept-IsOrderly throws (new_connection now) (new_connection-IsOrderly now)
accepted-IsOrderly throws (some of_game) now =
    accept-IsOrderly throws
      (record (new_connection now) { protocol = some of_game; state = connecting_stage2 })
      (new_connection-IsOrderly now)

history_from-IsOrderly :
    (s : Settings) (es : List Event) (c : Connection) → IsOrderly c → IsOrderly (history s es c)
unfolding history
history_from-IsOrderly s [] c h = h
history_from-IsOrderly s (e ∷ es) c h =
    history_from-IsOrderly s es (happen s e c) (happen-IsOrderly s e c h)

-- Whatever reads, writes, calls and timeouts come in whatever order, errors included, the messages that
-- were asked for are those that were written, those that wait behind the one that is being written and
-- those that are lost, in this order; a write in flight writes the front of the queue, and there is one
-- while the queue has a message, unless the connection is closed with its socket; only then messages
-- are lost; a closed connection without a write in flight has closed its socket; and one that is not
-- closed has its socket open.
pub history-IsOrderly :
    (s : Settings) (es : List Event) (throws : Bool) (made : Option Bool) (now : ℕ)
    → IsOrderly (history s es (accepted throws made now))
history-IsOrderly s es throws made now =
    history_from-IsOrderly s es (accepted throws made now) (accepted-IsOrderly throws made now)
