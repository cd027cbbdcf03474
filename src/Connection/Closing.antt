-- ===== src/Connection/Closing.antt =====
-- How a connection of src/connection.cpp closes.
use otservbr_global.Common.{
  ℕ, ◌≡◌, refl, sym, ap, ◌∙◌, inl, inr, Bool, true, false, ◌||◌, Option, none, some, List, [], ◌∷◌,
  ◌++◌, arith, ◌==◌, Option-cases, if_elim, append-nil, append_assoc,
}
use mathlib.Core.Path.{subst}
use otservbr_global.Connection.{
  Connection, Settings, is_disconnected, is_empty, disconnected, close_socket, close, internal_send,
  send, Reply, sends, closes, reply, Reading, header, body, parse_header, parse_packet, pop_front,
  write_next, on_write_operation,
}
use otservbr_global.Connection.Writing.{IsOrderly}
use otservbr_global.Connection.Histories.{
  Event, header_read, body_read, written_out, called, timed_out, fill, happen, history, accepted,
  history-IsOrderly,
}

-- The messages of a queue are written one by one, each write succeeds, and the socket stays open until
-- the last one has ended: before the end of each write it is open and the front of the queue is being
-- written, and after the last one it is closed, nothing waits, and `all` has been written.
abbrev pub ClosesAfter : List ℕ → List ℕ → Connection → Type 0
ClosesAfter all [] c = (c.socket_open ≡ false) × (c.message_queue ≡ []) × (c.written ≡ all)
ClosesAfter all (m ∷ ms) c =
    (c.socket_open ≡ true)
    × (c.writing ≡ some m)
    × (c.message_queue ≡ m ∷ ms)
    × ClosesAfter all ms (on_write_operation false false c)

last_write :
    (m : ℕ) (c : Connection)
    → is_disconnected c.state ≡ true
    → c.message_queue ≡ m ∷ []
    → on_write_operation false false c
      ≡ close_socket (record c { writing = none; message_queue = [] })
unfolding on_write_operation
last_write m c closed e =
    let done = record c { writing = none; message_queue = [] } in
    ap
      (λ q.
        write_next false (pop_front q) (record c { writing = none; message_queue = pop_front q }))
      e
    ∙ if_elim (λ x. x ≡ close_socket done) (is_disconnected c.state) (λ _. refl)
        (λ e'. absurd (cc (e', closed)))

abbrev next_written : ℕ → List ℕ → Connection → Connection
next_written m ms c = record c {
  message_queue = m ∷ ms;
  writing = some m;
  written = c.written ++ (m ∷ []);
}

next_write :
    (m m' : ℕ) (ms : List ℕ) (c : Connection)
    → c.message_queue ≡ m ∷ m' ∷ ms
    → on_write_operation false false c ≡ next_written m' ms c
unfolding on_write_operation internal_send
next_write m m' ms c e =
    ap
      (λ q.
        write_next false (pop_front q) (record c { writing = none; message_queue = pop_front q }))
      e

write_out :
    (m : ℕ) (ms : List ℕ) (c : Connection)
    → is_disconnected c.state ≡ true
    → c.socket_open ≡ true
    → c.writing ≡ some m
    → c.message_queue ≡ m ∷ ms
    → ClosesAfter (c.written ++ ms) (m ∷ ms) c
write_out m [] c closed open_ w e = (
  open_,
  w,
  e,
  subst (ClosesAfter (c.written ++ []) []) (sym (last_write m c closed e))
      (refl, refl, sym (append-nil c.written)),
)
write_out m (m' ∷ ms) c closed open_ w e = (
  open_,
  w,
  e,
  subst (ClosesAfter (c.written ++ (m' ∷ ms)) (m' ∷ ms)) (sym (next_write m m' ms c e)) (
      subst (λ l. ClosesAfter l (m' ∷ ms) (next_written m' ms c))
        (append_assoc c.written (m' ∷ []) ms)
        (write_out m' ms (next_written m' ms c) closed open_ refl refl)),
)

not_empty : (ms : List ℕ) → is_empty ms ≡ false → (m : ℕ) × ((rest : List ℕ) × (ms ≡ m ∷ rest))
not_empty [] e = absurd (cc e)
not_empty (m ∷ ms) e = (m, (ms, refl))

-- While messages wait, the front of the queue is being written.
front_writes :
    (m : ℕ) (ms : List ℕ) (c : Connection)
    → IsOrderly c
    → is_disconnected c.state ≡ false
    → c.message_queue ≡ m ∷ ms
    → c.writing ≡ some m
front_writes m ms c h open_ e = elim (Option-cases c.writing) [
  | inl free ↦ elim (h.idle free) [ inl q ↦ absurd (cc (q, e)) | inr b ↦ absurd (cc (b.0, open_)) ]
  | inr w ↦ w.1 ∙ ap some (cc (h.one_write w.0 w.1, e))
]

-- A connection that is closed without force while messages wait keeps its socket open until the last of
-- them is written: if the writes succeed, each message is written in turn while the socket is open, and
-- once every message that was asked for has been written, the socket closes.
pub close_lem :
    (s : Settings) (es : List Event) (throws : Bool) (made : Option Bool) (now : ℕ)
    → let c = history s es (accepted throws made now) in
      is_disconnected c.state ≡ false
      → is_empty c.message_queue ≡ false
      → ClosesAfter c.asked c.message_queue (close false c)
unfolding close
close_lem s es throws made now open_ full =
    let c = history s es (accepted throws made now) in
    let h = history-IsOrderly s es throws made now in
    let waits : is_empty c.message_queue || false ≡ false = ground (arith, full) in
    let shut = record c { state = disconnected } in
    let same : close false c ≡ shut =
      if_elim (λ x. x ≡ shut) (is_empty c.message_queue || false) (λ e. absurd (cc (e, waits)))
        (λ _. refl) in
    let intact : h.lost ≡ [] = elim h.losing [ inl l ↦ l | inr b ↦ absurd (cc (b.0, open_)) ] in
    let (m, (ms, front)) = not_empty c.message_queue full in
    let ordered =
      h.in_order
      ∙ ap (λ l. c.written ++ (pop_front c.message_queue ++ l)) intact
      ∙ ap (λ l. c.written ++ l) (append-nil (pop_front c.message_queue) ∙ ap pop_front front) in
    subst (ClosesAfter c.asked c.message_queue) (sym same) (
      subst (λ q. ClosesAfter c.asked q shut) (sym front)
        (subst (λ l. ClosesAfter l (m ∷ ms) shut) (sym ordered)
          (write_out m ms shut refl (h.opened open_) (front_writes m ms c h open_ front) front)))

-- A closed connection stays closed, and neither takes a message for the socket nor hands one to the
-- protocol.
abbrev IsSilent : Connection → Connection → Type 0
IsSilent c c' = (is_disconnected c'.state ≡ true) × (c'.handled ≡ c.handled) × (c'.asked ≡ c.asked)

close-IsSilent : (force : Bool) (c : Connection) → IsSilent c (close force c)
unfolding close
close-IsSilent force c =
    if_elim (IsSilent c) (is_empty c.message_queue || force) (λ _. (refl, refl, refl))
      (λ _. (refl, refl, refl))

reply-IsSilent :
    (r : Reply) (c : Connection) → is_disconnected c.state ≡ true → IsSilent c (reply r c)
unfolding reply send
reply-IsSilent (sends throws m) c h =
    if_elim (IsSilent c) (is_disconnected c.state) (λ _. (h, refl, refl)) (λ e. absurd (cc (e, h)))
reply-IsSilent (closes force) c h = close-IsSilent force c

written-IsSilent :
    (throws error : Bool) (c : Connection)
    → is_disconnected c.state ≡ true
    → IsSilent c (on_write_operation throws error c)
unfolding on_write_operation internal_send
written-IsSilent throws true c h =
    close-IsSilent true (record c { writing = none; message_queue = [] })
written-IsSilent throws false c h = next (pop_front c.message_queue)
  where
    next :
        (ms : List ℕ)
        → IsSilent c (write_next throws ms (record c { writing = none; message_queue = ms }))
    next [] =
        if_elim (IsSilent c) (is_disconnected c.state) (λ _. (h, refl, refl)) (λ _. (h, refl, refl))
    next (m ∷ ms) =
        if_elim (IsSilent c) throws
          (λ _.
            close-IsSilent true (record c {
              writing = none;
              message_queue = m ∷ ms;
              written = c.written ++ (m ∷ []);
            }))
          (λ _. (h, refl, refl))

header-IsSilent :
    (s : Settings) (throws error : Bool) (now : ℕ) (c : Connection)
    → is_disconnected c.state ≡ true
    → IsSilent c (parse_header s throws error now c)
unfolding parse_header
header-IsSilent s throws error now c h =
    if_elim (IsSilent c) error (λ _. close-IsSilent true c)
      (λ _.
        if_elim (IsSilent c) (is_disconnected c.state) (λ _. (h, refl, refl))
          (λ e. absurd (cc (e, h))))

happen-IsSilent :
    (s : Settings) (e : Event) (c : Connection)
    → is_disconnected c.state ≡ true
    → IsSilent c (happen s e c)
unfolding happen parse_packet
happen-IsSilent s (header_read throws error now b b') c h = ended c.reading
  where
    ended :
        (o : Option Reading)
        → IsSilent c (elim o [
          | none ↦ c
          | some (header n) ↦ parse_header s throws error now (fill n b b' c)
          | some (body n) ↦ c
        ])
    ended none = (h, refl, refl)
    ended (some (header n)) =
        if_elim (λ d. IsSilent c (parse_header s throws error now d)) (n == 1)
          (λ _. header-IsSilent s throws error now (record c { first_byte = b; reading = none }) h)
          (λ _.
            header-IsSilent s throws error now
              (record c { first_byte = b; second_byte = b'; reading = none }) h)
    ended (some (body n)) = (h, refl, refl)
happen-IsSilent s (body_read throws error made rs) c h = ended c.reading
  where
    ended :
        (o : Option Reading)
        → IsSilent c (elim o [
          | none ↦ c
          | some (header n) ↦ c
          | some (body n) ↦ parse_packet throws error made rs (record c { reading = none })
        ])
    ended none = (h, refl, refl)
    ended (some (header n)) = (h, refl, refl)
    ended (some (body n)) =
        if_elim (IsSilent c) error (λ _. close-IsSilent true (record c { reading = none }))
          (λ _.
            if_elim (IsSilent c) (is_disconnected c.state) (λ _. (h, refl, refl))
              (λ e. absurd (cc (e, h))))
happen-IsSilent s (written_out throws error) c h = ended c.writing
  where
    ended :
        (o : Option ℕ)
        → IsSilent c (elim o [ none ↦ c | some m ↦ on_write_operation throws error c ])
    ended none = (h, refl, refl)
    ended (some m) = written-IsSilent throws error c h
happen-IsSilent s (called r) c h = reply-IsSilent r c h
happen-IsSilent s (timed_out aborted) c h =
    if_elim (IsSilent c) aborted (λ _. (h, refl, refl)) (λ _. close-IsSilent true c)

-- A closed connection stays closed, whatever reads, writes, calls and timeouts come, and neither takes
-- a message for the socket nor hands one to the protocol.
pub history-IsSilent :
    (s : Settings) (es : List Event) (c : Connection)
    → is_disconnected c.state ≡ true
    → (is_disconnected (history s es c).state ≡ true)
      × ((history s es c).handled ≡ c.handled)
      × ((history s es c).asked ≡ c.asked)
unfolding history
history-IsSilent s [] c h = (h, refl, refl)
history-IsSilent s (e ∷ es) c h =
    let step = happen-IsSilent s e c h in
    let rest = history-IsSilent s es (happen s e c) step.0 in
    (rest.0, rest.1 ∙ step.1, rest.2 ∙ step.2)
