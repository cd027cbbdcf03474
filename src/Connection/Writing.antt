-- ===== src/Connection/Writing.antt =====
-- The queue of messages of src/connection.cpp: what is written, in what order, and when the socket closes.
use otservbr_global.Common.{
  ℕ, ◌≡◌, refl, sym, ap, ◌∙◌, ◌⊎◌, inl, inr, Bool, true, false, ◌||◌, Option, none, some, List, [],
  ◌∷◌, ◌++◌, arith, Bool-cases, if_elim, Option-cases, append-nil, append_assoc,
}
use mathlib.Core.Path.{subst}
use otservbr_global.Connection.{
  disconnected, Connection, is_disconnected, is_empty, close, internal_send, send, Reply, sends,
  closes, reply, replies, pop_front, write_next, on_write_operation,
}

-- What the writing side of a connection has.
pub record Outbox : Type 0 where
  pub is_closed : Bool
  pub message_queue : List ℕ
  pub writing : Option ℕ
  pub socket_open : Bool
  pub asked : List ℕ
  pub written : List ℕ

abbrev pub outbox : Connection → Outbox
outbox c = record {
  is_closed = is_disconnected c.state;
  message_queue = c.message_queue;
  writing = c.writing;
  socket_open = c.socket_open;
  asked = c.asked;
  written = c.written;
}

-- The messages that were asked for are those that were written, those that wait behind the one that is
-- being written, and those that are lost, in this order. A write in flight writes the front of the
-- queue, and there is one while the queue has a message, unless the connection is broken: closed, with
-- its socket. Only a broken connection loses messages, and a closed one without a write is broken.
-- One that is not closed has its socket open.
pub record IsInOrder (o : Outbox) : Type 0 where
  pub lost : List ℕ
  pub in_order : o.asked ≡ o.written ++ (pop_front o.message_queue ++ lost)
  pub one_write : (m : ℕ) → o.writing ≡ some m → o.message_queue ≡ m ∷ pop_front o.message_queue
  pub idle :
      o.writing ≡ none → (o.message_queue ≡ []) ⊎ ((o.is_closed ≡ true) × (o.socket_open ≡ false))
  pub closing : o.is_closed ≡ true → o.writing ≡ none → o.socket_open ≡ false
  pub losing : (lost ≡ []) ⊎ ((o.is_closed ≡ true) × (o.socket_open ≡ false))
  pub opened : o.is_closed ≡ false → o.socket_open ≡ true

abbrev pub IsOrderly : Connection → Type 0
IsOrderly c = IsInOrder (outbox c)

pub same-IsOrderly : (c c' : Connection) → outbox c' ≡ outbox c → IsOrderly c → IsOrderly c'
same-IsOrderly c c' e h = subst IsInOrder (sym e) h

close-forced :
    (c : Connection) → close true c ≡ record c { state = disconnected; socket_open = false }
unfolding close
close-forced c = let b : is_empty c.message_queue || true ≡ true = ground arith in rw b refl

-- A broken connection writes no more.
broken :
    (c : Connection) (lost : List ℕ)
    → c.asked ≡ c.written ++ (pop_front c.message_queue ++ lost)
    → ((m : ℕ) → c.writing ≡ some m → c.message_queue ≡ m ∷ pop_front c.message_queue)
    → IsOrderly (close true c)
broken c lost order one = subst IsOrderly (sym (close-forced c)) (record {
  lost = lost;
  in_order = order;
  one_write = one;
  idle = λ e. inr (refl, refl);
  closing = λ e e'. refl;
  losing = inr (refl, refl);
  opened = λ e. absurd (cc e);
})

pub close-IsOrderly : (force : Bool) (c : Connection) → IsOrderly c → IsOrderly (close force c)
unfolding close
close-IsOrderly true c h = broken c h.lost h.in_order h.one_write
close-IsOrderly false c h = elim (Bool-cases (is_empty c.message_queue || false)) [
  | inl e ↦
      simp (close, e)
        (record {
          lost = h.lost;
          in_order = h.in_order;
          one_write = h.one_write;
          idle = λ free. inr (refl, refl);
          closing = λ _ free. refl;
          losing = inr (refl, refl);
          opened = λ e. absurd (cc e);
        })
  | inr e ↦
      simp (close, e)
        (record {
          lost = h.lost;
          in_order = h.in_order;
          one_write = h.one_write;
          idle = λ free. elim (h.idle free) [ inl q ↦ inl q | inr b ↦ inr (refl, b.1) ];
          closing = λ _ free. elim (h.idle free) [
            | inl q ↦ absurd (ground (arith, e, ap is_empty q))
            | inr b ↦ b.1
          ];
          losing = elim h.losing [ inl l ↦ inl l | inr b ↦ inr (refl, b.1) ];
          opened = λ d. absurd (cc d);
        })
]

sent_in_order :
    (m : ℕ) (ms lost : List ℕ) (c : Connection)
    → c.message_queue ≡ m ∷ ms
    → c.asked ≡ c.written ++ (m ∷ (ms ++ lost))
    → c.asked ≡ (c.written ++ (m ∷ [])) ++ (pop_front c.message_queue ++ lost)
sent_in_order m ms lost c front order =
    order
    ∙ sym (append_assoc c.written (m ∷ []) (ms ++ lost))
    ∙ ap (λ q. (c.written ++ (m ∷ [])) ++ (pop_front q ++ lost)) (sym front)

-- The front of the queue goes out.
internal_send-IsOrderly :
    (throws : Bool) (m : ℕ) (ms lost : List ℕ) (c : Connection)
    → c.message_queue ≡ m ∷ ms
    → c.writing ≡ none
    → c.asked ≡ c.written ++ (m ∷ (ms ++ lost))
    → (lost ≡ []) ⊎ ((is_disconnected c.state ≡ true) × (c.socket_open ≡ false))
    → (is_disconnected c.state ≡ false → c.socket_open ≡ true)
    → IsOrderly (internal_send throws m c)
unfolding internal_send close
internal_send-IsOrderly true m ms lost c front free order l opened =
    broken (record c { written = c.written ++ (m ∷ []) }) lost
      (sent_in_order m ms lost c front order) (λ m' e. absurd (cc (e, free)))
internal_send-IsOrderly false m ms lost c front free order l opened = record {
  lost = lost;
  in_order = sent_in_order m ms lost c front order;
  one_write = λ m' e. cc (e, front);
  idle = λ e. absurd (cc e);
  closing = λ e e'. absurd (cc e');
  losing = l;
  opened = opened;
}

is_empty_nil : (ms : List ℕ) → is_empty ms ≡ true → ms ≡ []
is_empty_nil [] e = refl
is_empty_nil (m ∷ ms) e = absurd (cc e)

pop_front-append :
    (m : ℕ) (ms : List ℕ)
    → is_empty ms ≡ false
    → pop_front (ms ++ (m ∷ [])) ≡ pop_front ms ++ (m ∷ [])
pop_front-append m [] e = absurd (cc e)
pop_front-append m (m' ∷ ms) e = refl

nothing_writes : (c : Connection) → IsOrderly c → c.message_queue ≡ [] → c.writing ≡ none
nothing_writes c h e = elim (Option-cases c.writing) [
  | inl free ↦ free
  | inr w ↦ absurd (cc (h.one_write w.0 w.1, e))
]

pub send-IsOrderly :
    (throws : Bool) (m : ℕ) (c : Connection) → IsOrderly c → IsOrderly (send throws m c)
unfolding send
send-IsOrderly throws m c h =
    let c' = record c {
      message_queue = c.message_queue ++ (m ∷ []);
      asked = c.asked ++ (m ∷ []);
    } in
    if_elim IsOrderly (is_disconnected c.state) (λ e. h)
      (λ e.
        let intact : h.lost ≡ [] = elim h.losing [ inl l ↦ l | inr b ↦ absurd (cc (e, b.0)) ] in
        let order : c.asked ≡ c.written ++ pop_front c.message_queue =
          h.in_order
          ∙ ap (λ l. c.written ++ (pop_front c.message_queue ++ l)) intact
          ∙ ap (λ l. c.written ++ l) (append-nil (pop_front c.message_queue)) in
        if_elim IsOrderly (is_empty c.message_queue)
          (λ q.
            let none_there = is_empty_nil c.message_queue q in
            let free = nothing_writes c h none_there in
            internal_send-IsOrderly throws m [] [] c' (ap (λ l. l ++ (m ∷ [])) none_there) free
              (ap (λ l. l ++ (m ∷ []))
                (order ∙ ap (λ l. c.written ++ pop_front l) none_there ∙ append-nil c.written))
              (inl refl) h.opened)
          (λ q. record {
            lost = [];
            in_order =
                (ap (λ l. l ++ (m ∷ [])) order
                  ∙ append_assoc c.written (pop_front c.message_queue) (m ∷ [])
                  ∙ ap (λ l. c.written ++ l)
                      (sym (pop_front-append m c.message_queue q) ∙ sym (append-nil _)));
            one_write = λ m' w.
                ap (λ l. l ++ (m ∷ [])) (h.one_write m' w)
                ∙ ap (λ l. m' ∷ l) (sym (pop_front-append m c.message_queue q));
            idle = λ free. elim (h.idle free) [
              | inl none_there ↦ absurd (ground (arith, q, ap is_empty none_there))
              | inr b ↦ absurd (cc (e, b.0))
            ];
            closing = λ d free. absurd (cc (e, d));
            losing = inl refl;
            opened = h.opened;
          }))

pub on_write_operation-IsOrderly :
    (throws error : Bool) (m : ℕ) (c : Connection)
    → c.writing ≡ some m
    → IsOrderly c
    → IsOrderly (on_write_operation throws error c)
unfolding on_write_operation
on_write_operation-IsOrderly throws true m c w h =
    broken (record c { writing = none; message_queue = [] }) (pop_front c.message_queue ++ h.lost)
      h.in_order (λ m' e. absurd (cc e))
on_write_operation-IsOrderly throws false m c w h = next (pop_front c.message_queue) h.in_order
  where
    next :
        (ms : List ℕ)
        → c.asked ≡ c.written ++ (ms ++ h.lost)
        → IsOrderly (write_next throws ms (record c { writing = none; message_queue = ms }))
    next [] order =
        if_elim IsOrderly (is_disconnected c.state)
          (λ e. record {
            lost = h.lost;
            in_order = order;
            one_write = λ m' w'. absurd (cc w');
            idle = λ _. inl refl;
            closing = λ _ _. refl;
            losing = elim h.losing [ inl l ↦ inl l | inr b ↦ inr (b.0, refl) ];
            opened = λ d. absurd (cc (d, e));
          })
          (λ e. record {
            lost = h.lost;
            in_order = order;
            one_write = λ m' w'. absurd (cc w');
            idle = λ _. inl refl;
            closing = λ d _. absurd (cc (d, e));
            losing = h.losing;
            opened = h.opened;
          })
    next (m' ∷ ms) order =
        internal_send-IsOrderly throws m' ms h.lost
          (record c { writing = none; message_queue = m' ∷ ms }) refl refl order h.losing h.opened

-- A protocol's answers keep the order.
pub replies-IsOrderly : (rs : List Reply) (c : Connection) → IsOrderly c → IsOrderly (replies rs c)
unfolding replies reply
replies-IsOrderly [] c h = h
replies-IsOrderly (sends throws m ∷ rs) c h =
    replies-IsOrderly rs (send throws m c) (send-IsOrderly throws m c h)
replies-IsOrderly (closes force ∷ rs) c h =
    replies-IsOrderly rs (close force c) (close-IsOrderly force c h)
