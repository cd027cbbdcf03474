-- ===== src/Scheduler/Order.antt =====
-- The priority queue of src/scheduler.cpp: events go to the dispatcher in the order of their times.
use otservbr_global.Common.{
  ℕ, ◌≤◌, inl, inr, Option, some, List, [], ◌∷◌, arith, ltb, leb, ◌==◌, ltb→lt, Bool-cases, All,
}
use otservbr_global.Dispatcher.{is_running}
use otservbr_global.Scheduler.{
  SchedulerTask, Scheduler, contains, push, next_id, add_event, stop_event, shutdown, pop, round,
}
use otservbr_global.Scheduler.Active.{Command, add, stop, tick, stop_all, perform}

abbrev pub IsSorted : List SchedulerTask → Type 0
IsSorted [] = Unit {0}
IsSorted (t ∷ ts) = All (λ x. t.cycle ≤ x.cycle) ts × IsSorted ts

All-push :
    (n : ℕ) (t : SchedulerTask) (ts : List SchedulerTask)
    → n ≤ t.cycle
    → All (λ x. n ≤ x.cycle) ts
    → All (λ x. n ≤ x.cycle) (push t ts)
unfolding push
All-push n t [] h hs = (h, tt)
All-push n t (x ∷ xs) h hs = elim (Bool-cases (ltb t.cycle x.cycle)) [
  | inl e ↦ rw e (h, hs)
  | inr e ↦ rw e (hs.0, All-push n t xs h hs.1)
]

pub All-le :
    (m n : ℕ) (ts : List SchedulerTask)
    → m ≤ n
    → All (λ x. n ≤ x.cycle) ts
    → All (λ x. m ≤ x.cycle) ts
All-le m n [] h hs = tt
All-le m n (x ∷ xs) h hs = (omega (arith, hs.0), All-le m n xs h hs.1)

push-IsSorted : (t : SchedulerTask) (ts : List SchedulerTask) → IsSorted ts → IsSorted (push t ts)
unfolding push
push-IsSorted t [] h = (tt, tt)
push-IsSorted t (x ∷ xs) h = elim (Bool-cases (ltb t.cycle x.cycle)) [
  | inl e ↦
      let lt = ltb→lt t.cycle x.cycle e in
      rw e ((omega arith, All-le t.cycle x.cycle xs (omega arith) h.0), h)
  | inr e ↦ rw e (All-push x.cycle t xs (ground arith) h.0, push-IsSorted t xs h.1)
]

-- An event that goes to the dispatcher is due, and none that stays is earlier.
abbrev pub IsFirst : Command → Option SchedulerTask → List SchedulerTask → Type 0
IsFirst (tick now) (some t) ts = (t.cycle ≤ now) × All (λ x. t.cycle ≤ x.cycle) ts
IsFirst c o ts = Unit {0}

round-IsFirst :
    (now : ℕ) (s : Scheduler)
    → IsSorted s.event_list
    → IsSorted (round now s).1.event_list
      × IsFirst (tick now) (round now s).0 (round now s).1.event_list
unfolding round pop
round-IsFirst now s h = go (s.event_list) h
  where
    go :
        (ts : List SchedulerTask)
        → IsSorted ts
        → let out = round now (record s { event_list = ts }) in
          IsSorted out.1.event_list × IsFirst (tick now) out.0 out.1.event_list
    go [] hs = (tt, tt)
    go (t ∷ ts) hs = elim (Bool-cases (leb t.cycle now)) [
      | inl due ↦ elim (Bool-cases (contains t.event_id s.event_ids)) [
        | inl e ↦ rw (due, e) (hs.1, (ground arith, hs.0))
        | inr e ↦ rw (due, e) (hs.1, tt)
      ]
      | inr early ↦ rw early (hs, tt)
    ]

-- Every operation keeps the queue in the order of the times, and the event that goes to the
-- dispatcher at a time is due then, and no later than any that stays.
pub perform-IsSorted :
    (c : Command) (s : Scheduler)
    → IsSorted s.event_list
    → IsSorted (perform c s).1.event_list × IsFirst c (perform c s).0 (perform c s).1.event_list
unfolding perform add_event stop_event
perform-IsSorted (add t) s h = (added, tt)
  where
    added : IsSorted (add_event t s).1.event_list
    added = elim (Bool-cases (is_running s.thread_state)) [
      | inl r ↦ elim (Bool-cases (t.event_id == 0)) [
        | inl e ↦
            simp (r, e)
              (push-IsSorted (record t { event_id = next_id s.last_event_id }) s.event_list h)
        | inr e ↦ simp (r, e) (push-IsSorted t s.event_list h)
      ]
      | inr r ↦ simp r h
    ]
perform-IsSorted (stop id) s h = (stopped, tt)
  where
    stopped : IsSorted (stop_event id s).1.event_list
    stopped = elim (Bool-cases (id == 0)) [
      | inl e ↦ rw e h
      | inr e ↦ elim (Bool-cases (contains id s.event_ids)) [
        | inl c ↦ simp (e, c) h
        | inr c ↦ simp (e, c) h
      ]
    ]
perform-IsSorted (tick now) s h = round-IsFirst now s h
perform-IsSorted stop_all s h = (unfold shutdown in tt, tt)
