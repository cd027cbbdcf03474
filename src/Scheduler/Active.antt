-- ===== src/Scheduler/Active.antt =====
-- Runs of the operations of src/scheduler.cpp in any order, and what becomes of a stopped event.
use otservbr_global.Common.{
  ℕ, ◌≡◌, refl, ap, ◌≢◌, inl, inr, false, Option, none, some, List, [], ◌∷◌, arith, leb, ◌==◌,
  Bool-cases, All,
}
use otservbr_global.Dispatcher.{is_running}
use otservbr_global.Scheduler.{
  SchedulerTask, Scheduler, contains, insert_id, erase_id, next_id, add_event, stop_event, shutdown,
  pop, round,
}

pub data Command : Type 0 where
  add : SchedulerTask → Command
  stop : ℕ → Command
  tick : ℕ → Command
  stop_all : Command

-- The event that goes to the dispatcher, if any, and the state after the command.
unfoldable pub perform : Command → Scheduler → Option SchedulerTask × Scheduler
perform (add t) s = (none, (add_event t s).1)
perform (stop id) s = (none, (stop_event id s).1)
perform (tick now) s = round now s
perform stop_all s = (none, shutdown s)

abbrev pub prepend {ℓ} : {A : Type ℓ} → Option A → List A → List A
prepend none xs = xs
prepend (some x) xs = x ∷ xs

-- The events that go to the dispatcher, in order.
unfoldable pub run : List Command → Scheduler → List SchedulerTask
run [] s = []
run (c ∷ cs) s = prepend (perform c s).0 (run cs (perform c s).1)

-- No new event is given the id.
abbrev pub Spares : ℕ → Command → Scheduler → Type 0
Spares id (add t) s = (add_event t s).0 ≢ id
Spares id (stop i) s = Unit {0}
Spares id (tick now) s = Unit {0}
Spares id stop_all s = Unit {0}

abbrev pub AllSpare : ℕ → List Command → Scheduler → Type 0
AllSpare id [] s = Unit {0}
AllSpare id (c ∷ cs) s = Spares id c s × AllSpare id cs (perform c s).1

contains-insert_id :
    (id j : ℕ) (ids : List ℕ)
    → j ≢ id
    → contains id ids ≡ false
    → contains id (insert_id j ids) ≡ false
unfolding contains insert_id
contains-insert_id id j ids ne h = ground arith

pub contains-erase_id :
    (id j : ℕ) (ids : List ℕ) → contains id ids ≡ false → contains id (erase_id j ids) ≡ false
unfolding contains erase_id
contains-erase_id id j [] h = refl
contains-erase_id id j (i ∷ is) h = ground (arith, contains-erase_id id j is)

contains-erase_id_self : (id : ℕ) (ids : List ℕ) → contains id (erase_id id ids) ≡ false
unfolding contains erase_id
contains-erase_id_self id [] = refl
contains-erase_id_self id (i ∷ is) = ground (arith, contains-erase_id_self id is)

abbrev IsOther : ℕ → Option SchedulerTask → Type 0
IsOther id none = Unit {0}
IsOther id (some t) = t.event_id ≢ id

round-IsOther :
    (id now : ℕ) (s : Scheduler)
    → contains id s.event_ids ≡ false
    → IsOther id (round now s).0 × (contains id (round now s).1.event_ids ≡ false)
unfolding round pop
round-IsOther id now s h = go (s.event_list)
  where
    go :
        (ts : List SchedulerTask)
        → let s' = record s { event_list = ts } in
          IsOther id (round now s').0 × (contains id (round now s').1.event_ids ≡ false)
    go [] = (tt, h)
    go (t ∷ ts) = elim (Bool-cases (leb t.cycle now)) [
      | inl due ↦ elim (Bool-cases (contains t.event_id s.event_ids)) [
        | inl e ↦
            rw (due, e)
              (
                λ same. ground (arith, ap (λ i. contains i s.event_ids) same),
                contains-erase_id id t.event_id s.event_ids h,
              )
        | inr e ↦ rw (due, e) (tt, h)
      ]
      | inr early ↦ rw early (tt, h)
    ]

perform-IsOther :
    (id : ℕ) (c : Command) (s : Scheduler)
    → Spares id c s
    → contains id s.event_ids ≡ false
    → IsOther id (perform c s).0 × (contains id (perform c s).1.event_ids ≡ false)
unfolding perform add_event stop_event
perform-IsOther id (add t) s other h = (tt, added)
  where
    added : contains id (add_event t s).1.event_ids ≡ false
    added = elim (Bool-cases (is_running s.thread_state)) [
      | inl r ↦ elim (Bool-cases (t.event_id == 0)) [
        | inl e ↦
            simp (r, e)
              (contains-insert_id id (next_id s.last_event_id) s.event_ids (simp (r, e) at other) h)
        | inr e ↦
            simp (r, e) (contains-insert_id id t.event_id s.event_ids (simp (r, e) at other) h)
      ]
      | inr r ↦ simp r h
    ]
perform-IsOther id (stop i) s other h = (tt, stopped)
  where
    stopped : contains id (stop_event i s).1.event_ids ≡ false
    stopped = ground (arith, contains-erase_id id i s.event_ids h)
perform-IsOther id (tick now) s other h = round-IsOther id now s h
perform-IsOther id stop_all s other h = (tt, unfold shutdown contains in refl)

run-IsOther :
    (id : ℕ) (cs : List Command) (s : Scheduler)
    → AllSpare id cs s
    → contains id s.event_ids ≡ false
    → All (λ t. t.event_id ≢ id) (run cs s)
unfolding run
run-IsOther id [] s others h = tt
run-IsOther id (c ∷ cs) s others h =
    let step = perform-IsOther id c s others.0 h in
    All-prepend (perform c s).0 (run cs (perform c s).1) step.0
      (run-IsOther id cs (perform c s).1 others.1 step.1)
  where
    All-prepend :
        (o : Option SchedulerTask) (ts : List SchedulerTask)
        → IsOther id o
        → All (λ t. t.event_id ≢ id) ts
        → All (λ t. t.event_id ≢ id) (prepend o ts)
    All-prepend none ts a b = b
    All-prepend (some t) ts a b = (a, b)

-- Once an event is stopped, no event with its id goes to the dispatcher, whatever is added, stopped
-- and waited for afterwards, as long as no new event is given the same id.
pub stop_event-run :
    (id : ℕ) (cs : List Command) (s : Scheduler)
    → id ≢ 0
    → AllSpare id cs (stop_event id s).1
    → All (λ t. t.event_id ≢ id) (run cs (stop_event id s).1)
unfolding stop_event
stop_event-run id cs s nonzero others = run-IsOther id cs _ others gone
  where
    gone : contains id (stop_event id s).1.event_ids ≡ false
    gone = ground (arith, contains-erase_id_self id s.event_ids)
