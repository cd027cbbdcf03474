-- ===== src/Scheduler/Examples.antt =====
-- Runs of the scheduler of src/scheduler.cpp, and its theorems at concrete events.
use otservbr_global.Common.{ℕ, ◌-◌, ◌^◌, ◌≡◌, refl, ◌≢◌, [], ◌∷◌, map, arith, All}
use otservbr_global.Dispatcher.{thread_running, call}
use otservbr_global.Scheduler.{
  SchedulerTask, Scheduler, contains, insert_id, erase_id, push, next_id, add_event, stop_event,
  round, pop,
}
use otservbr_global.Scheduler.Active.{add, stop, tick, perform, run, stop_event-run}
use otservbr_global.Scheduler.Order.{IsSorted}
use otservbr_global.Scheduler.Due.{rounds, due, rounds-due_all}

abbrev event : ℕ → ℕ → SchedulerTask
event cycle f = record { event_id = 0; cycle = cycle; action = call f }

abbrev named : ℕ → ℕ → SchedulerTask
named id cycle = record { event_id = id; cycle = cycle; action = call id }

abbrev idle : Scheduler
idle = record {
  thread_state = thread_running;
  last_event_id = 2 ^ 32 - 2;
  event_list = [];
  event_ids = [];
}

-- The counter of the ids passes over 0; an event that was stopped is dropped at its time.
run_wrap :
    map
      (λ t. t.event_id)
      (run
        (add (event 50 7)
          ∷ add (event 30 8)
          ∷ add (event 40 9)
          ∷ stop 2
          ∷ tick 60
          ∷ tick 60
          ∷ tick 60
          ∷ tick 60
          ∷ [])
        idle)
    ≡ 1 ∷ (2 ^ 32 - 1) ∷ []
unfolding run perform add_event stop_event round pop push next_id contains insert_id erase_id
run_wrap = refl

abbrev waiting : Scheduler
waiting = record {
  thread_state = thread_running;
  last_event_id = 3;
  event_list = named 2 30 ∷ named 1 50 ∷ named 3 70 ∷ [];
  event_ids = 1 ∷ 2 ∷ [];
}

stop_event-run_example :
    All
      (λ t. t.event_id ≢ 2)
      (run (tick 60 ∷ add (event 10 5) ∷ tick 60 ∷ []) (stop_event 2 waiting).1)
unfolding perform stop_event add_event round pop contains erase_id next_id insert_id
stop_event-run_example =
    stop_event-run 2 (tick 60 ∷ add (event 10 5) ∷ tick 60 ∷ []) waiting (omega arith)
      (tt, (omega arith, (tt, tt)))

waiting-IsSorted : IsSorted waiting.event_list
waiting-IsSorted = ((omega arith, (omega arith, tt)), ((omega arith, tt), (tt, tt)))

-- Of two events with the id 2, the first one is sent alone.
abbrev twice : Scheduler
twice = record waiting { event_list = named 2 30 ∷ named 2 40 ∷ named 1 50 ∷ named 3 70 ∷ [] }

twice-IsSorted : IsSorted twice.event_list
twice-IsSorted = (
  (omega arith, (omega arith, (omega arith, tt))),
  ((omega arith, (omega arith, tt)), ((omega arith, tt), (tt, tt))),
)

run_twice : rounds 4 60 twice ≡ named 2 30 ∷ named 1 50 ∷ []
unfolding rounds round pop contains erase_id
run_twice = refl

rounds-due_all_example : rounds 4 60 twice ≡ due 60 twice.event_ids [] twice.event_list
rounds-due_all_example = rounds-due_all 60 twice twice-IsSorted
