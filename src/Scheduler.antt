-- ===== src/Scheduler.antt =====
-- src/scheduler.h and src/scheduler.cpp: the events that wait for their time.
-- `eventList` is a priority queue: a list whose head is `top()`, where of two events of one time the
-- one that was added first comes first (the standard leaves that order open). `eventIds`, a set, is a
-- list without duplicates. The locks make each operation one step.
pub mod Active
pub mod Order
pub mod Due
mod Examples
use otservbr_global.Common.{
  ℕ, ◌+◌, ◌%◌, Bool, true, false, not, ◌||◌, Option, none, some, List, [], ◌∷◌, ltb, leb, ◌==◌,
  if◌then◌else◌,
}
use otservbr_global.Common.Words.{u32_mod}
use otservbr_global.Dispatcher.{
  ThreadState, thread_terminated, is_running, Action, Dispatcher, add_task,
}

pub record SchedulerTask : Type 0 where
  pub event_id : ℕ
  pub cycle : ℕ
  pub action : Action

pub record Scheduler : Type 0 where
  pub thread_state : ThreadState
  pub last_event_id : ℕ
  pub event_list : List SchedulerTask
  pub event_ids : List ℕ

pub contains : ℕ → List ℕ → Bool
contains id [] = false
contains id (i ∷ is) = (i == id) || contains id is

pub insert_id : ℕ → List ℕ → List ℕ
insert_id id ids = if contains id ids then ids else id ∷ ids

pub erase_id : ℕ → List ℕ → List ℕ
erase_id id [] = []
erase_id id (i ∷ is) = let rest = erase_id id is in if i == id then rest else i ∷ rest

-- `eventList.push`
pub push : SchedulerTask → List SchedulerTask → List SchedulerTask
push t [] = t ∷ []
push t (x ∷ xs) = let rest = push t xs in if ltb t.cycle x.cycle then t ∷ x ∷ xs else x ∷ rest

-- `++lastEventId`, where 0 is passed over.
pub next_id : ℕ → ℕ
next_id last = let id = (last + 1) % u32_mod in if id == 0 then 1 else id

-- The id that the caller gets, 0 for an event that is dropped.
pub add_event : SchedulerTask → Scheduler → ℕ × Scheduler
add_event t s =
    if not (is_running s.thread_state)
    then (0, s)
    else if t.event_id == 0
    then (let id = next_id s.last_event_id in
        (
          id,
          record s {
            last_event_id = id;
            event_ids = insert_id id s.event_ids;
            event_list = push (record t { event_id = id }) s.event_list;
          },
        ))
    else (
      t.event_id,
      record s { event_ids = insert_id t.event_id s.event_ids; event_list = push t s.event_list },
    )

pub stop_event : ℕ → Scheduler → Bool × Scheduler
stop_event id s =
    if id == 0
    then (false, s)
    else if contains id s.event_ids
    then (true, record s { event_ids = erase_id id s.event_ids })
    else (false, s)

pub shutdown : Scheduler → Scheduler
shutdown s = record s { thread_state = thread_terminated; event_list = []; event_ids = [] }

-- What the loop does with the event that it has popped.
pub pop : SchedulerTask → List SchedulerTask → Scheduler → Option SchedulerTask × Scheduler
pop t ts s =
    if contains t.event_id s.event_ids
    then (some t, record s { event_list = ts; event_ids = erase_id t.event_id s.event_ids })
    else (none, record s { event_list = ts })

-- A round of the loop at the time `now`. `wait_until` times out at the time of the event that was the
-- first; one that came before it meanwhile is due as well.
pub round : ℕ → Scheduler → Option SchedulerTask × Scheduler
round now s = elim (s.event_list) [
  | [] ↦ (none, s)
  | t ∷ ts ↦ if leb t.cycle now then pop t ts s else (none, s)
]

-- `task->setDontExpire(); g_dispatcher.addTask(task, true);`
pub hand_over : Option SchedulerTask → Dispatcher → Dispatcher
hand_over none d = d
hand_over (some t) d = add_task (record { expiration = 0; action = t.action }) true d
