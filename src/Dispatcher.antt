-- ===== src/Dispatcher.antt =====
-- src/tasks.h and src/tasks.cpp: the queue of the tasks that the game thread executes.
-- The locks make each operation one step. A time is a number of ticks of the system clock, and 0 is
-- SYSTEM_TIME_ZERO; the function of a task is named by a number, but for the one that `shutdown`
-- queues. Signals to a waiting thread are not here.
pub mod Queue
mod Examples
use otservbr_global.Common.{
  ℕ, ◌+◌, ◌%◌, Bool, true, false, Option, none, some, List, [], ◌∷◌, ◌++◌, ltb, ◌==◌, if◌then◌else◌,
}
use otservbr_global.Common.Words.{u64_mod}

-- ThreadState of src/enums.h; `ThreadHolder` of src/thread_holder_base.h sets the first two.
pub data ThreadState : Type 0 where
  thread_running thread_closing thread_terminated : ThreadState

abbrev pub is_running : ThreadState → Bool
is_running thread_running = true
is_running thread_closing = false
is_running thread_terminated = false

abbrev pub is_terminated : ThreadState → Bool
is_terminated thread_running = false
is_terminated thread_closing = false
is_terminated thread_terminated = true

pub data Action : Type 0 where
  call : ℕ → Action
  terminate : Action

pub record Task : Type 0 where
  pub expiration : ℕ
  pub action : Action

pub record Dispatcher : Type 0 where
  pub thread_state : ThreadState
  pub task_list : List Task
  pub dispatcher_cycle : ℕ

pub has_expired : ℕ → Task → Bool
has_expired now t = if t.expiration == 0 then false else ltb t.expiration now

unfoldable pub add_task : Task → Bool → Dispatcher → Dispatcher
add_task t push_front d =
    if is_running d.thread_state
    then record d { task_list = if push_front then t ∷ d.task_list else d.task_list ++ (t ∷ []) }
    else d

-- One round of the loop: what was executed, if anything.
pub round : ℕ → Dispatcher → Option Action × Dispatcher
round now d = elim (d.task_list) [
  | [] ↦ (none, d)
  | t ∷ ts ↦
      let popped = record d { task_list = ts } in
      if has_expired now t then (none, popped) else (
        some t.action,
        record popped {
          dispatcher_cycle = (d.dispatcher_cycle + 1) % u64_mod;
          thread_state = elim (t.action) [
            | terminate ↦ thread_terminated
            | call f ↦ d.thread_state
          ];
        },
      )
]

-- The task is queued whatever the state is.
pub shutdown : Dispatcher → Dispatcher
shutdown d = record d {
  task_list = d.task_list ++ (record { expiration = 0; action = terminate } ∷ []);
}
