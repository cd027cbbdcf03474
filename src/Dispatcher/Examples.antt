-- ===== src/Dispatcher/Examples.antt =====
-- A run of the dispatcher of src/tasks.cpp, and its theorem at a concrete queue.
use otservbr_global.Common.{ℕ, ◌+◌, ◌%◌, ◌≡◌, refl, false, [], ◌∷◌, ◌++◌, arith, length}
use otservbr_global.Common.Words.{u64_mod}
use otservbr_global.Dispatcher.{
  call, thread_running, thread_terminated, terminate, Task, Dispatcher, has_expired, add_task,
  round, shutdown,
}
use otservbr_global.Dispatcher.Queue.{rounds, live, add_all, shutdown-rounds}

abbrev task : ℕ → ℕ → Task
task expiration f = record { expiration = expiration; action = call f }

abbrev busy : Dispatcher
busy = record {
  thread_state = thread_running;
  task_list = task 0 1 ∷ task 50 2 ∷ task 90 3 ∷ [];
  dispatcher_cycle = 4;
}

-- The second task has expired.
run_shutdown :
    (rounds 9 60 (add_task (task 0 5) false (shutdown busy))).0 ≡ call 1 ∷ call 3 ∷ terminate ∷ []
unfolding rounds add_task shutdown round has_expired
run_shutdown = refl

shutdown-rounds_example : rounds 9 60 (add_all (task 0 5 ∷ []) (shutdown busy)) ≡ (
  live 60 busy.task_list ++ (terminate ∷ []),
  record {
    thread_state = thread_terminated;
    task_list = task 0 5 ∷ [];
    dispatcher_cycle = (4 + length (live 60 busy.task_list) + 1) % u64_mod;
  },
)
shutdown-rounds_example =
    shutdown-rounds 9 60 busy (task 0 5 ∷ []) refl ((1, refl), ((2, refl), ((3, refl), tt)))
      (omega arith) (omega arith)
