-- ===== src/Dispatcher/Queue.antt =====
-- The loop of `Dispatcher::threadMain` in src/tasks.cpp on a queue that is shut down.
use otservbr_global.Common.{
  ℕ, zero, suc, ◌+◌, ◌%◌, ◌<◌, ◌≡◌, refl, sym, ap, ap₂, ◌∙◌, inl, inr, false, Option, none, some,
  List, [], ◌∷◌, ◌++◌, arith, if◌then◌else◌, Bool-cases, length, All, append-nil, append_assoc,
}
use otservbr_global.Common.Words.{u64_mod}
use otservbr_global.Dispatcher.{
  ThreadState, thread_running, thread_terminated, is_running, is_terminated, Action, call,
  terminate, Task, Dispatcher, has_expired, add_task, round, shutdown,
}

gather : Option Action → List Action × Dispatcher → List Action × Dispatcher
gather none (later, d) = (later, d)
gather (some a) (later, d) = (a ∷ later, d)

-- The loop `while (getState() != THREAD_STATE_TERMINATED)`, with all its tasks seen at one time: what
-- was executed, and the state.
unfoldable pub rounds : ℕ → ℕ → Dispatcher → List Action × Dispatcher
unfolding gather
rounds zero now d = ([], d)
rounds (suc n) now d =
    let out = round now d in
    let later = rounds n now out.1 in
    if is_terminated d.thread_state then ([], d) else gather out.0 later

-- The tasks of a queue that are still to be executed.
pub live : ℕ → List Task → List Action
live now [] = []
live now (t ∷ ts) = let rest = live now ts in if has_expired now t then rest else t.action ∷ rest

abbrev pub IsCall : Task → Type 0
IsCall t = (f : ℕ) × (t.action ≡ call f)

pub add_all : List Task → Dispatcher → Dispatcher
add_all [] d = d
add_all (t ∷ ts) d = add_all ts (add_task t false d)

add_all-append :
    (ts : List Task) (d : Dispatcher)
    → d.thread_state ≡ thread_running
    → add_all ts d ≡ record d { task_list = d.task_list ++ ts }
unfolding add_all
add_all-append [] d r = ap (λ l. record d { task_list = l }) (sym (append-nil d.task_list))
add_all-append (t ∷ ts) d r =
    let d' = record d { task_list = d.task_list ++ (t ∷ []) } in
    let added : add_task t false d ≡ d' =
      unfold add_task in ap (λ b. if is_running b then d' else d) r in
    ap (add_all ts) added
    ∙ (add_all-append ts d' r
        ∙ ap (λ l. record d { task_list = l }) (append_assoc d.task_list (t ∷ []) ts))

rounds-stopped :
    (n now : ℕ) (d : Dispatcher) → d.thread_state ≡ thread_terminated → rounds n now d ≡ ([], d)
unfolding rounds
rounds-stopped zero now d r = refl
rounds-stopped (suc n) now d r = simp r refl

abbrev last_task : Task
last_task = record { expiration = 0; action = terminate }

abbrev queue : ThreadState → List Task → ℕ → Dispatcher
queue state ts cycle = record { thread_state = state; task_list = ts; dispatcher_cycle = cycle }

rounds-live :
    (n now cycle : ℕ) (ts late : List Task)
    → All IsCall ts
    → length ts < n
    → cycle < u64_mod
    → rounds n now (queue thread_running (ts ++ last_task ∷ late) cycle) ≡ (
      live now ts ++ (terminate ∷ []),
      queue thread_terminated late ((cycle + length (live now ts) + 1) % u64_mod),
    )
unfolding rounds gather live round
rounds-live zero now cycle ts late calls lt h = absurd (omega arith)
rounds-live (suc n) now cycle [] late calls lt h =
    let fresh' : has_expired now last_task ≡ false = unfold has_expired in refl in
    let same : (cycle + 0 + 1) % u64_mod ≡ (cycle + 1) % u64_mod = omega arith in
    rw (fresh', same)
      (ap (gather (some terminate))
        (rounds-stopped n now (queue thread_terminated late ((cycle + 1) % u64_mod)) refl))
rounds-live (suc n) now cycle (t ∷ ts) late calls lt h = elim (Bool-cases (has_expired now t)) [
  | inl e ↦ rw e (ap (gather none) (rounds-live n now cycle ts late calls.1 (omega arith) h))
  | inr e ↦
      let (f, is_call) = calls.0 in
      let count : ((cycle + 1) % u64_mod + length (live now ts) + 1) % u64_mod
          ≡ (cycle + suc (length (live now ts)) + 1) % u64_mod =
        omega arith in
      rw (e, is_call, ← count)
        (ap (gather (some (call f)))
          (rounds-live n now ((cycle + 1) % u64_mod) ts late calls.1 (omega arith) (omega arith)))
]

-- A running dispatcher that is shut down with calls in its queue executes all of those that have not expired,
-- in order, then stops; the tasks that are added at the end after the shutdown are never executed.
pub shutdown-rounds :
    (n now : ℕ) (d : Dispatcher) (late : List Task)
    → d.thread_state ≡ thread_running
    → All IsCall d.task_list
    → length d.task_list < n
    → d.dispatcher_cycle < u64_mod
    → rounds n now (add_all late (shutdown d)) ≡ (
      live now d.task_list ++ (terminate ∷ []),
      record {
        thread_state = thread_terminated;
        task_list = late;
        dispatcher_cycle = (d.dispatcher_cycle + length (live now d.task_list) + 1) % u64_mod;
      },
    )
shutdown-rounds n now d late r calls lt h =
    let queued : add_all late (shutdown d)
        ≡ queue thread_running (d.task_list ++ last_task ∷ late) d.dispatcher_cycle =
      unfold shutdown in
      add_all-append late (record d { task_list = d.task_list ++ (last_task ∷ []) }) r
      ∙ ap₂ (λ b l. queue b l d.dispatcher_cycle) r
          (append_assoc d.task_list (last_task ∷ []) late) in
    ap (rounds n now) queued ∙ rounds-live n now d.dispatcher_cycle d.task_list late calls lt h
