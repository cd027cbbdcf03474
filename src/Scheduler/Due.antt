-- ===== src/Scheduler/Due.antt =====
-- The loop of src/scheduler.cpp at one time: which events go to the dispatcher.
use otservbr_global.Common.{
  ℕ, zero, suc, ◌≤◌, ◌<◌, ◌≡◌, refl, sym, ap, ◌∙◌, inl, inr, false, ◌&&◌, List, [], ◌∷◌, arith, leb,
  if◌then◌else◌, Bool-cases, length, All, not, ◌==◌, ==_iff,
}
use otservbr_global.Scheduler.{SchedulerTask, Scheduler, contains, erase_id, pop, round}
use otservbr_global.Scheduler.Active.{prepend}
use otservbr_global.Scheduler.Order.{IsSorted}

-- So many rounds of the loop at one time.
unfoldable pub rounds : ℕ → ℕ → Scheduler → List SchedulerTask
rounds zero now s = []
rounds (suc n) now s = prepend (round now s).0 (rounds n now (round now s).1)

-- The events that are due, were not stopped, and whose id no event before them has; `seen` has the ids
-- of the events before.
pub due : ℕ → List ℕ → List ℕ → List SchedulerTask → List SchedulerTask
due now ids seen [] = []
due now ids seen (t ∷ ts) =
    let rest = due now ids (t.event_id ∷ seen) ts in
    if leb t.cycle now && (contains t.event_id ids && not (contains t.event_id seen))
    then t ∷ rest
    else rest

abbrev state : Scheduler → List SchedulerTask → List ℕ → Scheduler
state s ts ids = record s { event_list = ts; event_ids = ids }

rounds-early :
    (n now : ℕ) (s : Scheduler) (t : SchedulerTask) (ts : List SchedulerTask) (ids : List ℕ)
    → leb t.cycle now ≡ false
    → rounds n now (state s (t ∷ ts) ids) ≡ []
unfolding rounds round
rounds-early zero now s t ts ids early = refl
rounds-early (suc n) now s t ts ids early = rw early (rounds-early n now s t ts ids early)

due-early :
    (now m : ℕ) (ids seen : List ℕ) (ts : List SchedulerTask)
    → now < m
    → All (λ x. m ≤ x.cycle) ts
    → due now ids seen ts ≡ []
unfolding due
due-early now m ids seen [] lt h = refl
due-early now m ids seen (t ∷ ts) lt h =
    let early : leb t.cycle now ≡ false = ground (arith, h.0) in
    rw early (due-early now m ids (t.event_id ∷ seen) ts lt h.1)

contains-erase_id_eq :
    (i j : ℕ) (ids : List ℕ) → contains i (erase_id j ids) ≡ contains i ids && not (j == i)
unfolding contains erase_id
contains-erase_id_eq i j [] = refl
contains-erase_id_eq i j (k ∷ ids) = ground (arith, contains-erase_id_eq i j ids)

-- The ids that are left once some were seen.
abbrev Leaves : List ℕ → List ℕ → List ℕ → Type 0
Leaves ids seen left = (i : ℕ) → contains i left ≡ contains i ids && not (contains i seen)

erase_id-Leaves :
    (j : ℕ) (ids seen left : List ℕ)
    → Leaves ids seen left
    → Leaves ids (j ∷ seen) (erase_id j left)
unfolding contains
erase_id-Leaves j ids seen left h i = ground (arith, contains-erase_id_eq i j left, h i)

absent-Leaves :
    (j : ℕ) (ids seen left : List ℕ)
    → contains j left ≡ false
    → Leaves ids seen left
    → Leaves ids (j ∷ seen) left
unfolding contains
absent-Leaves j ids seen left absent h i = elim (Bool-cases (j == i)) [
  | inl e ↦
      let same : j ≡ i = (==_iff j i).0 e in
      ground (arith, e, ap (λ k. contains k left) same, absent)
  | inr e ↦ ground (arith, e, h i)
]

rounds-due :
    (now : ℕ) (s : Scheduler) (ts : List SchedulerTask) (ids seen left : List ℕ)
    → IsSorted ts
    → Leaves ids seen left
    → rounds (length ts) now (state s ts left) ≡ due now ids seen ts
unfolding rounds due round pop
rounds-due now s [] ids seen left sorted h = refl
rounds-due now s (t ∷ ts) ids seen left sorted h = elim (Bool-cases (leb t.cycle now)) [
  | inl is_due ↦ elim (Bool-cases (contains t.event_id left)) [
    | inl e ↦
        let sent = sym (h t.event_id) ∙ e in
        rw (is_due, e, sent)
          (ap (λ r. t ∷ r)
            (rounds-due now s ts ids (t.event_id ∷ seen) (erase_id t.event_id left) sorted.1
              (erase_id-Leaves t.event_id ids seen left h)))
    | inr e ↦
        let dropped = sym (h t.event_id) ∙ e in
        rw (is_due, e, dropped)
          (rounds-due now s ts ids (t.event_id ∷ seen) left sorted.1
            (absent-Leaves t.event_id ids seen left e h))
  ]
  | inr early ↦
      let later : now < t.cycle = ground arith in
      rw early (
        rounds-early (length ts) now s t ts left early
        ∙ sym (due-early now t.cycle ids (t.event_id ∷ seen) ts later sorted.0))
]

-- In a queue in the order of the times, as many rounds at one time as there are events send exactly the
-- events that are due and were not stopped, in the queue's order; of events with the same id, the first
-- one alone.
pub rounds-due_all :
    (now : ℕ) (s : Scheduler)
    → IsSorted s.event_list
    → rounds (length s.event_list) now s ≡ due now s.event_ids [] s.event_list
unfolding contains
rounds-due_all now s sorted =
    rounds-due now s s.event_list s.event_ids [] s.event_ids sorted (λ i. ground arith)
