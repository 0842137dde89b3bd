-- ===== src/Task/Scheduler/Tests.antt =====
-- Runs of the scheduling choice.
use kazuos.Prelude.{ℕ, [], ◌∷◌, ◌≡◌, refl, false, arith}
use kazuos.Task.Types.{Thread, Threads, ready, sleeping, ThreadState, user}
use kazuos.Task.Thread.{new_thread}
use kazuos.Task.Scheduler.{schedule_next}
use kazuos.Task.Scheduler.Choice.{has, IsNext, schedule_next-IsNext}
use kazuos.Task.Scheduler.Fair.{of_entry, gets_turn, low_tids_starve}

abbrev thread : ℕ → ThreadState → ℕ → Thread
thread tid state cpu = record (new_thread tid 1 4096 user cpu) { state = state }

-- Threads 1 and 3 are Ready on CPU 0, 2 sleeps, 4 is on CPU 1.
abbrev mixed : Threads
mixed = thread 3 ready 0 ∷ thread 1 ready 0 ∷ thread 2 sleeping 0 ∷ thread 4 ready 1 ∷ []

turns :
    (schedule_next 0 1 mixed ≡ 3) × (schedule_next 0 3 mixed ≡ 1) × (schedule_next 1 9 mixed ≡ 4)
unfolding schedule_next
turns = (refl, refl, refl)

no_ready : schedule_next 2 1 mixed ≡ 0
unfolding schedule_next
no_ready = refl

schedule_next-IsNext_example : IsNext 0 1 mixed (schedule_next 0 1 mixed)
schedule_next-IsNext_example = schedule_next-IsNext 0 1 mixed

-- Threads 1 and 2 block in turn; 3 is Ready all the time.
abbrev first_ready : Threads
first_ready = thread 1 ready 0 ∷ thread 2 sleeping 0 ∷ thread 3 ready 0 ∷ []

abbrev second_ready : Threads
second_ready = thread 1 sleeping 0 ∷ thread 2 ready 0 ∷ thread 3 ready 0 ∷ []

low_tids_starve_example :
    gets_turn 0 3 1 (of_entry second_ready ∷ of_entry first_ready ∷ of_entry second_ready ∷ [])
    ≡ false
unfolding has
low_tids_starve_example =
    low_tids_starve 0 3 1
      (of_entry second_ready ∷ of_entry first_ready ∷ of_entry second_ready ∷ [])
      (
        (2, omega arith, omega arith, refl),
        ((1, omega arith, omega arith, refl), ((2, omega arith, omega arith, refl), tt)),
      )
