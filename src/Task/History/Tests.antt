-- ===== src/Task/History/Tests.antt =====
-- A history in which an exited thread stays out of the scheduler's choice.
use kazuos.Prelude.{ℕ, List, [], ◌∷◌, ◌≡◌, ◌≢◌, refl, some, arith, All}
use kazuos.Task.Types.{ready, exited, system}
use kazuos.Task.Thread.{new_thread, ThreadTable}
use kazuos.Task.Scheduler.{schedule_next}
use kazuos.Task.History.{Request, change, move, create_kernel, tick, run}
use kazuos.Task.History.Final.{schedule_next-Ended}
use kazuos.Task.Ended.{Ended}

abbrev table : ThreadTable
table = record {
  threads =
      record (new_thread 1 1 4096 system 0) { state = exited } ∷ new_thread 2 1 8192 system 0 ∷ [];
  next_tid = 3;
  next_assign_cpu = 2;
}

abbrev requests : List ((ℕ → ℕ) × Request)
requests =
    (λ address. 0, change (move 1 ready))
    ∷ (λ address. 0, change (move 2 ready))
    ∷ (λ address. 0, change tick)
    ∷ (λ address. 0, create_kernel (some 65536) 2 7 system)
    ∷ []

table-Ended : All (Ended 1) table.threads
table-Ended = (λ e. refl, (λ e. absurd (omega arith), tt))

picks_two : schedule_next 0 0 (run requests table).threads ≡ 2
unfolding run schedule_next
picks_two = refl

schedule_next-Ended_example : schedule_next 0 0 (run requests table).threads ≢ 1
schedule_next-Ended_example =
    schedule_next-Ended 1 requests table 0 0 (omega arith) (omega arith) (omega arith) table-Ended
