-- ===== src/Task/History/Final.antt =====
-- What an ended thread can still do to the table of crates/kernel/src/task/thread.rs: nothing.
use kazuos.Prelude.{
  ℕ, ◌+◌, ◌^◌, ◌<◌, true, List, [], ◌∷◌, ◌==◌, ◌≡◌, ◌≢◌, refl, subst, arith, All, length,
  true-false, and-inv, inl, inr,
}
use kazuos.Task.Types.{Threads, ThreadState, ready, exited, empty, running, sleeping}
use kazuos.Task.Thread.{ThreadTable, is_active}
use kazuos.Task.Scheduler.{schedule_next, is_ready, is_ready_state}
use kazuos.Task.Scheduler.Choice.{has, has_ready, has-inv, schedule_next-IsNext}
use kazuos.Task.Ended.{Ended}
use kazuos.Task.History.{Request, step, run}
use kazuos.Task.History.Keeps.{step-Ended, step-next}

pub run-Ended :
    (u : ℕ) (requests : List ((ℕ → ℕ) × Request)) (s : ThreadTable)
    → u < s.next_tid
    → s.next_tid + length requests < 2 ^ 64
    → All (Ended u) s.threads
    → All (Ended u) (run requests s).threads
unfolding run
run-Ended u [] s l h a = a
run-Ended u ((memory, request) ∷ requests) s l h a =
    let n = step-next memory u request s (omega arith) in
    run-Ended u requests (step memory request s) (omega (arith, n.0, n.1)) (omega (arith, n.0, n.1))
      (step-Ended memory u request s l a)

ready-active : (s : ThreadState) → is_ready_state s ≡ true → is_active s ≡ true
ready-active empty e = e
ready-active ready e = refl
ready-active running e = refl
ready-active sleeping e = refl
ready-active exited e = e

Ended-has_ready :
    (cpu u : ℕ) (threads : Threads) → All (Ended u) threads → has_ready cpu u threads ≡ true → ⊥
unfolding has
Ended-has_ready cpu u [] a e = true-false e refl
Ended-has_ready cpu u (t ∷ threads) a e = elim (has-inv (is_ready cpu) t threads u e) [
  | inl g ↦
      let r = and-inv (t.assigned_cpu == cpu) (is_ready_state t.state) g.0 in
      true-false (ready-active t.state r.1) (a.0 g.1)
  | inr g ↦ Ended-has_ready cpu u threads a.1 g
]

-- Once every thread with the tid `u` has ended, `schedule_next` picks `u` on no CPU after any
-- history of calls: no wake-up or state change revives it, and no new thread gets its tid. The
-- tid is one that was given out, and the history too short to take `NEXT_TID` round.
pub schedule_next-Ended :
    (u : ℕ) (requests : List ((ℕ → ℕ) × Request)) (s : ThreadTable) (cpu current : ℕ)
    → 0 < u
    → u < s.next_tid
    → s.next_tid + length requests < 2 ^ 64
    → All (Ended u) s.threads
    → schedule_next cpu current (run requests s).threads ≢ u
schedule_next-Ended u requests s cpu current p l h a e =
    let dead = Ended-has_ready cpu u (run requests s).threads (run-Ended u requests s l h a) in
    elim (schedule_next-IsNext cpu current (run requests s).threads) [
      | inl n ↦ dead (subst (λ v. has_ready cpu v (run requests s).threads ≡ true) e n.0)
      | inr (inl n) ↦ dead (subst (λ v. has_ready cpu v (run requests s).threads ≡ true) e n.0)
      | inr (inr n) ↦ omega arith
    ]
