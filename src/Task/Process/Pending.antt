-- ===== src/Task/Process/Pending.antt =====
-- Signals and the request to die of crates/kernel/src/task/process.rs over time.
use kazuos.Prelude.{
  ℕ, ◌+◌, ◌^◌, ◌<◌, true, false, none, some, List, [], ◌∷◌, ◌==◌, if◌then◌else◌, ◌≡◌, ◌≢◌, refl,
  sym, ◌∙◌, ap, arith, length, All, Bool-cases, inl, inr,
}
use kazuos.Task.Types.{user}
use kazuos.Task.Thread as ThreadTable
use kazuos.Task.Thread.{create_user_thread, create_kernel_thread}
use kazuos.Task.Process.{Process, Tasks, init, find_process, modify, update, on_tid, main_tid}
use kazuos.Task.Process.Signals.{
  has_sigint, set_kill, set_sigint, clear_pending, kill_pid, wake_main, send_sigint,
  signal_check_and_clear,
}
use kazuos.Task.Process.Moves.{KeepsPid}
use kazuos.Task.Process.Calls.{Call, checks, run}
use kazuos.Task.Process.Kept.{Allowed}
use kazuos.Task.Process.Spared.{on_tid-processes}
use kazuos.Task.Process.Distinct.{clear-Allowed}
use kazuos.Task.Process.Held.{
  kill_flag, kill_flag-IsSticky, sigint_flag, sigint_flag-IsSticky, on_tid-next, run-old,
  kept_after, not_checked,
}

kill_pid-user :
    (pid : ℕ) (s : Tasks) (p : Process)
    → pid ≢ 0
    → find_process pid s.processes ≡ some p
    → p.privilege ≡ user
    → let s' = update pid set_kill s in
      kill_pid pid s ≡ on_tid ThreadTable.set_ready (main_tid pid s') s'
unfolding kill_pid
kill_pid-user pid s p ne found privilege =
    let nonzero : (pid == 0) ≡ false = ground (arith, ne) in
    rw nonzero (rw found (rw privilege refl))

-- SIGKILL to a user process is final: whatever calls were made before, and whatever calls follow,
-- if the process is still in the table then it is still flagged to die.
pub kill_is_final :
    (memory : ℕ → ℕ) (before after : List Call) (pid : ℕ) (p q : Process)
    → length before + length after + 1 < 2 ^ 64
    → pid ≢ 0
    → find_process pid (run memory before init).processes ≡ some p
    → p.privilege ≡ user
    → find_process pid (run memory after (kill_pid pid (run memory before init))).processes ≡ some q
    → q.kill_pending ≡ true
kill_is_final memory before after pid p q room ne found privilege still =
    let s = run memory before init in
    let s' = update pid set_kill s in
    let tid = main_tid pid s' in
    kept_after kill_flag kill_flag-IsSticky memory (length before) pid p set_kill s after
      (on_tid ThreadTable.set_ready tid s') (omega (arith, room))
      (run-old memory before (omega (arith, room))) found (λ r. refl) (λ r. refl)
      (on_tid-processes ThreadTable.set_ready tid s') (on_tid-next ThreadTable.set_ready tid s')
      (each after) q
      (sym (
          ap (λ u. find_process pid (run memory after u).processes)
            (kill_pid-user pid s p ne found privilege))
        ∙ still)
  where
    each : (calls : List Call) → All (Allowed kill_flag pid) calls
    each [] = tt
    each (call ∷ calls) = (clear-Allowed kill_flag pid call (λ r h. h), each calls)

send_sigint-caught :
    (memory : ℕ → ℕ) (pid : ℕ) (s : Tasks) (p : Process)
    → find_process pid s.processes ≡ some p
    → p.privilege ≡ user
    → p.sigint_catch ≡ true
    → send_sigint memory pid s ≡ on_tid (wake_main memory) p.main_tid (update pid set_sigint s)
unfolding send_sigint
send_sigint-caught memory pid s p found privilege catching =
    rw found (rw privilege (rw catching refl))

check-pending :
    (pid : ℕ) (s : Tasks) (q : Process)
    → find_process pid s.processes ≡ some q
    → q.sigint_pending ≡ true
    → has_sigint (signal_check_and_clear pid s).0 ≡ true
unfolding signal_check_and_clear
check-pending pid s q found flag =
    rw found
      (rw flag (elim (Bool-cases q.sigterm_pending) [ inl e ↦ rw e refl | inr e ↦ rw e refl ]))

find_process-modify :
    (pid : ℕ) (f : Process → Process) (processes : List Process) (q : Process)
    → KeepsPid f
    → find_process pid processes ≡ some q
    → find_process pid (modify pid f processes) ≡ some (f q)
unfolding find_process modify
find_process-modify pid f [] q keeps found = absurd (none_some found)
  where
    none_some : none ≡ some q → ⊥
    none_some e = absurd cc
find_process-modify pid f (p ∷ processes) q keeps found = elim (Bool-cases (p.pid == pid)) [
  | inl b ↦
      let same : some p ≡ some q =
        sym (ap (λ t. if t then some p else find_process pid processes) b) ∙ found in
      let eq : p ≡ q = cc in
      let test : ((f p).pid == pid) ≡ true = ap (λ n. n == pid) (keeps p) ∙ b in
      rw b (rw test (ap (λ r. some (f r)) eq))
  | inr b ↦ rw b (
      rw b (
        find_process-modify pid f processes q keeps
          (sym (ap (λ t. if t then some p else find_process pid processes) b) ∙ found)))
]

-- SIGINT to a user process that catches it is delivered once: whatever calls were made before, and
-- whatever calls follow but the process's own check, its next check answers SIGINT if it is still
-- in the table, and the check after that answers nothing.
pub sigint_delivered :
    (memory : ℕ → ℕ) (before after : List Call) (pid : ℕ) (p q : Process)
    → length before + length after + 1 < 2 ^ 64
    → find_process pid (run memory before init).processes ≡ some p
    → p.privilege ≡ user
    → p.sigint_catch ≡ true
    → All (λ call. call ≢ checks pid) after
    → let t = run memory after (send_sigint memory pid (run memory before init)) in
      find_process pid t.processes ≡ some q
      → let (mask, t') = signal_check_and_clear pid t in
        (has_sigint mask ≡ true) × ((signal_check_and_clear pid t').0 ≡ 0)
unfolding signal_check_and_clear
sigint_delivered memory before after pid p q room found privilege catching unchecked still =
    let s = run memory before init in
    let s' = update pid set_sigint s in
    let flag =
      kept_after sigint_flag sigint_flag-IsSticky memory (length before) pid p set_sigint s after
        (on_tid (wake_main memory) p.main_tid s') (omega (arith, room))
        (run-old memory before (omega (arith, room))) found (λ r. refl) (λ r. refl)
        (on_tid-processes (wake_main memory) p.main_tid s')
        (on_tid-next (wake_main memory) p.main_tid s') (not_checked pid after unchecked) q
        (sym (
            ap (λ u. find_process pid (run memory after u).processes)
              (send_sigint-caught memory pid s p found privilege catching))
          ∙ still) in
    let t = run memory after (send_sigint memory pid s) in
    (
      check-pending pid t q still flag,
      rw (find_process-modify pid clear_pending t.processes q (λ r. refl) still) refl,
    )
