-- ===== src/Task/Process/Tests.antt =====
-- A shell that catches SIGINT, a driver, and a process that uses memory.
use kazuos.Prelude.{ℕ, ◌≤◌, true, some, List, [], ◌∷◌, ◌≡◌, refl, arith, ap}
use kazuos.Task.Types.{PrivilegeLevel, driver, user}
use kazuos.Task.Process.{Process, Tasks, init, kernel_process, find_process, field_or}
use kazuos.Task.Process.Signals.{has_sigint, kill_pid, send_sigint, signal_check_and_clear}
use kazuos.Task.Process.Queries.{oom_victim, next_pid_after}
use kazuos.Task.Process.Spared.{
  Blow, kills, interrupts, ends_parent, reclaims, terms, strike, protected_spared,
}
use kazuos.Task.Process.Calls
use kazuos.Task.Process.Calls.{Call, run}
use kazuos.Task.Process.Moves.{pid_count}
use kazuos.Task.Process.Distinct.{pids_distinct}
use kazuos.Task.Process.Pending.{kill_is_final, sigint_delivered}
use kazuos.Task.Process.Victim.{IsVictim, oom_victim-IsVictim}

abbrev memory : ℕ → ℕ
memory address = 0

abbrev start : PrivilegeLevel → Call
start privilege = Calls.spawns (some 4096) 1 7 (115 ∷ 104 ∷ []) 8192 16384 12288 privilege 0 0

abbrev before : List Call
before = start driver ∷ start user ∷ Calls.catches 2 1 ∷ Calls.adds_memory 2 4096 ∷ start user ∷ []

abbrev after : List Call
after = Calls.readies 2 ∷ Calls.checks 3 ∷ Calls.exits 3 3 ∷ []

-- The process `pid` of a table that has it.
abbrev process : ℕ → Tasks → Process
process pid s = field_or kernel_process (λ p. p) (find_process pid s.processes)

next_pid : next_pid_after 1 (run memory before init) ≡ some 2
unfolding next_pid_after run
next_pid = refl

victim : oom_victim 0 (run memory before init) ≡ some 2
unfolding oom_victim run
victim = refl

-- The driver has the id 1; the blows also hit the processes 2 and 3.
abbrev blows : List Blow
blows = kills 1 ∷ interrupts 1 ∷ ends_parent 0 ∷ reclaims 9 ∷ terms 2 ∷ []

protected_spared_example :
    let s = run memory before init in
    find_process 1 (strike memory blows s).processes ≡ some (process 1 s)
unfolding run
protected_spared_example =
    let s = run memory before init in
    protected_spared memory blows s 1 (process 1 s) refl refl
      (tt, (tt, (tt, (tt, ((λ e. absurd (ground (arith, e))), tt)))))

driver_found :
    find_process 1 (strike memory blows (run memory before init)).processes
    ≡ some (process 1 (run memory before init))
unfolding strike run
driver_found = refl

-- The driver uses the most memory and process 2 is to be spared: 3 is left.
abbrev with_driver : List Call
with_driver =
    start driver
    ∷ start user
    ∷ start user
    ∷ Calls.adds_memory 1 8192
    ∷ Calls.adds_memory 2 4096
    ∷ []

spared_victims :
    let s = run memory with_driver init in (oom_victim 2 s ≡ some 3) × (oom_victim 3 s ≡ some 2)
unfolding oom_victim run
spared_victims = (refl, refl)

oom_victim-IsVictim_example :
    let s = run memory with_driver init in IsVictim 2 s.processes (oom_victim 2 s)
oom_victim-IsVictim_example = oom_victim-IsVictim 2 (run memory with_driver init)

pids_distinct_example :
    let s = run memory before init in
    (pid_count 2 s.processes ≤ 1) × (s.next_pid ≤ 2 → pid_count 2 s.processes ≡ 0)
pids_distinct_example = pids_distinct memory before (omega arith) 2

kill_is_final_example :
    (process 2 (run memory after (kill_pid 2 (run memory before init)))).kill_pending ≡ true
unfolding run
kill_is_final_example =
    let s = run memory before init in
    kill_is_final memory before after 2 (process 2 s) (process 2 (run memory after (kill_pid 2 s)))
      (omega arith) (ground arith) refl refl refl

sigint_delivered_example :
    let t = run memory after (send_sigint memory 2 (run memory before init)) in
    let (mask, t') = signal_check_and_clear 2 t in
    (has_sigint mask ≡ true) × ((signal_check_and_clear 2 t').0 ≡ 0)
unfolding run
sigint_delivered_example =
    let s = run memory before init in
    sigint_delivered memory before after 2 (process 2 s)
      (process 2 (run memory after (send_sigint memory 2 s))) (omega arith) refl refl refl
      (
        (λ e. absurd cc),
        ((λ e. absurd (ground (arith, ap pid_of_check e))), ((λ e. absurd cc), tt)),
      )
      refl
  where
    pid_of_check : Call → ℕ
    pid_of_check (Calls.checks k) = k
    pid_of_check _ = 0
