-- ===== src/Task/Process/Spared.antt =====
-- Which processes `kill_pid` and SIGINT of crates/kernel/src/task/process.rs can end.
use kazuos.Prelude.{
  ℕ, true, false, Option, none, some, List, [], ◌∷◌, ◌==◌, if◌then◌else◌, ◌≡◌, ◌≢◌, refl, sym, ◌∙◌,
  ap, arith, All, Bool-cases, inl, inr, ==_iff, true-false,
}
use kazuos.Task.Types.{Threads}
use kazuos.Task.Thread as ThreadTable
use kazuos.Task.Process.{Process, Tasks, find_process, modify, update, on_tid, main_tid}
use kazuos.Task.Process.Signals.{
  is_protected, set_kill, set_sigint, kill_found, kill_pid, children_of, kill_all, kill_children,
  wake_main, interrupt, send_sigint, term, send_sigterm, send_driver_exit, for_users,
  shutdown_sigterm_all, shutdown_sigkill_all,
}
use kazuos.Task.Process.Queries.{oom_victim}

-- The ways to flag or to signal a process from outside: SIGKILL, SIGINT, the end of a parent, the
-- reclaim of memory (`oom_kill` in crates/kernel/src/syscall/runtime.rs), SIGTERM, the unload
-- of a driver, and the shutdown.
pub data Blow : Type 0 where
  kills interrupts ends_parent reclaims terms ends_driver : ℕ → Blow
  shuts_down_term shuts_down_kill : Blow

-- The blow is not one that ignores the privilege: SIGTERM to the process, its unload as a driver,
-- or, unless it is the kernel's own process, a shutdown.
abbrev pub RespectsPrivilege : ℕ → Blow → Type 0
RespectsPrivilege pid (terms k) = k ≢ pid
RespectsPrivilege pid (ends_driver k) = k ≢ pid
RespectsPrivilege pid shuts_down_term = pid ≡ 0
RespectsPrivilege pid shuts_down_kill = pid ≡ 0
RespectsPrivilege pid _ = Unit {0}

abbrev kill_unless : ℕ → Option ℕ → Tasks → Tasks
kill_unless caller none s = s
kill_unless caller (some victim) s = if victim == caller then s else kill_pid victim s

-- The victim, if it is not the process that asks for memory.
unfoldable pub oom_kill : ℕ → Tasks → Tasks
unfolding oom_victim kill_pid
oom_kill caller s = kill_unless caller (oom_victim 0 s) s

unfoldable pub strike : (ℕ → ℕ) → List Blow → Tasks → Tasks
unfolding kill_pid send_sigint kill_children oom_kill send_sigterm send_driver_exit
    shutdown_sigterm_all shutdown_sigkill_all
strike memory [] s = s
strike memory (kills pid ∷ blows) s = strike memory blows (kill_pid pid s)
strike memory (interrupts pid ∷ blows) s = strike memory blows (send_sigint memory pid s)
strike memory (ends_parent pid ∷ blows) s = strike memory blows (kill_children pid s)
strike memory (reclaims caller ∷ blows) s = strike memory blows (oom_kill caller s)
strike memory (terms pid ∷ blows) s = strike memory blows (send_sigterm pid s)
strike memory (ends_driver pid ∷ blows) s = strike memory blows (send_driver_exit memory pid s)
strike memory (shuts_down_term ∷ blows) s = strike memory blows (shutdown_sigterm_all s)
strike memory (shuts_down_kill ∷ blows) s = strike memory blows (shutdown_sigkill_all s)

-- The shutdown leaves the kernel's own process alone.
find_process-for_users :
    (f : Process → Process) (processes : List Process)
    → ((p : Process) → (f p).pid ≡ p.pid)
    → find_process 0 (for_users f processes) ≡ find_process 0 processes
unfolding find_process for_users
find_process-for_users f [] keeps = refl
find_process-for_users f (p ∷ processes) keeps = elim (Bool-cases (p.pid == 0)) [
  | inl e ↦ rw e (rw e refl)
  | inr e ↦
      let other : (f p).pid == 0 ≡ false = ap (λ n. n == 0) (keeps p) ∙ e in
      rw e (rw other (find_process-for_users f processes keeps))
]

pub find_process-modify_ne :
    (k pid : ℕ) (f : Process → Process) (processes : List Process)
    → ((p : Process) → (f p).pid ≡ p.pid)
    → k ≢ pid
    → find_process pid (modify k f processes) ≡ find_process pid processes
unfolding find_process modify
find_process-modify_ne k pid f [] keeps ne = refl
find_process-modify_ne k pid f (p ∷ processes) keeps ne = elim (Bool-cases (p.pid == k)) [
  | inl e ↦
      let other : (p.pid == pid) ≡ false = ground (arith, ne, (==_iff p.pid k).0 e) in
      rw e (rw (keeps p) (rw other refl))
  | inr e ↦ rw e (
      ap (λ r. if p.pid == pid then some p else r)
        (find_process-modify_ne k pid f processes keeps ne))
]

pub on_tid-processes :
    (f : ℕ → Threads → Threads) (o : Option ℕ) (s : Tasks) → (on_tid f o s).processes ≡ s.processes
on_tid-processes f none s = refl
on_tid-processes f (some tid) s = refl

term-pid : (p : Process) → (term p).pid ≡ p.pid
term-pid p = elim (Bool-cases p.sigterm_catch) [ inl e ↦ rw e refl | inr e ↦ rw e refl ]

module _ (memory : ℕ → ℕ) (pid : ℕ) (p : Process) (safe : is_protected p.privilege ≡ true) where
  IsSpared : Tasks → Type 0
  IsSpared s = find_process pid s.processes ≡ some p

  -- A process that is not protected is another one.
  other :
      (k : ℕ) (s : Tasks) (q : Process)
      → find_process k s.processes ≡ some q
      → is_protected q.privilege ≡ false
      → IsSpared s
      → k ≢ pid
  unfolding IsSpared
  other k s q e b h same =
      let found : some q ≡ some p = sym e ∙ ap (λ j. find_process j s.processes) same ∙ h in
      let eq : q ≡ p = cc in true-false safe (ap (λ r. is_protected r.privilege) (sym eq) ∙ b)

  kill_found-IsSpared :
      (k : ℕ) (s : Tasks) (o : Option Process)
      → find_process k s.processes ≡ o
      → IsSpared s
      → IsSpared (kill_found k s o)
  unfolding IsSpared
  kill_found-IsSpared k s none e h = h
  kill_found-IsSpared k s (some q) e h = elim (Bool-cases (is_protected q.privilege)) [
    | inl b ↦ rw b h
    | inr b ↦ rw b (
        ap (find_process pid) (
          on_tid-processes ThreadTable.set_ready (main_tid k (update k set_kill s))
            (update k set_kill s))
        ∙ find_process-modify_ne k pid set_kill s.processes (λ r. refl) (other k s q e b h)
        ∙ h)
  ]

  kill_pid-IsSpared : (k : ℕ) (s : Tasks) → IsSpared s → IsSpared (kill_pid k s)
  unfolding kill_pid
  kill_pid-IsSpared k s h = elim (Bool-cases (k == 0)) [
    | inl e ↦ rw e h
    | inr e ↦ rw e (kill_found-IsSpared k s (find_process k s.processes) refl h)
  ]

  kill_all-IsSpared : (ks : List ℕ) (s : Tasks) → IsSpared s → IsSpared (kill_all ks s)
  unfolding kill_all
  kill_all-IsSpared [] s h = h
  kill_all-IsSpared (k ∷ ks) s h = kill_all-IsSpared ks (kill_pid k s) (kill_pid-IsSpared k s h)

  kill_unless-IsSpared :
      (caller : ℕ) (o : Option ℕ) (s : Tasks) → IsSpared s → IsSpared (kill_unless caller o s)
  kill_unless-IsSpared caller none s h = h
  kill_unless-IsSpared caller (some k) s h = elim (Bool-cases (k == caller)) [
    | inl e ↦ rw e h
    | inr e ↦ rw e (kill_pid-IsSpared k s h)
  ]

  oom_kill-IsSpared : (caller : ℕ) (s : Tasks) → IsSpared s → IsSpared (oom_kill caller s)
  unfolding oom_kill
  oom_kill-IsSpared caller s h = kill_unless-IsSpared caller (oom_victim 0 s) s h

  interrupt-IsSpared :
      (k : ℕ) (s : Tasks) (o : Option Process)
      → find_process k s.processes ≡ o
      → IsSpared s
      → IsSpared (interrupt memory k s o)
  unfolding IsSpared
  interrupt-IsSpared k s none e h = h
  interrupt-IsSpared k s (some q) e h = elim (Bool-cases (is_protected q.privilege)) [
    | inl b ↦ rw b h
    | inr b ↦ rw b (elim (Bool-cases q.sigint_catch) [
      | inl c ↦ rw c (
          ap (find_process pid)
            (on_tid-processes (wake_main memory) q.main_tid (update k set_sigint s))
          ∙ find_process-modify_ne k pid set_sigint s.processes (λ r. refl) (other k s q e b h)
          ∙ h)
      | inr c ↦ rw c (kill_pid-IsSpared k s h)
    ])
  ]

  send_sigterm-IsSpared : (k : ℕ) (s : Tasks) → k ≢ pid → IsSpared s → IsSpared (send_sigterm k s)
  unfolding IsSpared send_sigterm
  send_sigterm-IsSpared k s ne h =
      ap (find_process pid)
        (on_tid-processes ThreadTable.set_ready (main_tid k s) (update k term s))
      ∙ find_process-modify_ne k pid term s.processes term-pid ne
      ∙ h

  send_driver_exit-IsSpared :
      (k : ℕ) (s : Tasks) → k ≢ pid → IsSpared s → IsSpared (send_driver_exit memory k s)
  unfolding IsSpared send_driver_exit
  send_driver_exit-IsSpared k s ne h =
      ap (find_process pid)
        (on_tid-processes (wake_main memory) (main_tid k s) (update k set_sigint s))
      ∙ find_process-modify_ne k pid set_sigint s.processes (λ r. refl) ne
      ∙ h

  shutdown-IsSpared :
      (f : Process → Process) (s : Tasks)
      → ((q : Process) → (f q).pid ≡ q.pid)
      → pid ≡ 0
      → IsSpared s
      → find_process pid (for_users f s.processes) ≡ some p
  unfolding IsSpared
  shutdown-IsSpared f s keeps zero h =
      ap (λ j. find_process j (for_users f s.processes)) zero
      ∙ find_process-for_users f s.processes keeps
      ∙ ap (λ j. find_process j s.processes) (sym zero)
      ∙ h

  shutdown_sigterm-IsSpared : (s : Tasks) → pid ≡ 0 → IsSpared s → IsSpared (shutdown_sigterm_all s)
  unfolding IsSpared shutdown_sigterm_all
  shutdown_sigterm-IsSpared s zero h = shutdown-IsSpared term s term-pid zero h

  shutdown_sigkill-IsSpared : (s : Tasks) → pid ≡ 0 → IsSpared s → IsSpared (shutdown_sigkill_all s)
  unfolding IsSpared shutdown_sigkill_all
  shutdown_sigkill-IsSpared s zero h = shutdown-IsSpared set_kill s (λ q. refl) zero h

  strike-IsSpared :
      (blows : List Blow) (s : Tasks)
      → All (RespectsPrivilege pid) blows
      → IsSpared s
      → IsSpared (strike memory blows s)
  unfolding strike send_sigint kill_children
  strike-IsSpared [] s a h = h
  strike-IsSpared (kills k ∷ blows) s a h =
      strike-IsSpared blows (kill_pid k s) a.1 (kill_pid-IsSpared k s h)
  strike-IsSpared (interrupts k ∷ blows) s a h =
      strike-IsSpared blows (send_sigint memory k s) a.1
        (interrupt-IsSpared k s (find_process k s.processes) refl h)
  strike-IsSpared (ends_parent k ∷ blows) s a h =
      strike-IsSpared blows (kill_children k s) a.1
        (kill_all-IsSpared (children_of k s.processes) s h)
  strike-IsSpared (reclaims k ∷ blows) s a h =
      strike-IsSpared blows (oom_kill k s) a.1 (oom_kill-IsSpared k s h)
  strike-IsSpared (terms k ∷ blows) s a h =
      strike-IsSpared blows (send_sigterm k s) a.1 (send_sigterm-IsSpared k s a.0 h)
  strike-IsSpared (ends_driver k ∷ blows) s a h =
      strike-IsSpared blows (send_driver_exit memory k s) a.1 (send_driver_exit-IsSpared k s a.0 h)
  strike-IsSpared (shuts_down_term ∷ blows) s a h =
      strike-IsSpared blows (shutdown_sigterm_all s) a.1 (shutdown_sigterm-IsSpared s a.0 h)
  strike-IsSpared (shuts_down_kill ∷ blows) s a h =
      strike-IsSpared blows (shutdown_sigkill_all s) a.1 (shutdown_sigkill-IsSpared s a.0 h)

-- A driver, a system process or the kernel's own process keeps its record as it was, so it is
-- never flagged to die, through SIGKILL and SIGINT to any process, the ends of parents and the
-- reclaims of memory, in any number and order; and through SIGTERM and driver unloads that are
-- aimed at other processes. Of a shutdown this holds for the process 0 only.
pub protected_spared :
    (memory : ℕ → ℕ) (blows : List Blow) (s : Tasks) (pid : ℕ) (p : Process)
    → find_process pid s.processes ≡ some p
    → is_protected p.privilege ≡ true
    → All (RespectsPrivilege pid) blows
    → find_process pid (strike memory blows s).processes ≡ some p
unfolding IsSpared
protected_spared memory blows s pid p found safe fair =
    strike-IsSpared memory pid p safe blows s fair found
