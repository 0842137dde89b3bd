-- ===== src/Task/Process/Kept.antt =====
-- What a call of crates/kernel/src/task/process.rs keeps of the process table.
use kazuos.Prelude.{
  ℕ, Bool, not, ◌&&◌, Option, none, some, List, [], ◌∷◌, ◌++◌, ◌==◌, ltb, ◌≡◌, refl, Bool-cases,
  inl, inr,
}
use kazuos.Task.Thread as ThreadTable
use kazuos.Task.Thread.{create_user_thread}
use kazuos.Task.Process.{
  with_effects, Process, ProcessState, ready, running, sleeping, privilege_level, Tasks,
  find_process, update, with_threads, field_or, main_tid,
}
use kazuos.Task.Process.Signals.{
  is_protected, set_kill, set_sigint, term, catch_mask, clear_pending, set_kill_pending, kill_found,
  kill_pid, children_of, kill_all, kill_children, wake_main, interrupt, send_sigint,
  send_driver_exit, send_sigterm, signal_set_catch, signal_check_and_clear, shutdown_sigterm_all,
  shutdown_sigkill_all,
}
use kazuos.Task.Process.Queries.{is_active_process, live_thread_count}
use kazuos.Task.Process.State.{
  set_running, set_ready, set_sleeping, move_process, add_memory_bytes, sub_memory_bytes,
  set_winsize, set_parent, add_thread_to_process, remove_thread_from_process, spawned,
  spawn_user_thread, remove_process, exit_current_thread, tear_down, releases, user_cr3,
  exit_current, swap_remove, remove_threads, without,
}
use kazuos.Task.Process.Moves.{
  KeepsFlag, KeepsPid, Moves, stay, and_then, on_tid-Moves, update-Moves, for_users-Moves,
  swap_remove-Moves,
}
use kazuos.Task.Process.Calls.{
  Call, spawns, spawns_thread, kills, interrupts, terms, ends_driver, flags, checks, readies,
  sleeps, runs, catches, adds_memory, subs_memory, adopts, exits_thread, exits, sizes,
  shuts_down_term, shuts_down_kill, act,
}

-- What every call but the check of a process's own signals keeps.
pub record IsSticky (get : Process → Bool) : Type 0 where
  pub killed : KeepsFlag get set_kill
  pub interrupted : KeepsFlag get set_sigint
  pub termed : KeepsFlag get term
  pub others :
      (f : Process → Process)
      → ((p : Process)
          → ((f p).sigint_pending ≡ p.sigint_pending) × ((f p).kill_pending ≡ p.kill_pending))
      → KeepsFlag get f

-- The call is not the check of the process itself, or the check keeps the flag.
abbrev pub Allowed : (Process → Bool) → ℕ → Call → Type 0
Allowed get pid (checks k) = k ≡ pid → KeepsFlag get clear_pending
Allowed get pid _ = Unit {0}

-- Every call but the start of a process.
abbrev pub StartsNone : Call → Type 0
StartsNone (spawns stack cpus now name entry top cr3 privilege argc argv) = ⊥
StartsNone _ = Unit {0}

module _ (get : Process → Bool) (sticky : IsSticky get) (pid : ℕ) (memory : ℕ → ℕ) where
  abbrev pub MovesTo : Tasks → Tasks → Type 0
  MovesTo s t = Moves get pid s t

  -- A change of other fields.
  plain :
      (k : ℕ) (f : Process → Process) (s : Tasks)
      → KeepsPid f
      → ((p : Process)
          → ((f p).sigint_pending ≡ p.sigint_pending) × ((f p).kill_pending ≡ p.kill_pending))
      → MovesTo s (update k f s)
  plain k f s keeps same = update-Moves get pid k f s keeps (λ e. sticky.others f same)

  kill_pid-MovesTo : (k : ℕ) (s : Tasks) → MovesTo s (kill_pid k s)
  unfolding kill_pid
  kill_pid-MovesTo k s = elim (Bool-cases (k == 0)) [
    | inl e ↦ rw e (stay get pid s)
    | inr e ↦ rw e (found (find_process k s.processes))
  ]
    where
      found : (o : Option Process) → Moves get pid s (kill_found k s o)
      found none = stay get pid s
      found (some p) = elim (Bool-cases (is_protected p.privilege)) [
        | inl e ↦ rw e (stay get pid s)
        | inr e ↦ rw e (
            on_tid-Moves get pid ThreadTable.set_ready (main_tid k (update k set_kill s)) s
              (update k set_kill s)
              (update-Moves get pid k set_kill s (λ q. refl) (λ q. sticky.killed)))
      ]

  kill_all-MovesTo : (ks : List ℕ) (s : Tasks) → MovesTo s (kill_all ks s)
  unfolding kill_all
  kill_all-MovesTo [] s = stay get pid s
  kill_all-MovesTo (k ∷ ks) s =
      and_then get pid s (kill_pid k s) (kill_all ks (kill_pid k s)) (kill_pid-MovesTo k s)
        (kill_all-MovesTo ks (kill_pid k s))

  send_sigint-MovesTo : (k : ℕ) (s : Tasks) → MovesTo s (send_sigint memory k s)
  unfolding send_sigint
  send_sigint-MovesTo k s = found (find_process k s.processes)
    where
      found : (o : Option Process) → Moves get pid s (interrupt memory k s o)
      found none = stay get pid s
      found (some p) = elim (Bool-cases (is_protected p.privilege)) [
        | inl e ↦ rw e (stay get pid s)
        | inr e ↦ rw e (elim (Bool-cases p.sigint_catch) [
          | inl c ↦ rw c (
              on_tid-Moves get pid (wake_main memory) p.main_tid s (update k set_sigint s)
                (update-Moves get pid k set_sigint s (λ q. refl) (λ q. sticky.interrupted)))
          | inr c ↦ rw c (kill_pid-MovesTo k s)
        ])
      ]

  term-pid : KeepsPid term
  term-pid p = elim (Bool-cases p.sigterm_catch) [ inl e ↦ rw e refl | inr e ↦ rw e refl ]

  moved :
      (state : ProcessState) (p : Process)
      → ((move_process state p).pid ≡ p.pid)
        × ((move_process state p).sigint_pending ≡ p.sigint_pending)
        × ((move_process state p).kill_pending ≡ p.kill_pending)
  moved state p = elim (Bool-cases (is_active_process p.state)) [
    | inl e ↦ rw e (refl, refl, refl)
    | inr e ↦ rw e (refl, refl, refl)
  ]

  move-MovesTo :
      (k : ℕ) (state : ProcessState) (s : Tasks) → MovesTo s (update k (move_process state) s)
  move-MovesTo k state s =
      plain k (move_process state) s (λ p. (moved state p).0)
        (λ p. ((moved state p).1, (moved state p).2))

  exit_thread-MovesTo : (k tid : ℕ) (s : Tasks) → MovesTo s (exit_current_thread memory k tid s)
  unfolding exit_current_thread remove_thread_from_process
  exit_thread-MovesTo k tid s = elim (Bool-cases (tid == 0)) [
    | inl e ↦ rw e (
        plain k (λ p. record p { threads = without tid p.threads }) s (λ p. refl)
          (λ p. (refl, refl)))
    | inr e ↦ rw e (
        plain k (λ p. record p { threads = without tid p.threads }) s (λ p. refl)
          (λ p. (refl, refl)))
  ]

  remove_process-MovesTo : (k : ℕ) (s : Tasks) → MovesTo s (remove_process k s)
  unfolding remove_process
  remove_process-MovesTo k s = found (find_process k s.processes)
    where
      found :
          (o : Option Process)
          → Moves get pid s (
              field_or s
                (λ p.
                  with_threads
                    (remove_threads p.threads)
                    (record s { processes = swap_remove k s.processes }))
                o)
      found none = stay get pid s
      found (some p) = swap_remove-Moves get pid k s

  tear_down-MovesTo : (k tid : ℕ) (s : Tasks) → MovesTo s (tear_down memory k tid s)
  unfolding kill_children
  tear_down-MovesTo k tid s = elim (Bool-cases (k == 0)) [
    | inl e ↦ rw e (plain 0 (λ p. record p { state = running }) s (λ p. refl) (λ p. (refl, refl)))
    | inr e ↦ rw e (
        let s1 = kill_children k s in
        let s2 = with_effects (releases k (user_cr3 k s1)) s1 in
        and_then get pid s s2 (remove_process k s2) (kill_all-MovesTo (children_of k s.processes) s)
          (remove_process-MovesTo k s2))
  ]

  exit-MovesTo : (k tid : ℕ) (s : Tasks) → MovesTo s (exit_current memory k tid s)
  unfolding exit_current set_kill_pending
  exit-MovesTo k tid s = elim (Bool-cases (not (k == 0) && ltb 1 (live_thread_count k s))) [
    | inl e ↦ rw e (
        and_then get pid s (set_kill_pending k s)
          (exit_current_thread memory k tid (set_kill_pending k s))
          (update-Moves get pid k set_kill s (λ q. refl) (λ q. sticky.killed))
          (exit_thread-MovesTo k tid (set_kill_pending k s)))
    | inr e ↦ rw e (elim (Bool-cases (tid == 0)) [
      | inl z ↦ rw z (tear_down-MovesTo k tid s)
      | inr z ↦ rw z (tear_down-MovesTo k tid s)
    ])
  ]

  spawn_thread-MovesTo :
      (stack : Option ℕ) (cpus k : ℕ) (cr3 : Option ℕ) (entry arg top : ℕ) (s : Tasks)
      → MovesTo s (spawn_user_thread stack cpus k cr3 entry arg top s).1
  unfolding spawn_user_thread add_thread_to_process
  spawn_thread-MovesTo stack cpus k none entry arg top s = stay get pid s
  spawn_thread-MovesTo stack cpus k (some cr3) entry arg top s = elim (Bool-cases (k == 0)) [
    | inl e ↦ rw e (stay get pid s)
    | inr e ↦ rw e (
        started (create_user_thread stack cpus k entry top cr3 (privilege_level k s) arg 0 s.table))
  ]
    where
      started : (r : ℕ × ThreadTable.ThreadTable) → Moves get pid s (spawned k r s).1
      started (tid, table) = elim (Bool-cases (tid == 0)) [
        | inl e ↦ rw e (stay get pid s)
        | inr e ↦ rw e (
            plain k (λ p. record p { threads = p.threads ++ tid ∷ [] }) s (λ p. refl)
              (λ p. (refl, refl)))
      ]

  pub act-MovesTo :
      (call : Call) (s : Tasks)
      → StartsNone call
      → Allowed get pid call
      → MovesTo s (act memory call s)
  unfolding act send_sigterm send_driver_exit set_kill_pending signal_check_and_clear
      signal_set_catch set_ready set_sleeping set_running add_memory_bytes sub_memory_bytes
      set_winsize set_parent shutdown_sigterm_all shutdown_sigkill_all
  act-MovesTo (spawns stack cpus now name entry top cr3 privilege argc argv) s no_start allowed =
      absurd no_start
  act-MovesTo (spawns_thread stack cpus k cr3 entry arg top) s no_start allowed =
      spawn_thread-MovesTo stack cpus k cr3 entry arg top s
  act-MovesTo (kills k) s no_start allowed = kill_pid-MovesTo k s
  act-MovesTo (interrupts k) s no_start allowed = send_sigint-MovesTo k s
  act-MovesTo (terms k) s no_start allowed =
      on_tid-Moves get pid ThreadTable.set_ready (main_tid k s) s (update k term s)
        (update-Moves get pid k term s term-pid (λ q. sticky.termed))
  act-MovesTo (ends_driver k) s no_start allowed =
      on_tid-Moves get pid (wake_main memory) (main_tid k s) s (update k set_sigint s)
        (update-Moves get pid k set_sigint s (λ q. refl) (λ q. sticky.interrupted))
  act-MovesTo (flags k) s no_start allowed =
      update-Moves get pid k set_kill s (λ q. refl) (λ q. sticky.killed)
  act-MovesTo (checks k) s no_start allowed =
      update-Moves get pid k clear_pending s (λ q. refl) allowed
  act-MovesTo (readies k) s no_start allowed =
      on_tid-Moves get pid ThreadTable.set_ready (main_tid k s) s (update k (move_process ready) s)
        (move-MovesTo k ready s)
  act-MovesTo (sleeps k) s no_start allowed =
      on_tid-Moves get pid ThreadTable.set_sleeping (main_tid k s) s
        (update k (move_process sleeping) s) (move-MovesTo k sleeping s)
  act-MovesTo (runs k tid) s no_start allowed =
      on_tid-Moves get pid ThreadTable.set_running tid s (update k (move_process running) s)
        (move-MovesTo k running s)
  act-MovesTo (catches k mask) s no_start allowed =
      plain k (catch_mask mask) s (λ p. refl) (λ p. (refl, refl))
  act-MovesTo (adds_memory k bytes) s no_start allowed = plain k _ s (λ p. refl) (λ p. (refl, refl))
  act-MovesTo (subs_memory k bytes) s no_start allowed = plain k _ s (λ p. refl) (λ p. (refl, refl))
  act-MovesTo (adopts k parent) s no_start allowed = plain k _ s (λ p. refl) (λ p. (refl, refl))
  act-MovesTo (sizes k cols rows) s no_start allowed = plain k _ s (λ p. refl) (λ p. (refl, refl))
  act-MovesTo (exits_thread k tid) s no_start allowed = exit_thread-MovesTo k tid s
  act-MovesTo (exits k tid) s no_start allowed = exit-MovesTo k tid s
  act-MovesTo shuts_down_term s no_start allowed =
      for_users-Moves get pid term term-pid sticky.termed s
  act-MovesTo shuts_down_kill s no_start allowed =
      for_users-Moves get pid set_kill (λ q. refl) sticky.killed s
