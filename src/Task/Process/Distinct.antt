-- ===== src/Task/Process/Distinct.antt =====
-- No two processes of crates/kernel/src/task/process.rs have one id.
use kazuos.Prelude.{
  ℕ, ◌+◌, ◌^◌, ◌≤◌, ◌<◌, Bool, false, Option, List, [], ◌∷◌, ◌++◌, ◌==◌, if◌then◌else◌, ◌≡◌, ◌⊎◌,
  refl, arith, length, Bool-cases, inl, inr, ==_iff, add64,
}
use kazuos.Task.Types.{PrivilegeLevel}
use kazuos.Task.Thread.{create_kernel_thread}
use kazuos.Task.Process.{Process, Tasks, init, new_process, create_process, spawn_user_process}
use kazuos.Task.Process.Signals.{clear_pending}
use kazuos.Task.Process.Queries.{count_where}
use kazuos.Task.Process.Moves.{pid_count, KeepsFlag}
use kazuos.Task.Process.Calls.{
  Call, spawns, spawns_thread, kills, interrupts, terms, ends_driver, flags, checks, readies,
  sleeps, runs, catches, adds_memory, subs_memory, adopts, exits_thread, exits, sizes,
  shuts_down_term, shuts_down_kill, act, run,
}
use kazuos.Task.Process.Kept.{IsSticky, Allowed, StartsNone, act-MovesTo}

-- No id twice, and none that is still to come.
abbrev pub IsDistinct : ℕ → Tasks → Type 0
IsDistinct n s =
    ((j : ℕ) → pid_count j s.processes ≤ 1)
    × ((j : ℕ) → s.next_pid ≤ j → pid_count j s.processes ≡ 0)
    × (s.next_pid ≤ n + 1)

-- A start adds a process with the next id, or none.
abbrev pub Started : Tasks → Tasks → Type 0
Started s t =
    ((t.processes ≡ s.processes) × (t.next_pid ≡ s.next_pid))
    ⊎ ((p : Process) × (p.pid ≡ s.next_pid)
        × (t.processes ≡ s.processes ++ p ∷ [])
        × (t.next_pid ≡ add64 s.next_pid 1))

spawn-Started :
    (stack : Option ℕ) (cpus now : ℕ) (name : List ℕ) (entry top cr3 : ℕ)
    (privilege : PrivilegeLevel) (argc argv : ℕ) (s : Tasks)
    → Started s (spawn_user_process stack cpus now name entry top cr3 privilege argc argv s).1
unfolding spawn_user_process create_process
spawn-Started stack cpus now name entry top cr3 privilege argc argv s =
    elim (Bool-cases ((create_kernel_thread stack cpus 0 privilege s.table).0 == 0)) [
      | inl e ↦ rw e (inl (refl, refl))
      | inr e ↦ rw e (elim (Bool-cases (s.next_pid == 0)) [
        | inl z ↦ rw z (inr (new_process s.next_pid name now privilege _, refl, refl, refl))
        | inr z ↦ rw z (inr (new_process s.next_pid name now privilege _, refl, refl, refl))
      ])
    ]

pid_count-append :
    (j : ℕ) (p : Process) (processes : List Process)
    → pid_count j (processes ++ p ∷ []) ≡ pid_count j processes + (if p.pid == j then 1 else 0)
unfolding count_where
pid_count-append j p [] = ground arith
pid_count-append j p (q ∷ processes) = ground (arith, pid_count-append j p processes)

Started-IsDistinct :
    (n : ℕ) (s t : Tasks) → n + 2 < 2 ^ 64 → Started s t → IsDistinct n s → IsDistinct (n + 1) t
Started-IsDistinct n s t room (inl (e, k)) d =
    (λ j. rw e (d.0 j), λ j l. rw e (d.1 j (omega (arith, l, k))), omega (arith, k, d.2))
Started-IsDistinct n s t room (inr (p, at, e, k)) d =
    let step : t.next_pid ≡ s.next_pid + 1 = omega (arith, k, d.2, room) in
    (
      λ j. rw e (one j),
      λ j l. rw e (
          ground
            (arith, pid_count-append j p s.processes, d.1 j (omega (arith, l, step)), at, l, step)),
      omega (arith, step, d.2),
    )
  where
    one : (j : ℕ) → pid_count j (s.processes ++ p ∷ []) ≤ 1
    one j = elim (Bool-cases (p.pid == j)) [
      | inl b ↦
          let none : pid_count j s.processes ≡ 0 =
            d.1 j (omega (arith, at, (==_iff p.pid j).0 b)) in
          ground (arith, pid_count-append j p s.processes, none, b)
      | inr b ↦ ground (arith, pid_count-append j p s.processes, d.0 j, b)
    ]

abbrev no_flag : Process → Bool
no_flag p = false

no_flag-IsSticky : IsSticky no_flag
no_flag-IsSticky = record {
  killed = λ p h. h;
  interrupted = λ p h. h;
  termed = λ p h. h;
  others = λ f e p h. h;
}

-- What no call but a start needs.
pub clear-Allowed :
    (get : Process → Bool) (pid : ℕ) (call : Call)
    → KeepsFlag get clear_pending
    → Allowed get pid call
clear-Allowed get pid (checks k) h = λ e. h
clear-Allowed get pid (spawns stack cpus now name entry top cr3 privilege argc argv) h = tt
clear-Allowed get pid (spawns_thread stack cpus k cr3 entry arg top) h = tt
clear-Allowed get pid (kills k) h = tt
clear-Allowed get pid (interrupts k) h = tt
clear-Allowed get pid (terms k) h = tt
clear-Allowed get pid (ends_driver k) h = tt
clear-Allowed get pid (flags k) h = tt
clear-Allowed get pid (readies k) h = tt
clear-Allowed get pid (sleeps k) h = tt
clear-Allowed get pid (runs k tid) h = tt
clear-Allowed get pid (catches k mask) h = tt
clear-Allowed get pid (adds_memory k bytes) h = tt
clear-Allowed get pid (subs_memory k bytes) h = tt
clear-Allowed get pid (adopts k parent) h = tt
clear-Allowed get pid (exits_thread k tid) h = tt
clear-Allowed get pid (exits k tid) h = tt
clear-Allowed get pid (sizes k cols rows) h = tt
clear-Allowed get pid shuts_down_term h = tt
clear-Allowed get pid shuts_down_kill h = tt

abbrev pub StartsOrNone : (ℕ → ℕ) → Call → Tasks → Type 0
StartsOrNone memory call s = Started s (act memory call s) ⊎ StartsNone call

pub starts_or_none : (memory : ℕ → ℕ) (call : Call) (s : Tasks) → StartsOrNone memory call s
unfolding act
starts_or_none memory (spawns stack cpus now name entry top cr3 privilege argc argv) s =
    inl (spawn-Started stack cpus now name entry top cr3 privilege argc argv s)
starts_or_none memory (spawns_thread stack cpus k cr3 entry arg top) s = inr tt
starts_or_none memory (kills k) s = inr tt
starts_or_none memory (interrupts k) s = inr tt
starts_or_none memory (terms k) s = inr tt
starts_or_none memory (ends_driver k) s = inr tt
starts_or_none memory (flags k) s = inr tt
starts_or_none memory (readies k) s = inr tt
starts_or_none memory (sleeps k) s = inr tt
starts_or_none memory (runs k tid) s = inr tt
starts_or_none memory (catches k mask) s = inr tt
starts_or_none memory (adds_memory k bytes) s = inr tt
starts_or_none memory (subs_memory k bytes) s = inr tt
starts_or_none memory (adopts k parent) s = inr tt
starts_or_none memory (exits_thread k tid) s = inr tt
starts_or_none memory (exits k tid) s = inr tt
starts_or_none memory (sizes k cols rows) s = inr tt
starts_or_none memory (checks k) s = inr tt
starts_or_none memory shuts_down_term s = inr tt
starts_or_none memory shuts_down_kill s = inr tt

module _ (memory : ℕ → ℕ) where
  pub act-IsDistinct :
      (n : ℕ) (call : Call) (s : Tasks)
      → n + 2 < 2 ^ 64
      → IsDistinct n s
      → IsDistinct (n + 1) (act memory call s)
  act-IsDistinct n call s room d = elim (starts_or_none memory call s) [
    | inl e ↦ Started-IsDistinct n s (act memory call s) room e d
    | inr e ↦
        let m =
          act-MovesTo no_flag no_flag-IsSticky 0 memory call s e
            (clear-Allowed no_flag 0 call (λ p h. h)) in
        (
          λ j. omega (arith, m.1 j, d.0 j),
          λ j l. omega (arith, m.1 j, d.1 j (omega (arith, l, m.2))),
          omega (arith, m.2, d.2),
        )
  ]

  pub run-IsDistinct :
      (calls : List Call) (n : ℕ) (s : Tasks)
      → n + length calls + 1 < 2 ^ 64
      → IsDistinct n s
      → IsDistinct (n + length calls) (run memory calls s)
  unfolding run
  run-IsDistinct [] n s room d = (d.0, d.1, omega (arith, d.2))
  run-IsDistinct (call ∷ calls) n s room d =
      let r =
        run-IsDistinct calls (n + 1) (act memory call s) (omega (arith, room))
          (act-IsDistinct n call s (omega (arith, room)) d) in
      (r.0, r.1, omega (arith, r.2))

pub init-IsDistinct : IsDistinct 0 init
unfolding count_where
init-IsDistinct = (λ j. ground arith, λ j l. ground (arith, l), omega arith)

-- After any calls, fewer than 2^64 - 1, no two processes of the table have the same id, and none
-- has an id that is still to be given.
pub pids_distinct :
    (memory : ℕ → ℕ) (calls : List Call)
    → length calls + 1 < 2 ^ 64
    → (j : ℕ)
    → let s = run memory calls init in
      (pid_count j s.processes ≤ 1) × (s.next_pid ≤ j → pid_count j s.processes ≡ 0)
pids_distinct memory calls room j =
    let d = run-IsDistinct memory calls 0 init (omega (arith, room)) init-IsDistinct in
    (d.0 j, d.1 j)
