-- ===== src/Task/Process/Held.antt =====
-- A flag of a process of crates/kernel/src/task/process.rs, through any calls.
use kazuos.Prelude.{
  ℕ, ◌+◌, ◌^◌, ◌≤◌, ◌<◌, Bool, true, Option, none, some, List, [], ◌∷◌, ◌++◌, ◌==◌, ltb,
  if◌then◌else◌, ◌≡◌, ◌≢◌, refl, sym, ◌∙◌, ap, arith, length, All, Bool-cases, inl, inr, ==_iff,
  true-false, ltb→lt,
}
use kazuos.Task.Types.{Threads}
use kazuos.Task.Process.{Process, Tasks, init, find_process, modify, on_tid}
use kazuos.Task.Process.Queries.{count_where}
use kazuos.Task.Process.Moves.{pid_count, KeepsPid, AllFlagged, update-Moves}
use kazuos.Task.Process.Calls.{
  Call, spawns, spawns_thread, kills, interrupts, terms, ends_driver, flags, checks, readies,
  sleeps, runs, catches, adds_memory, subs_memory, adopts, exits_thread, exits, sizes,
  shuts_down_term, shuts_down_kill, act, run,
}
use kazuos.Task.Process.Kept.{IsSticky, Allowed, act-MovesTo}
use kazuos.Task.Process.Distinct.{
  IsDistinct, Started, starts_or_none, act-IsDistinct, run-IsDistinct, init-IsDistinct,
}

AllFlagged-append :
    (get : Process → Bool) (pid : ℕ) (p : Process) (processes : List Process)
    → p.pid ≢ pid
    → AllFlagged get pid processes
    → AllFlagged get pid (processes ++ p ∷ [])
AllFlagged-append get pid p [] ne a = (λ e. absurd (ne e), tt)
AllFlagged-append get pid p (q ∷ processes) ne a =
    (a.0, AllFlagged-append get pid p processes ne (a.1))

module _ (get : Process → Bool) (sticky : IsSticky get) (pid : ℕ) (memory : ℕ → ℕ) where
  -- The flag of a process that was started, in a table of distinct ids.
  abbrev IsHeld : ℕ → Tasks → Type 0
  IsHeld n s = IsDistinct n s × AllFlagged get pid s.processes × (pid < s.next_pid)

  Started-IsHeld :
      (n : ℕ) (s t : Tasks)
      → n + 2 < 2 ^ 64
      → Started s t
      → IsHeld n s
      → AllFlagged get pid t.processes × (pid < t.next_pid)
  Started-IsHeld n s t room (inl (e, k)) (d, a, l) = (rw e a, omega (arith, k, l))
  Started-IsHeld n s t room (inr (p, at, e, k)) (d, a, l) = (
    rw e (AllFlagged-append get pid p s.processes (λ q. absurd (omega (arith, q, at, l))) a),
    omega (arith, k, l, d.2, room),
  )

  act-IsHeld :
      (n : ℕ) (call : Call) (s : Tasks)
      → n + 2 < 2 ^ 64
      → Allowed get pid call
      → IsHeld n s
      → IsHeld (n + 1) (act memory call s)
  act-IsHeld n call s room allowed (d, a, l) =
      let rest : AllFlagged get pid (act memory call s).processes
          × (pid < (act memory call s).next_pid) =
        elim (starts_or_none memory call s) [
          | inl e ↦ Started-IsHeld n s (act memory call s) room e (d, a, l)
          | inr e ↦
              let m = act-MovesTo get sticky pid memory call s e allowed in
              (m.0 a, omega (arith, m.2, l))
        ] in
      (act-IsDistinct memory n call s room d, rest.0, rest.1)

  run-IsHeld :
      (calls : List Call) (n : ℕ) (s : Tasks)
      → n + length calls + 1 < 2 ^ 64
      → All (Allowed get pid) calls
      → IsHeld n s
      → AllFlagged get pid (run memory calls s).processes
  unfolding run
  run-IsHeld [] n s room allowed h = h.1
  run-IsHeld (call ∷ calls) n s room allowed h =
      run-IsHeld calls (n + 1) (act memory call s) (omega (arith, room)) (allowed.1)
        (act-IsHeld n call s (omega (arith, room)) (allowed.0) h)

AllFlagged-none :
    (get : Process → Bool) (pid : ℕ) (processes : List Process)
    → pid_count pid processes ≡ 0
    → AllFlagged get pid processes
unfolding count_where
AllFlagged-none get pid [] e = tt
AllFlagged-none get pid (p ∷ processes) e = elim (Bool-cases (p.pid == pid)) [
  | inl b ↦ absurd (ground (arith, e, b))
  | inr b ↦ (
    (λ q. absurd (true-false ((==_iff p.pid pid).1 q) b)),
    AllFlagged-none get pid processes (ground (arith, e, b)),
  )
]

-- A change that sets the flag, of the only process with the id.
AllFlagged-modify :
    (get : Process → Bool) (pid : ℕ) (f : Process → Process) (processes : List Process)
    → ((p : Process) → get (f p) ≡ true)
    → pid_count pid processes ≤ 1
    → AllFlagged get pid (modify pid f processes)
unfolding modify count_where
AllFlagged-modify get pid f [] sets one = tt
AllFlagged-modify get pid f (p ∷ processes) sets one = elim (Bool-cases (p.pid == pid)) [
  | inl b ↦ rw b ((λ q. sets p), AllFlagged-none get pid processes (ground (arith, one, b)))
  | inr b ↦ rw b (
    (λ q. absurd (true-false ((==_iff p.pid pid).1 q) b)),
    AllFlagged-modify get pid f processes sets (ground (arith, one, b)),
  )
]

find_process-AllFlagged :
    (get : Process → Bool) (pid : ℕ) (processes : List Process) (p : Process)
    → AllFlagged get pid processes
    → find_process pid processes ≡ some p
    → get p ≡ true
unfolding find_process
find_process-AllFlagged get pid [] p a found = absurd (none_some found)
  where
    none_some : none ≡ some p → ⊥
    none_some e = absurd cc
find_process-AllFlagged get pid (q ∷ processes) p a found = elim (Bool-cases (q.pid == pid)) [
  | inl b ↦
      let same : some q ≡ some p =
        sym (ap (λ t. if t then some q else find_process pid processes) b) ∙ found in
      let eq : q ≡ p = cc in ap get (sym eq) ∙ a.0 ((==_iff q.pid pid).0 b)
  | inr b ↦
      find_process-AllFlagged get pid processes p (a.1)
        (sym (ap (λ t. if t then some q else find_process pid processes) b) ∙ found)
]

find_process-count :
    (pid : ℕ) (processes : List Process) (p : Process)
    → find_process pid processes ≡ some p
    → 1 ≤ pid_count pid processes
unfolding find_process count_where
find_process-count pid [] p found = absurd (none_some found)
  where
    none_some : none ≡ some p → ⊥
    none_some e = absurd cc
find_process-count pid (q ∷ processes) p found = elim (Bool-cases (q.pid == pid)) [
  | inl b ↦ ground (arith, b)
  | inr b ↦
      let rest =
        find_process-count pid processes p
          (sym (ap (λ t. if t then some q else find_process pid processes) b) ∙ found) in
      ground (arith, b, rest)
]

abbrev pub sigint_flag : Process → Bool
sigint_flag p = p.sigint_pending

abbrev pub kill_flag : Process → Bool
kill_flag p = p.kill_pending

pub sigint_flag-IsSticky : IsSticky sigint_flag
sigint_flag-IsSticky = record {
  killed = λ p h. h;
  interrupted = λ p h. refl;
  termed = λ p h. elim (Bool-cases p.sigterm_catch) [ inl e ↦ rw e h | inr e ↦ rw e h ];
  others = λ f same p h. (same p).0 ∙ h;
}

pub kill_flag-IsSticky : IsSticky kill_flag
kill_flag-IsSticky = record {
  killed = λ p h. refl;
  interrupted = λ p h. h;
  termed = λ p h. elim (Bool-cases p.sigterm_catch) [ inl e ↦ rw e h | inr e ↦ rw e refl ];
  others = λ f same p h. (same p).1 ∙ h;
}

pub on_tid-next :
    (f : ℕ → Threads → Threads) (o : Option ℕ) (s : Tasks) → (on_tid f o s).next_pid ≡ s.next_pid
on_tid-next f none s = refl
on_tid-next f (some tid) s = refl

pub run-old :
    (memory : ℕ → ℕ) (before : List Call)
    → length before + 1 < 2 ^ 64
    → IsDistinct (length before) (run memory before init)
run-old memory before room =
    let d = run-IsDistinct memory before 0 init (omega (arith, room)) init-IsDistinct in
    (d.0, d.1, omega (arith, d.2))

started_before :
    (n pid : ℕ) (s : Tasks) (p : Process)
    → IsDistinct n s
    → find_process pid s.processes ≡ some p
    → pid < s.next_pid
started_before n pid s p d found = elim (Bool-cases (ltb pid s.next_pid)) [
  | inl e ↦ ltb→lt pid s.next_pid e
  | inr e ↦
      absurd
        (omega (arith, find_process-count pid s.processes p found, d.1 pid (ground (arith, e))))
]

-- The flag is set in `s` and then kept.
module _ (get : Process → Bool) (sticky : IsSticky get) (memory : ℕ → ℕ) (n pid : ℕ) (p : Process)
    (f : Process → Process) (s : Tasks) where
  pub kept_after :
      (after : List Call) (t : Tasks)
      → n + length after + 1 < 2 ^ 64
      → IsDistinct n s
      → find_process pid s.processes ≡ some p
      → KeepsPid f
      → ((q : Process) → get (f q) ≡ true)
      → t.processes ≡ modify pid f s.processes
      → t.next_pid ≡ s.next_pid
      → All (Allowed get pid) after
      → (q : Process) → find_process pid (run memory after t).processes ≡ some q
      → get q ≡ true
  kept_after after t room d found keeps sets changed next allowed q still =
      let m = update-Moves get pid pid f s keeps (λ e r h. sets r) in
      find_process-AllFlagged get pid (run memory after t).processes q
        (run-IsHeld get sticky pid memory after n t room allowed (
          (
            λ j. rw changed (omega (arith, m.1 j, d.0 j)),
            λ j l. rw changed (omega (arith, m.1 j, d.1 j (omega (arith, l, next)))),
            omega (arith, next, d.2),
          ),
          rw changed (AllFlagged-modify get pid f s.processes sets (d.0 pid)),
          omega (arith, next, started_before n pid s p d found),
        ))
        still

pub not_checked :
    (pid : ℕ) (calls : List Call)
    → All (λ call. call ≢ checks pid) calls
    → All (Allowed sigint_flag pid) calls
not_checked pid [] a = tt
not_checked pid (call ∷ calls) a = (one call (a.0), not_checked pid calls (a.1))
  where
    one : (call : Call) → call ≢ checks pid → Allowed sigint_flag pid call
    one (spawns stack cpus now name entry top cr3 privilege argc argv) ne = tt
    one (spawns_thread stack cpus k cr3 entry arg top) ne = tt
    one (kills k) ne = tt
    one (interrupts k) ne = tt
    one (terms k) ne = tt
    one (ends_driver k) ne = tt
    one (flags k) ne = tt
    one (readies k) ne = tt
    one (sleeps k) ne = tt
    one (runs k tid) ne = tt
    one (catches k mask) ne = tt
    one (adds_memory k bytes) ne = tt
    one (subs_memory k bytes) ne = tt
    one (adopts k parent) ne = tt
    one (exits_thread k tid) ne = tt
    one (exits k tid) ne = tt
    one (sizes k cols rows) ne = tt
    one shuts_down_term ne = tt
    one shuts_down_kill ne = tt
    one (checks k) ne = λ e. absurd (ne (ap checks e))
