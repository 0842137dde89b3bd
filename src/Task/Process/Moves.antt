-- ===== src/Task/Process/Moves.antt =====
-- How the process table of crates/kernel/src/task/process.rs may change besides the start of a
-- process: records change but keep their ids, and records leave.
use kazuos.Prelude.{
  ℕ, ◌+◌, ◌≤◌, Bool, true, false, Option, none, some, List, [], ◌∷◌, ◌==◌, if◌then◌else◌, ◌≡◌, refl,
  sym, ◌∙◌, ap, arith, All, Bool-cases, inl, inr, ==_iff,
}
use kazuos.Task.Types.{Threads}
use kazuos.Task.Process.{Process, Tasks, modify, update, on_tid}
use kazuos.Task.Process.Signals.{for_users}
use kazuos.Task.Process.Queries.{count_where}
use kazuos.Task.Process.State.{last_or, but_last, in_place, swap_remove}

abbrev pub pid_count : ℕ → List Process → ℕ
pid_count j = count_where (λ p. p.pid == j)

-- A flag that a change never takes back.
abbrev pub KeepsFlag : (Process → Bool) → (Process → Process) → Type 0
KeepsFlag get f = (p : Process) → get p ≡ true → get (f p) ≡ true

abbrev pub KeepsPid : (Process → Process) → Type 0
KeepsPid f = (p : Process) → (f p).pid ≡ p.pid

module _ (get : Process → Bool) (pid : ℕ) where
  -- Each process with the id has the flag.
  abbrev pub AllFlagged : List Process → Type 0
  AllFlagged = All (λ p. p.pid ≡ pid → get p ≡ true)

  -- The flag stays, no id is new, and `NEXT_PID` is as before.
  abbrev pub Moves : Tasks → Tasks → Type 0
  Moves s s' =
      (AllFlagged s.processes → AllFlagged s'.processes)
      × ((j : ℕ) → pid_count j s'.processes ≤ pid_count j s.processes)
      × (s'.next_pid ≡ s.next_pid)

  pub stay : (s : Tasks) → Moves s s
  stay s = (λ a. a, λ j. omega arith, refl)

  pub and_then : (s t u : Tasks) → Moves s t → Moves t u → Moves s u
  and_then s t u m n = (λ a. n.0 (m.0 a), λ j. omega (arith, m.1 j, n.1 j), n.2 ∙ m.2)

  pub on_tid-Moves :
      (f : ℕ → Threads → Threads) (o : Option ℕ) (s t : Tasks) → Moves s t → Moves s (on_tid f o t)
  on_tid-Moves f none s t m = m
  on_tid-Moves f (some tid) s t m = m

  module _ (k : ℕ) (f : Process → Process) (keeps_pid : KeepsPid f)
      (keeps : k ≡ pid → KeepsFlag get f) where
    modify-AllFlagged :
        (processes : List Process) → AllFlagged processes → AllFlagged (modify k f processes)
    unfolding modify
    modify-AllFlagged [] a = tt
    modify-AllFlagged (p ∷ processes) a = elim (Bool-cases (p.pid == k)) [
      | inl e ↦ rw e (
        (λ q.
            let same : p.pid ≡ pid = sym (keeps_pid p) ∙ q in
            keeps (sym ((==_iff p.pid k).0 e) ∙ same) p (a.0 same)),
        a.1,
      )
      | inr e ↦ rw e (a.0, modify-AllFlagged processes (a.1))
    ]

  modify-pid_count :
      (k j : ℕ) (f : Process → Process) (processes : List Process)
      → KeepsPid f
      → pid_count j (modify k f processes) ≡ pid_count j processes
  unfolding modify count_where
  modify-pid_count k j f [] keeps_pid = refl
  modify-pid_count k j f (p ∷ processes) keeps_pid = elim (Bool-cases (p.pid == k)) [
    | inl e ↦ rw e (rw (keeps_pid p) refl)
    | inr e ↦
        rw e
          (ap (λ n. if p.pid == j then 1 + n else n) (modify-pid_count k j f processes keeps_pid))
  ]

  pub update-Moves :
      (k : ℕ) (f : Process → Process) (s : Tasks)
      → KeepsPid f
      → (k ≡ pid → KeepsFlag get f)
      → Moves s (update k f s)
  update-Moves k f s keeps_pid keeps = (
    modify-AllFlagged k f keeps_pid keeps s.processes,
    λ j. omega (arith, modify-pid_count k j f s.processes keeps_pid),
    refl,
  )

  module _ (f : Process → Process) (keeps_pid : KeepsPid f) (keeps : KeepsFlag get f) where
    for_users-AllFlagged :
        (processes : List Process) → AllFlagged processes → AllFlagged (for_users f processes)
    unfolding for_users
    for_users-AllFlagged [] a = tt
    for_users-AllFlagged (p ∷ processes) a = elim (Bool-cases (p.pid == 0)) [
      | inl e ↦ rw e (a.0, for_users-AllFlagged processes (a.1))
      | inr e ↦
          rw e ((λ q. keeps p (a.0 (sym (keeps_pid p) ∙ q))), for_users-AllFlagged processes (a.1))
    ]

    for_users-pid_count :
        (j : ℕ) (processes : List Process)
        → pid_count j (for_users f processes) ≡ pid_count j processes
    unfolding for_users count_where
    for_users-pid_count j [] = refl
    for_users-pid_count j (p ∷ processes) = elim (Bool-cases (p.pid == 0)) [
      | inl e ↦ rw e (ap (λ n. if p.pid == j then 1 + n else n) (for_users-pid_count j processes))
      | inr e ↦ rw e (
          rw (keeps_pid p)
            (ap (λ n. if p.pid == j then 1 + n else n) (for_users-pid_count j processes)))
    ]

    pub for_users-Moves : (s : Tasks) → Moves s (record s { processes = for_users f s.processes })
    for_users-Moves s = (
      for_users-AllFlagged s.processes,
      λ j. omega (arith, for_users-pid_count j s.processes),
      refl,
    )

  last_or-AllFlagged :
      (p : Process) (processes : List Process)
      → AllFlagged (p ∷ processes)
      → (last_or p processes).pid ≡ pid
      → get (last_or p processes) ≡ true
  unfolding last_or
  last_or-AllFlagged p [] a = a.0
  last_or-AllFlagged p (q ∷ processes) a = last_or-AllFlagged q processes (a.1)

  but_last-AllFlagged :
      (processes : List Process) → AllFlagged processes → AllFlagged (but_last processes)
  unfolding but_last
  but_last-AllFlagged [] a = tt
  but_last-AllFlagged (p ∷ []) a = tt
  but_last-AllFlagged (p ∷ q ∷ processes) a = (a.0, but_last-AllFlagged (q ∷ processes) (a.1))

  swap_remove-AllFlagged :
      (k : ℕ) (processes : List Process)
      → AllFlagged processes
      → AllFlagged (swap_remove k processes)
  unfolding swap_remove
  swap_remove-AllFlagged k [] a = tt
  swap_remove-AllFlagged k (p ∷ processes) a = elim (Bool-cases (p.pid == k)) [
    | inl e ↦ rw e (replaced processes (a.1))
    | inr e ↦ rw e (a.0, swap_remove-AllFlagged k processes (a.1))
  ]
    where
      replaced :
          (processes : List Process) → AllFlagged processes → AllFlagged (in_place p processes)
      replaced [] a = tt
      replaced (q ∷ processes) a =
          (last_or-AllFlagged q processes a, but_last-AllFlagged (q ∷ processes) a)

  -- The last record is counted once.
  last-pid_count :
      (j : ℕ) (p : Process) (processes : List Process)
      → pid_count j (last_or p processes ∷ but_last (p ∷ processes)) ≡ pid_count j (p ∷ processes)
  unfolding last_or but_last count_where
  last-pid_count j p [] = refl
  last-pid_count j p (q ∷ processes) = ground (arith, last-pid_count j q processes)

  one_more : {m n : ℕ} (b : Bool) → m ≤ n → (if b then 1 + m else m) ≤ (if b then 1 + n else n)
  one_more true l = omega (arith, l)
  one_more false l = l

  not_less : (b : Bool) (n : ℕ) → n ≤ (if b then 1 + n else n)
  not_less true n = omega arith
  not_less false n = omega arith

  at_head :
      (j : ℕ) (p : Process) (processes : List Process)
      → pid_count j (in_place p processes) ≤ pid_count j (p ∷ processes)
  unfolding count_where
  at_head j p [] = not_less (p.pid == j) 0
  at_head j p (q ∷ processes) =
      omega
        (arith, last-pid_count j q processes, not_less (p.pid == j) (pid_count j (q ∷ processes)))

  swap_remove-pid_count :
      (k j : ℕ) (processes : List Process)
      → pid_count j (swap_remove k processes) ≤ pid_count j processes
  unfolding swap_remove count_where
  swap_remove-pid_count k j [] = omega arith
  swap_remove-pid_count k j (p ∷ processes) = elim (Bool-cases (p.pid == k)) [
    | inl e ↦ rw e (at_head j p processes)
    | inr e ↦ rw e (one_more (p.pid == j) (swap_remove-pid_count k j processes))
  ]

  pub swap_remove-Moves :
      (k : ℕ) (s : Tasks) → Moves s (record s { processes = swap_remove k s.processes })
  swap_remove-Moves k s =
      (swap_remove-AllFlagged k s.processes, λ j. swap_remove-pid_count k j s.processes, refl)
