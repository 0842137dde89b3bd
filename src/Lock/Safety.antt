-- ===== src/Lock/Safety.antt =====
-- What the CPUs may rely on in every reachable state of the lock of crates/kernel/src/util.rs.
use kazuos.Prelude.{
  ℕ, suc, ◌<◌, true, false, ◌==◌, ◌≡◌, ◌≢◌, inl, inr, refl, sym, ◌∙◌, subst, ap, arith, true-false,
  Bool-cases, ==_iff,
}
use kazuos.Lock.{
  Memory, max_cpus, Pc, rest, try_lock, Move, System, update, Step, move, start, Reach, here, later,
}
use kazuos.Lock.Moves.{
  has_lock, Fits, Move-Fits, has_lock-locked, lacks-Fits, lacks-owner, Effect, goes_on, lets_go,
  waits, takes, Move-Effect, Move-owner,
}

pub record IsSafe (s : System) : Type 0 where
  pub fits : (j : ℕ) → j < max_cpus → Fits s.mem j (s.pc j)
  pub single :
      (i j : ℕ)
      → i < max_cpus
      → j < max_cpus
      → has_lock (s.pc i) ≡ true
      → has_lock (s.pc j) ≡ true
      → i ≡ j
  pub held : s.mem.locked ≡ true → (i : ℕ) × (i < max_cpus) × (has_lock (s.pc i) ≡ true)

module _ (pc : ℕ → Pc) (cpu : ℕ) (p : Pc) where
  update_self : update pc cpu p cpu ≡ p
  unfolding update
  update_self = let e : cpu == cpu ≡ true = ground arith in rw e refl

  update_ne : (j : ℕ) → cpu ≢ j → update pc cpu p j ≡ pc j
  unfolding update
  update_ne j h = let e : j == cpu ≡ false = ground arith in rw e refl

-- What holds of `cpu` and of the others holds of all.
pub split_cpu {κ} : (P : ℕ → Type κ) (cpu j : ℕ) → P cpu → (cpu ≢ j → P j) → P j
split_cpu P cpu j at_cpu there = elim (Bool-cases (cpu == j)) [
  | inl e ↦ subst P ((==_iff cpu j).0 e) at_cpu
  | inr e ↦ there (λ q. true-false ((==_iff cpu j).1 q) e)
]

module _ (s : System) (v : IsSafe s) (cpu : ℕ) (lt : cpu < max_cpus) (m : Memory) (p : Pc)
    (mv : Move s.mem cpu (s.pc cpu) m p) where
  abbrev after : System
  after = record { mem = m; pc = update s.pc cpu p }

  effect : Effect s.mem (s.pc cpu) m p
  effect = Move-Effect mv (v.fits cpu lt)

  -- The other holder, if there is one, sees the memory as it was.
  other_holder :
      (j : ℕ)
      → j < max_cpus
      → cpu ≢ j
      → has_lock (s.pc j) ≡ true
      → (m ≡ s.mem) × (has_lock p ≡ false)
  other_holder j ltj ne h = other effect
    where
      other : Effect s.mem (s.pc cpu) m p → (m ≡ s.mem) × (has_lock p ≡ false)
      other (goes_on a b) = absurd (ne (v.single cpu j lt ltj a h))
      other (lets_go a b c) = absurd (ne (v.single cpu j lt ltj a h))
      other (waits a b c) = (c, b)
      other (takes a b c) =
          absurd (true-false (has_lock-locked s.mem j (s.pc j) (v.fits j ltj) h) b)

  after-Fits : (j : ℕ) → j < max_cpus → Fits m j (update s.pc cpu p j)
  after-Fits j ltj =
      split_cpu (λ k. Fits m k (update s.pc cpu p k)) cpu j
        (subst (λ q. Fits m cpu q) (sym (update_self s.pc cpu p)) (Move-Fits lt mv (v.fits cpu lt)))
        λ ne.
          subst (λ q. Fits m j q) (sym (update_ne s.pc cpu p j ne))
            (elim (Bool-cases (has_lock (s.pc j))) [
              | inl h ↦
                  subst (λ n. Fits n j (s.pc j)) (sym (other_holder j ltj ne h).0) (v.fits j ltj)
              | inr h ↦
                  lacks-Fits s.mem m j (s.pc j) h (v.fits j ltj)
                    (Move-owner mv j ltj ne (lacks-owner s.mem j (s.pc j) h (v.fits j ltj)))
            ])

  after-holder :
      (j : ℕ) → j < max_cpus → has_lock p ≡ true → has_lock (update s.pc cpu p j) ≡ true → cpu ≡ j
  after-holder j ltj hp h =
      split_cpu (λ k. has_lock (update s.pc cpu p k) ≡ true → cpu ≡ k) cpu j (λ g. refl)
        (λ ne g.
          let old = subst (λ q. has_lock q ≡ true) (update_ne s.pc cpu p j ne) g in
          absurd (true-false hp (other_holder j ltj ne old).1))
        h

  after-single :
      (i j : ℕ)
      → i < max_cpus
      → j < max_cpus
      → has_lock (update s.pc cpu p i) ≡ true
      → has_lock (update s.pc cpu p j) ≡ true
      → i ≡ j
  after-single i j lti ltj hi hj = elim (Bool-cases (has_lock p)) [
    | inl hp ↦ sym (after-holder i lti hp hi) ∙ after-holder j ltj hp hj
    | inr hp ↦ v.single i j lti ltj (was i hp hi) (was j hp hj)
  ]
    where
      was :
          (k : ℕ)
          → has_lock p ≡ false
          → has_lock (update s.pc cpu p k) ≡ true
          → has_lock (s.pc k) ≡ true
      was k hp h =
          split_cpu (λ l. has_lock (update s.pc cpu p l) ≡ true → has_lock (s.pc l) ≡ true) cpu k
            (λ g.
              absurd (true-false (subst (λ q. has_lock q ≡ true) (update_self s.pc cpu p) g) hp))
            (λ ne g. subst (λ q. has_lock q ≡ true) (update_ne s.pc cpu p k ne) g) h

  mover_holds :
      has_lock p ≡ true → (i : ℕ) × (i < max_cpus) × (has_lock (update s.pc cpu p i) ≡ true)
  mover_holds h = (cpu, lt, subst (λ q. has_lock q ≡ true) (sym (update_self s.pc cpu p)) h)

  after-held : m.locked ≡ true → (i : ℕ) × (i < max_cpus) × (has_lock (update s.pc cpu p i) ≡ true)
  after-held l = holder effect
    where
      holder :
          Effect s.mem (s.pc cpu) m p
          → (i : ℕ) × (i < max_cpus) × (has_lock (update s.pc cpu p i) ≡ true)
      holder (goes_on a b) = mover_holds b
      holder (lets_go a b c) = absurd (true-false l c)
      holder (takes a b c) = mover_holds a
      holder (waits a b c) =
          let (i, lti, h) = v.held (subst (λ n. n.locked ≡ true) c l) in
          let ne : cpu ≢ i = λ q. true-false (subst (λ k. has_lock (s.pc k) ≡ true) (sym q) h) a in
          (i, lti, subst (λ q. has_lock q ≡ true) (sym (update_ne s.pc cpu p i ne)) h)

  after-IsSafe : IsSafe after
  after-IsSafe = record { fits = after-Fits; single = after-single; held = after-held }

start-IsSafe : IsSafe start
start-IsSafe = record {
  fits = λ j lt e. omega (arith, e);
  single = λ i j lti ltj hi hj. absurd (true-false hi refl);
  held = λ e. absurd (true-false e refl);
}

Step-IsSafe : {s t : System} → Step s t → IsSafe s → IsSafe t
Step-IsSafe {s} (move cpu {m} {p} lt mv) v = after-IsSafe s v cpu lt m p mv

pub Reach-IsSafe : {s : System} → Reach s → IsSafe s
Reach-IsSafe here = start-IsSafe
Reach-IsSafe (later r st) = Step-IsSafe st (Reach-IsSafe r)

-- In no interleaving do two CPUs hold a guard at the same time, nested calls included.
pub mutual_exclusion :
    (s : System)
    → Reach s
    → (i j n k : ℕ) → i < max_cpus
    → j < max_cpus
    → s.pc i ≡ rest (suc n)
    → s.pc j ≡ rest (suc k)
    → i ≡ j
mutual_exclusion s r i j n k lti ltj ei ej =
    (Reach-IsSafe r).single i j lti ltj (ap has_lock ei) (ap has_lock ej)

-- A CPU that holds a guard never waits for the lock: only one without a guard reaches the
-- exchange, so nested calls cannot lock themselves out.
pub no_self_deadlock :
    (s : System) → Reach s → (i n : ℕ) → i < max_cpus → s.pc i ≡ try_lock n → n ≡ 0
no_self_deadlock s r i n lti e = (subst (λ p. Fits s.mem i p) e ((Reach-IsSafe r).fits i lti)).0

-- The lock is not left locked: when every CPU is outside its calls and holds no guard, the lock is
-- free.
pub free_when_idle :
    (s : System) → Reach s → ((i : ℕ) → i < max_cpus → s.pc i ≡ rest 0) → s.mem.locked ≡ false
free_when_idle s r idle = elim (Bool-cases s.mem.locked) [
  | inl e ↦
      let (i, lti, h) = (Reach-IsSafe r).held e in absurd (true-false h (ap has_lock (idle i lti)))
  | inr e ↦ e
]
