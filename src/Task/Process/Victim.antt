-- ===== src/Task/Process/Victim.antt =====
-- The choice of `oom_victim` in crates/kernel/src/task/process.rs.
use kazuos.Prelude.{
  ℕ, ◌≤◌, true, false, Option, none, some, List, [], ◌∷◌, ltb, ◌≡◌, ◌⊎◌, refl, sym, ap, subst,
  arith, All, Bool-cases, inl, inr, ltb→lt, true-false, ◌≢◌, ◌==◌, not, and-inv,
}
use kazuos.Task.Types.{PrivilegeLevel, system, driver, user}
use kazuos.Task.Process.{Process, ProcessState, empty, ready, running, sleeping, exited, Tasks}
use kazuos.Task.Process.Signals.{is_protected}
use kazuos.Task.Process.Queries.{
  is_active_process, may_be_victim, heavier, best_victim, pid_of, oom_victim,
}

-- Whom the kernel may end for its memory: a user process that is Ready, Running or Sleeping,
-- neither the kernel's own nor the one that is to be spared.
pub record IsEligible (exclude : ℕ) (p : Process) : Type 0 where
  pub of_user : p.privilege ≡ user
  pub live : (p.state ≡ ready) ⊎ (p.state ≡ running) ⊎ (p.state ≡ sleeping)
  pub not_kernel : p.pid ≢ 0
  pub not_excluded : p.pid ≢ exclude

-- A process of the list is eligible and has the id and the size.
unfoldable pub Stands : ℕ → ℕ × ℕ → List Process → Type 0
Stands exclude c [] = ⊥
Stands exclude c (p ∷ processes) =
    (IsEligible exclude p × (c ≡ (p.pid, p.memory_bytes))) ⊎ Stands exclude c processes

-- No eligible process uses more.
abbrev pub NoneAbove : ℕ → ℕ → List Process → Type 0
NoneAbove exclude bytes = All (λ p. IsEligible exclude p → p.memory_bytes ≤ bytes)

-- A victim is an eligible process that uses the most; with no victim none is eligible.
abbrev pub IsVictim : ℕ → List Process → Option ℕ → Type 0
IsVictim exclude processes none = All (λ p. IsEligible exclude p → ⊥) processes
IsVictim exclude processes (some pid) =
    (bytes : ℕ) × Stands exclude (pid, bytes) processes × NoneAbove exclude bytes processes

user-inv : (privilege : PrivilegeLevel) → not (is_protected privilege) ≡ true → privilege ≡ user
user-inv system e = absurd (true-false e refl)
user-inv driver e = absurd (true-false e refl)
user-inv user e = refl

live-inv :
    (state : ProcessState)
    → is_active_process state ≡ true
    → (state ≡ ready) ⊎ (state ≡ running) ⊎ (state ≡ sleeping)
live-inv empty e = absurd (true-false e refl)
live-inv ready e = inl refl
live-inv running e = inr (inl refl)
live-inv sleeping e = inr (inr refl)
live-inv exited e = absurd (true-false e refl)

live-active :
    (state : ProcessState)
    → (state ≡ ready) ⊎ (state ≡ running) ⊎ (state ≡ sleeping)
    → is_active_process state ≡ true
live-active state (inl e) = rw e refl
live-active state (inr (inl e)) = rw e refl
live-active state (inr (inr e)) = rw e refl

-- The tests of the loop agree with that.
may_be_victim-IsEligible :
    (exclude : ℕ) (p : Process) → may_be_victim exclude p ≡ true → IsEligible exclude p
may_be_victim-IsEligible exclude p e =
    let a = and-inv (not (p.pid == 0)) _ e in
    let b = and-inv (not (p.pid == exclude)) _ a.1 in
    let c = and-inv (not (is_protected p.privilege)) _ b.1 in
    record {
      of_user = user-inv p.privilege c.0;
      live = live-inv p.state c.1;
      not_kernel = ground (arith, a.0);
      not_excluded = ground (arith, b.0);
    }

IsEligible-may_be_victim :
    (exclude : ℕ) (p : Process) → IsEligible exclude p → may_be_victim exclude p ≡ true
IsEligible-may_be_victim exclude p h =
    let kernel : p.pid == 0 ≡ false = ground (arith, h.not_kernel) in
    let spared : p.pid == exclude ≡ false = ground (arith, h.not_excluded) in
    rw kernel (rw spared (rw h.of_user (rw (live-active p.state h.live) refl)))

not_eligible :
    (exclude : ℕ) (p : Process) → may_be_victim exclude p ≡ false → IsEligible exclude p → ⊥
not_eligible exclude p e h = true-false (IsEligible-may_be_victim exclude p h) e

-- The choice so far is a part of the choice.
abbrev Chosen : ℕ → List Process → Option (ℕ × ℕ) → Option (ℕ × ℕ) → Type 0
Chosen exclude processes best none = (best ≡ none) × All (λ p. IsEligible exclude p → ⊥) processes
Chosen exclude processes best (some c) =
    (Stands exclude c processes ⊎ (best ≡ some c))
    × NoneAbove exclude (c.1) processes
    × ((b : ℕ × ℕ) → best ≡ some b → b.1 ≤ c.1)

skip-Chosen :
    (exclude : ℕ) (p : Process) (processes : List Process) (best r : Option (ℕ × ℕ))
    → (may_be_victim exclude p ≡ false)
    → Chosen exclude processes best r
    → Chosen exclude (p ∷ processes) best r
unfolding Stands
skip-Chosen exclude p processes best none unfit h = (h.0, (not_eligible exclude p unfit, h.1))
skip-Chosen exclude p processes best (some c) unfit h = (
  elim (h.0) [ inl s ↦ inl (inr s) | inr e ↦ inr e ],
  (λ y. absurd (not_eligible exclude p unfit y), h.1),
  h.2,
)

take-Chosen :
    (exclude : ℕ) (p : Process) (processes : List Process) (best r : Option (ℕ × ℕ))
    → may_be_victim exclude p ≡ true
    → heavier best p ≡ true
    → Chosen exclude processes (some (p.pid, p.memory_bytes)) r
    → Chosen exclude (p ∷ processes) best r
unfolding Stands
take-Chosen exclude p processes best none fit more h = absurd (none_some (h.0))
  where
    none_some : {c : ℕ × ℕ} → some c ≡ none → ⊥
    none_some e = absurd cc
take-Chosen exclude p processes best (some c) fit more h = (
  elim (h.0) [
    | inl s ↦ inl (inr s)
    | inr e ↦ inl (inl (may_be_victim-IsEligible exclude p fit, sym (same e)))
  ],
  (λ y. h.2 (p.pid, p.memory_bytes) refl, h.1),
  λ b e.
      let less : heavier (some b) p ≡ true = subst (λ o. heavier o p ≡ true) e more in
      omega (arith, lighter b p less, h.2 (p.pid, p.memory_bytes) refl),
)
  where
    same : {a : ℕ × ℕ} → some a ≡ some c → a ≡ c
    same e = cc

    lighter : (b : ℕ × ℕ) (q : Process) → heavier (some b) q ≡ true → b.1 ≤ q.memory_bytes
    lighter (k, bytes) q l = omega (arith, ltb→lt bytes q.memory_bytes l)

keep-Chosen :
    (exclude : ℕ) (p : Process) (processes : List Process) (best r : Option (ℕ × ℕ))
    → heavier best p ≡ false
    → Chosen exclude processes best r
    → Chosen exclude (p ∷ processes) best r
unfolding Stands
keep-Chosen exclude p processes none r less h = absurd (true-false refl less)
keep-Chosen exclude p processes (some b) none less h = absurd (some_none (h.0))
  where
    some_none : some b ≡ none → ⊥
    some_none e = absurd cc
keep-Chosen exclude p processes (some (k, bytes)) (some c) less h = (
  elim (h.0) [ inl s ↦ inl (inr s) | inr e ↦ inr e ],
  (λ y. omega (arith, not_above bytes p.memory_bytes less, h.2 (k, bytes) refl), h.1),
  h.2,
)
  where
    not_above : (a b : ℕ) → ltb a b ≡ false → b ≤ a
    not_above a b e = ground arith

best_victim-Chosen :
    (exclude : ℕ) (processes : List Process) (best : Option (ℕ × ℕ))
    → Chosen exclude processes best (best_victim exclude processes best)
unfolding best_victim Stands
best_victim-Chosen exclude [] none = (refl, tt)
best_victim-Chosen exclude [] (some c) = (inr refl, tt, λ b e. omega (arith, ap (λ o. size o) e))
  where
    size : Option (ℕ × ℕ) → ℕ
    size none = 0
    size (some c) = c.1
best_victim-Chosen exclude (p ∷ processes) best = elim (Bool-cases (may_be_victim exclude p)) [
  | inl y ↦ elim (Bool-cases (heavier best p)) [
    | inl l ↦
        rw (y, l)
          (take-Chosen exclude p processes best
            (best_victim exclude processes (some (p.pid, p.memory_bytes))) y l
            (best_victim-Chosen exclude processes (some (p.pid, p.memory_bytes))))
    | inr l ↦
        rw (y, l)
          (keep-Chosen exclude p processes best (best_victim exclude processes best) l
            (best_victim-Chosen exclude processes best))
  ]
  | inr n ↦ rw n (
      skip-Chosen exclude p processes best (best_victim exclude processes best) n
        (best_victim-Chosen exclude processes best))
]

Chosen-IsVictim :
    (exclude : ℕ) (processes : List Process) (r : Option (ℕ × ℕ))
    → Chosen exclude processes none r
    → IsVictim exclude processes (pid_of r)
Chosen-IsVictim exclude processes none h = h.1
Chosen-IsVictim exclude processes (some (pid, bytes)) h = elim (h.0) [
  | inl s ↦ (bytes, s, h.1)
  | inr e ↦ absurd (none_some e)
]
  where
    none_some : {c : ℕ × ℕ} → none ≡ some c → ⊥
    none_some e = absurd cc

-- `oom_victim` gives a Ready, Running or Sleeping user process, neither the kernel's own nor the
-- excluded one, and no such process uses more memory; it gives none only if there is no such
-- process.
pub oom_victim-IsVictim :
    (exclude : ℕ) (s : Tasks) → IsVictim exclude s.processes (oom_victim exclude s)
unfolding oom_victim
oom_victim-IsVictim exclude s =
    Chosen-IsVictim exclude s.processes (best_victim exclude s.processes none)
      (best_victim-Chosen exclude s.processes none)
