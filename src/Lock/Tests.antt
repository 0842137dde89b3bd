-- ===== src/Lock/Tests.antt =====
-- A run of the lock: CPU 0 takes it twice, while CPU 1 waits.
use kazuos.Prelude.{ℕ, ◌<◌, true, false, ◌≡◌, refl, arith}
use kazuos.Lock.{
  Memory, Pc, rest, check_owner, try_lock, set_owner, set_depth, Move, calls_lock, owner_is_not,
  exchanges, sets_owner, sets_depth, System, update, move, start, Reach, here, later, max_cpus,
}
use kazuos.Lock.Safety.{mutual_exclusion, no_self_deadlock, free_when_idle}

-- One step of CPU `cpu` from a reachable state.
abbrev next :
    {s : System} (cpu : ℕ) {m : Memory} {p : Pc}
    → cpu < max_cpus
    → Reach s
    → Move s.mem cpu (s.pc cpu) m p
    → Reach (record { mem = m; pc = update s.pc cpu p })
next cpu lt r mv = later r (move cpu lt mv)

abbrev pc1 : ℕ → Pc
pc1 = update (λ cpu. rest 0) 0 (check_owner 0)

abbrev pc2 : ℕ → Pc
pc2 = update pc1 0 (try_lock 0)

abbrev pc3 : ℕ → Pc
pc3 = update pc2 0 (set_owner 0)

abbrev pc4 : ℕ → Pc
pc4 = update pc3 0 (set_depth 0)

abbrev pc5 : ℕ → Pc
pc5 = update pc4 0 (rest 1)

abbrev pc6 : ℕ → Pc
pc6 = update pc5 1 (check_owner 0)

abbrev pc7 : ℕ → Pc
pc7 = update pc6 1 (try_lock 0)

abbrev contended : System
contended = record { mem = record { locked = true; owner = 0; depth = 1 }; pc = pc7 }

contended-Reach : Reach contended
unfolding update
contended-Reach =
    next 1 (omega arith)
      (next 1 (omega arith)
        (next 0 (omega arith)
          (next 0 (omega arith)
            (next 0 (omega arith)
              (next 0 (omega arith) (next 0 (omega arith) here (calls_lock 0 (omega arith)))
                (owner_is_not 0 (λ e. omega arith)))
              (exchanges 0 refl))
            (sets_owner 0))
          (sets_depth 0))
        (calls_lock 0 (omega arith)))
      (owner_is_not 0 (λ e. omega arith))

mutual_exclusion_example : ◌≡◌ {A = ℕ} 0 0
unfolding update
mutual_exclusion_example =
    mutual_exclusion contended contended-Reach 0 0 0 0 (omega arith) (omega arith) refl refl

no_self_deadlock_example : ◌≡◌ {A = ℕ} 0 0
unfolding update
no_self_deadlock_example = no_self_deadlock contended contended-Reach 1 0 (omega arith) refl

free_when_idle_example : start.mem.locked ≡ false
free_when_idle_example = free_when_idle start here (λ i lt. refl)
