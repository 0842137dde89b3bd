-- ===== src/Lock.antt =====
-- `ReentrantSpinLock` of crates/kernel/src/util.rs, which guards the threads, the processes, the
-- pipes, the channels and the descriptors: its atomic operations, interleaved in any order by the
-- CPUs. `ReentrantIrqGuard` disables interrupts first, so a CPU runs one call at a time. The
-- operations take effect in one order for all CPUs.
pub mod Moves
pub mod Safety
mod Tests
use kazuos.Prelude.{
  ℕ, zero, suc, ◌+◌, ◌-◌, ◌%◌, ◌^◌, ◌≤◌, ◌<◌, Bool, true, false, ◌==◌, if◌then◌else◌, ◌≡◌, ◌≢◌,
  u64_max,
}

pub record Memory : Type 0 where
  pub locked : Bool
  pub owner : ℕ
  pub depth : ℕ

-- `usize::MAX`: no CPU.
abbrev pub nobody : ℕ
nobody = u64_max

-- `ReentrantSpinLock::new`
abbrev pub new_lock : Memory
new_lock = record { locked = false; owner = nobody; depth = 0 }

abbrev pub max_cpus : ℕ
max_cpus = 16

-- Where a CPU stands, with the number of guards that it holds: outside any call, before each of
-- the atomic operations of `lock`, and before the last two of `unlock`.
pub data Pc : Type 0 where
  rest check_owner check_locked add_depth try_lock set_owner set_depth clear_owner clear_locked :
      ℕ → Pc

-- One atomic operation of a CPU. `compare_exchange_weak` may fail at any time. A guard is dropped
-- once, so that `unlock` runs only on a CPU with a guard; the guards of a CPU are fewer than 2^64.
pub data Move (m : Memory) (cpu : ℕ) : Pc → Memory → Pc → Type 0 where
  calls_lock : (n : ℕ) → suc n < 2 ^ 64 → Move m cpu (rest n) m (check_owner n)
  owner_is : (n : ℕ) → m.owner ≡ cpu → Move m cpu (check_owner n) m (check_locked n)
  owner_is_not : (n : ℕ) → m.owner ≢ cpu → Move m cpu (check_owner n) m (try_lock n)
  locked_is : (n : ℕ) → m.locked ≡ true → Move m cpu (check_locked n) m (add_depth n)
  locked_is_not : (n : ℕ) → m.locked ≡ false → Move m cpu (check_locked n) m (try_lock n)
  adds_depth :
      (n : ℕ)
      → Move m cpu (add_depth n) (record m { depth = (m.depth + 1) % 2 ^ 64 }) (rest (suc n))
  exchanges :
      (n : ℕ)
      → m.locked ≡ false
      → Move m cpu (try_lock n) (record m { locked = true }) (set_owner n)
  spins : (n : ℕ) → Move m cpu (try_lock n) m (try_lock n)
  sets_owner : (n : ℕ) → Move m cpu (set_owner n) (record m { owner = cpu }) (set_depth n)
  sets_depth : (n : ℕ) → Move m cpu (set_depth n) (record m { depth = 1 }) (rest (suc n))
  drops_nested :
      (n : ℕ)
      → m.depth ≢ 1
      → Move m cpu (rest (suc n)) (record m { depth = (m.depth + 2 ^ 64 - 1) % 2 ^ 64 }) (rest n)
  drops_last :
      (n : ℕ) → m.depth ≡ 1 → Move m cpu (rest (suc n)) (record m { depth = 0 }) (clear_owner n)
  clears_owner : (n : ℕ) → Move m cpu (clear_owner n) (record m { owner = nobody }) (clear_locked n)
  clears_locked : (n : ℕ) → Move m cpu (clear_locked n) (record m { locked = false }) (rest n)

pub record System : Type 0 where
  pub mem : Memory
  pub pc : ℕ → Pc

unfoldable pub update : (ℕ → Pc) → ℕ → Pc → ℕ → Pc
update pc cpu p j = if j == cpu then p else pc j

pub data Step (s : System) : System → Type 0 where
  move :
      (cpu : ℕ) {m : Memory} {p : Pc}
      → cpu < max_cpus
      → Move s.mem cpu (s.pc cpu) m p
      → Step s (record { mem = m; pc = update s.pc cpu p })

abbrev pub start : System
start = record { mem = new_lock; pc = λ cpu. rest 0 }

pub data Reach : System → Type 0 where
  here : Reach start
  later : {s t : System} → Reach s → Step s t → Reach t
