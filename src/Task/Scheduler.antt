-- ===== src/Task/Scheduler.antt =====
-- `schedule_next` of crates/kernel/src/task/scheduler.rs, the choice of the next thread of a CPU.
pub mod Choice
pub mod Fair
mod Tests
use kazuos.Prelude.{
  ℕ, zero, suc, ◌<◌, min, Bool, true, false, not, ◌&&◌, ◌||◌, Option, none, some, List, [], ◌∷◌,
  ◌==◌, ltb, if◌then◌else◌,
}
use kazuos.Task.Types.{Thread, Threads, ThreadState, ready}

abbrev pub is_ready_state : ThreadState → Bool
is_ready_state ready = true
is_ready_state _ = false

-- `let ready = |t: &&Thread| ...`
abbrev pub is_ready : ℕ → Thread → Bool
is_ready cpu t = (t.assigned_cpu == cpu) && is_ready_state t.state

abbrev pub least : ℕ → Option ℕ → ℕ
least a none = a
least a (some b) = min a b

-- `.filter(...).map(|t| t.tid).min()`
unfoldable pub lowest : (Thread → Bool) → Threads → Option ℕ
lowest p [] = none
lowest p (t ∷ threads) =
    let rest = lowest p threads in if p t then some (least t.tid rest) else rest

-- `.or_else(...)` and `.unwrap_or(0)`
abbrev pub first_of : Option ℕ → Option ℕ → ℕ
first_of (some tid) _ = tid
first_of none (some tid) = tid
first_of none none = 0

-- The first argument is `cpu_idx()`.
unfoldable pub schedule_next : ℕ → ℕ → Threads → ℕ
unfolding lowest
schedule_next cpu current threads =
    first_of (lowest (λ t. is_ready cpu t && ltb current t.tid) threads)
      (lowest (is_ready cpu) threads)
