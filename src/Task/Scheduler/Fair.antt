-- ===== src/Task/Scheduler/Fair.antt =====
-- When a Ready thread gets its turn, whatever the other threads do between two choices of
-- `schedule_next` of crates/kernel/src/task/scheduler.rs, and when it does not.
use kazuos.Prelude.{
  ℕ, ◌≤◌, ◌<◌, Bool, true, false, ◌||◌, List, [], ◌∷◌, ◌≢◌, ◌==◌, ◌≡◌, refl, inl, inr, arith, All,
  true-false,
}
use kazuos.Task.Types.{Threads}
use kazuos.Task.Scheduler.{schedule_next}
use kazuos.Task.Scheduler.Choice.{has_ready, schedule_next-IsNext}

-- A choice on the threads as they are: of the timer, which goes on after the last pick, or of
-- `enter_next_process`, which every blocking call, exit and fault ends in, and which starts from 0.
pub data Choice : Type 0 where
  of_timer of_entry : Threads → Choice

unfoldable pub choose : ℕ → ℕ → Choice → ℕ
unfolding schedule_next
choose cpu current (of_timer threads) = schedule_next cpu current threads
choose cpu current (of_entry threads) = schedule_next cpu 0 threads

-- Whether a CPU that makes the choices in turn picks `u`. Between two choices the threads change in
-- any way.
unfoldable pub gets_turn : ℕ → ℕ → ℕ → List Choice → Bool
unfolding choose
gets_turn cpu u current [] = false
gets_turn cpu u current (choice ∷ later) =
    let tid = choose cpu current choice in (tid == u) || gets_turn cpu u tid later

-- Choices of the timer alone, before others.
abbrev pub ticks : List Threads → List Choice → List Choice
ticks [] later = later
ticks (threads ∷ tables) later = of_timer threads ∷ ticks tables later

-- `u` is Ready on the CPU, and no Ready thread of the CPU has a tid above `bound`.
abbrev pub KeepsReady : ℕ → ℕ → ℕ → Threads → Type 0
KeepsReady cpu u bound threads =
    (has_ready cpu u threads ≡ true) × ((v : ℕ) → has_ready cpu v threads ≡ true → v ≤ bound)

-- The choice of `enter_next_process` while a lower thread is Ready.
abbrev pub HasLower : ℕ → ℕ → Choice → Type 0
HasLower cpu u (of_timer threads) = ⊥
HasLower cpu u (of_entry threads) = (v : ℕ) × (0 < v) × (v < u) × (has_ready cpu v threads ≡ true)

lower_first :
    (cpu u v : ℕ) (threads : Threads)
    → 0 < v
    → v < u
    → has_ready cpu v threads ≡ true
    → schedule_next cpu 0 threads ≢ u
lower_first cpu u v threads positive l r same = elim (schedule_next-IsNext cpu 0 threads) [
  | inl n ↦ omega (arith, n.2 v r positive, same)
  | inr (inl n) ↦ omega (arith, (n.1 v r).1)
  | inr (inr n) ↦ true-false r (n.1 v)
]

-- However many choices are made, a thread is never picked while all of them are those of
-- `enter_next_process` and at each one some thread of the CPU with a lower tid is Ready, be the
-- thread itself Ready or not.
pub low_tids_starve :
    (cpu u current : ℕ) (choices : List Choice)
    → All (HasLower cpu u) choices
    → gets_turn cpu u current choices ≡ false
unfolding gets_turn choose
low_tids_starve cpu u current [] a = refl
low_tids_starve cpu u current (of_timer threads ∷ choices) a = absurd a.0
low_tids_starve cpu u current (of_entry threads ∷ choices) a =
    let (v, positive, l, r) = a.0 in
    let ne : schedule_next cpu 0 threads == u ≡ false =
      not_same (schedule_next cpu 0 threads) u (lower_first cpu u v threads positive l r) in
    rw ne (low_tids_starve cpu u (schedule_next cpu 0 threads) choices a.1)
  where
    not_same : (m n : ℕ) → m ≢ n → m == n ≡ false
    not_same m n h = ground arith
