-- ===== src/Task/Wake/Tests.antt =====
-- Runs of the timer wake-up.
use kazuos.Prelude.{ℕ, ◌≤◌, ◌<◌, [], ◌∷◌, ◌≡◌, refl, some}
use kazuos.Task.Types.{Threads, ready, sleeping, WaitTarget, system}
use kazuos.Task.Thread.{find_thread, new_thread, state, wait_target}
use kazuos.Task.Wake.{wake_timer_sleepers}
use kazuos.Task.Wake.Timer.{sleep_until, wake_timer_sleepers-set_sleeping}

abbrev two : Threads
two = new_thread 1 1 4096 system 0 ∷ new_thread 2 1 8192 system 0 ∷ []

abbrev no_memory : ℕ → ℕ
no_memory address = 0

wake_timer_sleepers-set_sleeping_example :
    let threads = wake_timer_sleepers no_memory 20 (sleep_until 2 10 two) in
    (10 ≤ 20 → (state 2 threads ≡ some ready) × (wait_target 2 threads ≡ some WaitTarget.none))
    × (20 < 10
        → (state 2 threads ≡ some sleeping) × (wait_target 2 threads ≡ some (WaitTarget.timer 10)))
unfolding find_thread
wake_timer_sleepers-set_sleeping_example =
    wake_timer_sleepers-set_sleeping no_memory 2 10 20 two (new_thread 2 1 8192 system 0) refl refl
