-- ===== src/Task/History.antt =====
-- Histories of the thread table of crates/kernel/src/task/thread.rs: the calls that create a
-- thread, move its state, block, wake or remove it, in any order; each runs under `THREADS_LOCK`.
-- Not among them are `notify_pipe_readers`, which also writes to the reader's memory, and the
-- setters of the privilege, the kernel stack pointer and the preemption mark.
pub mod Keeps
pub mod Final
mod Tests
use kazuos.Prelude.{
  ℕ, zero, suc, ◌+◌, ◌-◌, ◌*◌, ◌^◌, ◌%◌, ◌≤◌, ◌<◌, max, Bool, true, false, ◌&&◌, Option, none, some,
  List, [], ◌∷◌, ◌++◌, ◌==◌, if◌then◌else◌, ◌≡◌, refl, sym, arith, Bool-cases, Option-cases, All,
  length, add64, true-false, and-inv, inl, inr,
}
use kazuos.Task.Types.{Thread, Threads, ThreadState, WaitTarget, PrivilegeLevel, UserContext}
use kazuos.Task.Thread.{
  find_thread, modify, ThreadTable, create_kernel_thread, create_user_thread, new_thread,
  kernel_stack_size, is_active, set_user_context, set_state, set_wait_target, set_blocking_rsp,
  take_blocking_rsp, take_blocking_retval, take_rsp, take_retval, add_cpu_ticks, set_assigned_cpu,
  remove_thread, set_thread_pid,
}
use kazuos.Task.Wake.{
  restore_ctx_from_blocking_frame, apply_blocking_return_if_pending, apply_pending, wake, waits,
  wake_all, wake_first, wakeup_key_waiters, wakeup_key_waiter_for_pid, wakeup_pid_waiters,
  wakeup_thread_waiters, wakeup_ipc_waiter, wakeup_irq_waiter, wakeup_audio_waiters,
  wake_timer_sleepers, wake_tick_sleepers, on_keyboard, on_pid, on_tid, on_ipc, on_irq, on_audio,
  on_timer, on_tick,
}
use kazuos.Task.Ended.{
  Ended, KeepsEnd, modify-Ended, remove_thread-Ended, append-Ended, set_state-Ended, IsAlive,
  waits-IsAlive, wake_all-Ended, wake_first-Ended, restore_ctx-same,
}

-- The calls that only change the threads, each with its arguments.
pub data Change : Type 0 where
  move : ℕ → ThreadState → Change
  context : ℕ → UserContext → Change
  target : ℕ → WaitTarget → Change
  block : ℕ → ℕ → Change
  unblock retval pending remove : ℕ → Change
  ticks assign repid : ℕ → ℕ → Change
  key : ℕ → Change
  key_for : ℕ → ℕ → Change
  pid_exit tid_exit : ℕ → Change
  message : ℕ → ℕ → Change
  irq timer : ℕ → Change
  tick audio : Change

pub data Request : Type 0 where
  create_kernel : Option ℕ → ℕ → ℕ → PrivilegeLevel → Request
  create_user : Option ℕ → ℕ → ℕ → ℕ → ℕ → ℕ → PrivilegeLevel → ℕ → ℕ → Request
  change : Change → Request

unfoldable pub update : (ℕ → ℕ) → Change → Threads → Threads
unfolding set_state set_user_context set_wait_target set_blocking_rsp take_blocking_rsp
    take_blocking_retval apply_blocking_return_if_pending remove_thread add_cpu_ticks
    set_assigned_cpu set_thread_pid wakeup_key_waiters wakeup_key_waiter_for_pid wakeup_pid_waiters
    wakeup_thread_waiters wakeup_ipc_waiter wakeup_irq_waiter wakeup_audio_waiters
    wake_timer_sleepers wake_tick_sleepers
update memory (move tid state) threads = set_state tid state threads
update memory (context tid c) threads = set_user_context tid c threads
update memory (target tid w) threads = set_wait_target tid w threads
update memory (block tid rsp) threads = set_blocking_rsp tid rsp threads
update memory (unblock tid) threads = (take_blocking_rsp tid threads).1
update memory (retval tid) threads = (take_blocking_retval tid threads).1
update memory (pending tid) threads = (apply_blocking_return_if_pending memory tid threads).1
update memory (remove tid) threads = remove_thread tid threads
update memory (ticks tid n) threads = add_cpu_ticks tid n threads
update memory (assign tid cpu) threads = set_assigned_cpu tid cpu threads
update memory (repid tid pid) threads = set_thread_pid tid pid threads
update memory (key k) threads = (wakeup_key_waiters memory k threads).1
update memory (key_for pid k) threads = (wakeup_key_waiter_for_pid memory pid k threads).1
update memory (pid_exit pid) threads = wakeup_pid_waiters memory pid threads
update memory (tid_exit tid) threads = wakeup_thread_waiters memory tid threads
update memory (message tid v) threads = wakeup_ipc_waiter memory tid v threads
update memory (irq n) threads = (wakeup_irq_waiter memory n threads).1
update memory (timer now) threads = wake_timer_sleepers memory now threads
update memory tick threads = wake_tick_sleepers memory threads
update memory audio threads = wakeup_audio_waiters memory threads

unfoldable pub step : (ℕ → ℕ) → Request → ThreadTable → ThreadTable
unfolding create_kernel_thread create_user_thread update
step memory (create_kernel stack cpus pid privilege) s =
    (create_kernel_thread stack cpus pid privilege s).1
step memory (create_user stack cpus pid entry top cr3 privilege argc argv) s =
    (create_user_thread stack cpus pid entry top cr3 privilege argc argv s).1
step memory (change c) s = record s { threads = update memory c s.threads }

-- Before each call the memory is some memory of its own.
unfoldable pub run : List ((ℕ → ℕ) × Request) → ThreadTable → ThreadTable
unfolding step
run [] s = s
run ((memory, request) ∷ requests) s = run requests (step memory request s)
