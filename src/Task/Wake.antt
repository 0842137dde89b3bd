-- ===== src/Task/Wake.antt =====
-- The wake-ups of crates/kernel/src/task/thread.rs: a sleeping thread whose event came is made
-- Ready, with the context that its blocking system call saved on its kernel stack. The memory is
-- a function from addresses to words; no wake-up here writes to it.
pub mod Timer
mod Tests
use kazuos.Prelude.{
  ℕ, zero, suc, ◌+◌, ◌*◌, Bool, true, false, not, ◌&&◌, Option, none, some, List, [], ◌∷◌, ◌==◌,
  leb, if◌then◌else◌,
}
use kazuos.Task.Types.{Thread, Threads, ThreadState, ready, sleeping, WaitTarget, UserContext}
use kazuos.Task.Thread.{find_thread, modify}

-- The context is taken from the words at `blocking_rsp`.
abbrev pub context_of_frame : (ℕ → ℕ) → ℕ → ℕ → UserContext → UserContext
context_of_frame memory rsp retval context = record context {
  rax = retval;
  rbx = memory (rsp + 8 * 12);
  rcx = memory (rsp + 8 * 11);
  rdx = memory (rsp + 8 * 10);
  rsi = memory (rsp + 8 * 9);
  rdi = memory (rsp + 8 * 8);
  rbp = memory (rsp + 8 * 13);
  r8 = memory (rsp + 8 * 7);
  r9 = memory (rsp + 8 * 6);
  r10 = memory (rsp + 8 * 5);
  r11 = memory (rsp + 8 * 4);
  r12 = memory (rsp + 8 * 3);
  r13 = memory (rsp + 8 * 2);
  r14 = memory (rsp + 8 * 1);
  r15 = memory (rsp + 8 * 0);
  rip = memory (rsp + 8 * 14);
  rsp = memory (rsp + 8 * 17);
  rflags = memory (rsp + 8 * 16);
}

abbrev pub restore_ctx_from_blocking_frame : (ℕ → ℕ) → ℕ → Thread → Thread
restore_ctx_from_blocking_frame memory retval t = if t.blocking_rsp == 0 then t else record t {
  user_context = context_of_frame memory t.blocking_rsp retval t.user_context;
  blocking_rsp = 0;
  kernel_preempted = false;
}

abbrev pub apply_pending : (ℕ → ℕ) → ℕ → Threads → Option Thread → Bool × Threads
apply_pending memory tid threads none = (false, threads)
apply_pending memory tid threads (some t) = if t.blocking_rsp == 0 then (false, threads) else (
  true,
  modify tid
      (λ u.
        restore_ctx_from_blocking_frame memory t.blocking_retval (record u { blocking_retval = 0 }))
      threads,
)

unfoldable pub apply_blocking_return_if_pending : (ℕ → ℕ) → ℕ → Threads → Bool × Threads
unfolding find_thread modify
apply_blocking_return_if_pending memory tid threads =
    apply_pending memory tid threads (find_thread tid threads)

abbrev pub is_sleeping : ThreadState → Bool
is_sleeping sleeping = true
is_sleeping _ = false

-- `matches!(t.state, ThreadState::Sleeping)` and a test of the target that each wake-up has.
abbrev pub waits : (WaitTarget → Bool) → Thread → Bool
waits p t = is_sleeping t.state && p t.wait_target

-- The three statements that every wake-up has for the thread it wakes.
abbrev pub wake : (ℕ → ℕ) → ℕ → Thread → Thread
wake memory retval t = record (restore_ctx_from_blocking_frame memory retval t) {
  state = ready;
  wait_target = WaitTarget.none;
}

-- A loop that wakes every thread that passes the test.
unfoldable pub wake_all : (Thread → Bool) → (ℕ → ℕ) → ℕ → Threads → Threads
wake_all p memory retval [] = []
wake_all p memory retval (t ∷ threads) =
    let rest = wake_all p memory retval threads in
    if p t then wake memory retval t ∷ rest else t ∷ rest

-- A loop that returns after the first thread it wakes.
unfoldable pub wake_first : (Thread → Bool) → (ℕ → ℕ) → ℕ → Threads → Bool × Threads
wake_first p memory retval [] = (false, [])
wake_first p memory retval (t ∷ threads) =
    let (found, rest) = wake_first p memory retval threads in
    if p t then (true, wake memory retval t ∷ threads) else (found, t ∷ rest)

abbrev pub on_keyboard : WaitTarget → Bool
on_keyboard WaitTarget.keyboard = true
on_keyboard _ = false

abbrev pub on_pid : ℕ → WaitTarget → Bool
on_pid pid (WaitTarget.pid target) = target == pid
on_pid pid _ = false

abbrev pub on_tid : ℕ → WaitTarget → Bool
on_tid tid (WaitTarget.tid target) = target == tid
on_tid tid _ = false

abbrev pub on_ipc : WaitTarget → Bool
on_ipc (WaitTarget.ipc channel) = true
on_ipc _ = false

abbrev pub on_irq : ℕ → WaitTarget → Bool
on_irq irq (WaitTarget.irq n) = n == irq
on_irq irq _ = false

abbrev pub on_audio : WaitTarget → Bool
on_audio WaitTarget.audio = true
on_audio _ = false

abbrev pub on_timer : ℕ → WaitTarget → Bool
on_timer now (WaitTarget.timer deadline) = leb deadline now
on_timer now _ = false

abbrev pub on_tick : WaitTarget → Bool
on_tick WaitTarget.tick = true
on_tick _ = false

abbrev count_of : Bool × Threads → ℕ × Threads
count_of r = (if r.0 then 1 else 0, r.1)

unfoldable pub wakeup_key_waiters : (ℕ → ℕ) → ℕ → Threads → ℕ × Threads
unfolding wake_first
wakeup_key_waiters memory key threads = count_of (wake_first (waits on_keyboard) memory key threads)

unfoldable pub wakeup_key_waiter_for_pid : (ℕ → ℕ) → ℕ → ℕ → Threads → ℕ × Threads
unfolding wake_first
wakeup_key_waiter_for_pid memory pid key threads =
    count_of (wake_first (λ t. (t.pid == pid) && waits on_keyboard t) memory key threads)

unfoldable pub wakeup_pid_waiters : (ℕ → ℕ) → ℕ → Threads → Threads
unfolding wake_all
wakeup_pid_waiters memory exited_pid = wake_all (waits (on_pid exited_pid)) memory 1

unfoldable pub wakeup_thread_waiters : (ℕ → ℕ) → ℕ → Threads → Threads
unfolding wake_all
wakeup_thread_waiters memory exited_tid = wake_all (waits (on_tid exited_tid)) memory 0

unfoldable pub wakeup_ipc_waiter : (ℕ → ℕ) → ℕ → ℕ → Threads → Threads
unfolding modify
wakeup_ipc_waiter memory tid retval =
    modify tid λ t. if waits on_ipc t then wake memory retval t else t

unfoldable pub wakeup_irq_waiter : (ℕ → ℕ) → ℕ → Threads → Bool × Threads
unfolding wake_first
wakeup_irq_waiter memory irq = wake_first (waits (on_irq irq)) memory 0

unfoldable pub wakeup_audio_waiters : (ℕ → ℕ) → Threads → Threads
unfolding wake_all
wakeup_audio_waiters memory = wake_all (waits on_audio) memory 0

unfoldable pub wake_timer_sleepers : (ℕ → ℕ) → ℕ → Threads → Threads
unfolding wake_all
wake_timer_sleepers memory now_tsc = wake_all (waits (on_timer now_tsc)) memory 0

unfoldable pub wake_tick_sleepers : (ℕ → ℕ) → Threads → Threads
unfolding wake_all
wake_tick_sleepers memory = wake_all (waits on_tick) memory 0
