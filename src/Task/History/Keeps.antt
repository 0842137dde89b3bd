-- ===== src/Task/History/Keeps.antt =====
-- Each call of the thread table of crates/kernel/src/task/thread.rs leaves ended threads ended.
use kazuos.Prelude.{
  ℕ, ◌+◌, ◌^◌, ◌≤◌, ◌<◌, ◌&&◌, Option, none, some, ◌==◌, if◌then◌else◌, refl, arith, Bool-cases,
  All, true-false, and-inv, inl, inr,
}
use kazuos.Task.Types.{Thread, Threads, PrivilegeLevel}
use kazuos.Task.Thread.{
  find_thread, ThreadTable, create_kernel_thread, create_user_thread, new_thread, set_user_context,
  set_wait_target, set_blocking_rsp, take_blocking_rsp, take_blocking_retval, take_rsp, take_retval,
  add_cpu_ticks, set_assigned_cpu, set_thread_pid,
}
use kazuos.Task.Wake.{
  restore_ctx_from_blocking_frame, apply_blocking_return_if_pending, apply_pending, wake, waits,
  wakeup_key_waiters, wakeup_key_waiter_for_pid, wakeup_pid_waiters, wakeup_thread_waiters,
  wakeup_ipc_waiter, wakeup_irq_waiter, wakeup_audio_waiters, wake_timer_sleepers,
  wake_tick_sleepers, on_keyboard, on_pid, on_tid, on_ipc, on_irq, on_audio, on_timer, on_tick,
}
use kazuos.Task.Ended.{
  Ended, KeepsEnd, modify-Ended, remove_thread-Ended, append-Ended, set_state-Ended, IsAlive,
  waits-IsAlive, wake_all-Ended, wake_first-Ended, restore_ctx-same,
}
use kazuos.Task.History.{
  Change, Request, change, create_kernel, create_user, move, context, target, block, unblock,
  retval, pending, remove, ticks, assign, repid, key, key_for, pid_exit, tid_exit, message, irq,
  timer, tick, audio, update, step,
}

module _ (memory : ℕ → ℕ) (u : ℕ) where
  take_rsp-Ended :
      (tid : ℕ) (threads : Threads) (o : Option Thread)
      → All (Ended u) threads
      → All (Ended u) (take_rsp tid threads o).1
  take_rsp-Ended tid threads none a = a
  take_rsp-Ended tid threads (some t) a = elim (Bool-cases (t.blocking_rsp == 0)) [
    | inl e ↦ rw e a
    | inr e ↦ rw e (modify-Ended _ (λ v. (refl, λ g. g)) tid u threads a)
  ]

  take_retval-Ended :
      (tid : ℕ) (threads : Threads) (o : Option Thread)
      → All (Ended u) threads
      → All (Ended u) (take_retval tid threads o).1
  take_retval-Ended tid threads none a = a
  take_retval-Ended tid threads (some t) a = modify-Ended _ (λ v. (refl, λ g. g)) tid u threads a

  restore-KeepsEnd :
      (v : ℕ)
      → KeepsEnd (λ t. restore_ctx_from_blocking_frame memory v (record t { blocking_retval = 0 }))
  restore-KeepsEnd v t =
      let h = restore_ctx-same memory v (record t { blocking_retval = 0 }) in (h.0, λ g. rw (h.1) g)

  apply_pending-Ended :
      (tid : ℕ) (threads : Threads) (o : Option Thread)
      → All (Ended u) threads
      → All (Ended u) (apply_pending memory tid threads o).1
  apply_pending-Ended tid threads none a = a
  apply_pending-Ended tid threads (some t) a = elim (Bool-cases (t.blocking_rsp == 0)) [
    | inl e ↦ rw e a
    | inr e ↦ rw e (modify-Ended _ (restore-KeepsEnd t.blocking_retval) tid u threads a)
  ]

  wake-KeepsEnd : (v : ℕ) → KeepsEnd (λ t. if waits on_ipc t then wake memory v t else t)
  wake-KeepsEnd v t = elim (Bool-cases (waits on_ipc t)) [
    | inl e ↦
        rw e
          ((restore_ctx-same memory v t).0, λ g. absurd (true-false (waits-IsAlive on_ipc t e) g))
    | inr e ↦ rw e (refl, λ g. g)
  ]

  for_pid-IsAlive : (pid : ℕ) → IsAlive (λ t. (t.pid == pid) && waits on_keyboard t)
  for_pid-IsAlive pid t e =
      waits-IsAlive on_keyboard t (and-inv (t.pid == pid) (waits on_keyboard t) e).1

  pub update-Ended :
      (request : Change) (threads : Threads)
      → All (Ended u) threads
      → All (Ended u) (update memory request threads)
  unfolding update set_user_context set_wait_target set_blocking_rsp take_blocking_rsp
      take_blocking_retval apply_blocking_return_if_pending add_cpu_ticks set_assigned_cpu
      set_thread_pid wakeup_key_waiters wakeup_key_waiter_for_pid wakeup_pid_waiters
      wakeup_thread_waiters wakeup_ipc_waiter wakeup_irq_waiter wakeup_audio_waiters
      wake_timer_sleepers wake_tick_sleepers
  update-Ended (move tid state) threads a = set_state-Ended tid u state threads a
  update-Ended (context tid c) threads a = modify-Ended _ (λ t. (refl, λ g. g)) tid u threads a
  update-Ended (target tid w) threads a = modify-Ended _ (λ t. (refl, λ g. g)) tid u threads a
  update-Ended (block tid rsp) threads a = modify-Ended _ (λ t. (refl, λ g. g)) tid u threads a
  update-Ended (unblock tid) threads a = take_rsp-Ended tid threads (find_thread tid threads) a
  update-Ended (retval tid) threads a = take_retval-Ended tid threads (find_thread tid threads) a
  update-Ended (pending tid) threads a = apply_pending-Ended tid threads (find_thread tid threads) a
  update-Ended (remove tid) threads a = remove_thread-Ended tid u threads a
  update-Ended (ticks tid n) threads a = modify-Ended _ (λ t. (refl, λ g. g)) tid u threads a
  update-Ended (assign tid cpu) threads a = modify-Ended _ (λ t. (refl, λ g. g)) tid u threads a
  update-Ended (repid tid pid) threads a = modify-Ended _ (λ t. (refl, λ g. g)) tid u threads a
  update-Ended (key k) threads a =
      wake_first-Ended _ (waits-IsAlive on_keyboard) memory k u threads a
  update-Ended (key_for pid k) threads a =
      wake_first-Ended _ (for_pid-IsAlive pid) memory k u threads a
  update-Ended (pid_exit pid) threads a =
      wake_all-Ended _ (waits-IsAlive (on_pid pid)) memory 1 u threads a
  update-Ended (tid_exit tid) threads a =
      wake_all-Ended _ (waits-IsAlive (on_tid tid)) memory 0 u threads a
  update-Ended (message tid v) threads a = modify-Ended _ (wake-KeepsEnd v) tid u threads a
  update-Ended (irq n) threads a =
      wake_first-Ended _ (waits-IsAlive (on_irq n)) memory 0 u threads a
  update-Ended (timer now) threads a =
      wake_all-Ended _ (waits-IsAlive (on_timer now)) memory 0 u threads a
  update-Ended tick threads a = wake_all-Ended _ (waits-IsAlive on_tick) memory 0 u threads a
  update-Ended audio threads a = wake_all-Ended _ (waits-IsAlive on_audio) memory 0 u threads a

create_kernel-Ended :
    (stack : Option ℕ) (cpus pid : ℕ) (privilege : PrivilegeLevel) (s : ThreadTable) (u : ℕ)
    → u < s.next_tid
    → All (Ended u) s.threads
    → All (Ended u) (create_kernel_thread stack cpus pid privilege s).1.threads
unfolding create_kernel_thread
create_kernel-Ended none cpus pid privilege s u l a = a
create_kernel-Ended (some base) cpus pid privilege s u l a =
    append-Ended u s.threads (new_thread s.next_tid pid base privilege _) a
      (λ e. absurd (omega arith))

create_kernel-next :
    (stack : Option ℕ) (cpus pid : ℕ) (privilege : PrivilegeLevel) (s : ThreadTable)
    → s.next_tid + 1 < 2 ^ 64
    → let s' = (create_kernel_thread stack cpus pid privilege s).1 in
      (s.next_tid ≤ s'.next_tid) × (s'.next_tid ≤ s.next_tid + 1)
unfolding create_kernel_thread
create_kernel-next none cpus pid privilege s h = (omega arith, omega arith)
create_kernel-next (some base) cpus pid privilege s h = (omega arith, omega arith)

module _ (stack : Option ℕ) (cpus pid entry top cr3 : ℕ) (privilege : PrivilegeLevel)
    (argc argv : ℕ) (s : ThreadTable) where
  create_user-Ended :
      (u : ℕ)
      → u < s.next_tid
      → All (Ended u) s.threads
      → All
          (Ended u)
          (create_user_thread stack cpus pid entry top cr3 privilege argc argv s).1.threads
  unfolding create_user_thread set_user_context
  create_user-Ended u l a =
      let h = create_kernel-Ended stack cpus pid privilege s u l a in
      elim (Bool-cases ((create_kernel_thread stack cpus pid privilege s).0 == 0)) [
        | inl e ↦ rw e h
        | inr e ↦ rw e (modify-Ended _ (λ t. (refl, λ g. g)) _ u _ h)
      ]

  create_user-next :
      s.next_tid + 1 < 2 ^ 64
      → let s' = (create_user_thread stack cpus pid entry top cr3 privilege argc argv s).1 in
        (s.next_tid ≤ s'.next_tid) × (s'.next_tid ≤ s.next_tid + 1)
  unfolding create_user_thread
  create_user-next h =
      let g = create_kernel-next stack cpus pid privilege s h in
      elim (Bool-cases ((create_kernel_thread stack cpus pid privilege s).0 == 0)) [
        | inl e ↦ rw e g
        | inr e ↦ rw e g
      ]

module _ (memory : ℕ → ℕ) (u : ℕ) where
  pub step-Ended :
      (request : Request) (s : ThreadTable)
      → u < s.next_tid
      → All (Ended u) s.threads
      → All (Ended u) (step memory request s).threads
  unfolding step create_user_thread set_user_context
  step-Ended (create_kernel stack cpus pid privilege) s l a =
      create_kernel-Ended stack cpus pid privilege s u l a
  step-Ended (create_user stack cpus pid entry top cr3 privilege argc argv) s l a =
      create_user-Ended stack cpus pid entry top cr3 privilege argc argv s u l a
  step-Ended (change c) s l a = update-Ended memory u c s.threads a

  pub step-next :
      (request : Request) (s : ThreadTable)
      → s.next_tid + 1 < 2 ^ 64
      → (s.next_tid ≤ (step memory request s).next_tid)
        × ((step memory request s).next_tid ≤ s.next_tid + 1)
  unfolding step create_user_thread
  step-next (create_kernel stack cpus pid privilege) s h =
      create_kernel-next stack cpus pid privilege s h
  step-next (create_user stack cpus pid entry top cr3 privilege argc argv) s h =
      create_user-next stack cpus pid entry top cr3 privilege argc argv s h
  step-next (change c) s h = (omega arith, omega arith)
