-- ===== src/Task/Process/State.antt =====
-- The changes of single processes and of their threads, and their end, of
-- crates/kernel/src/task/process.rs.
use kazuos.Prelude.{
  ℕ, ◌+◌, ◌-◌, min, Bool, not, ◌&&◌, Option, none, some, List, [], ◌∷◌, ◌++◌, ◌==◌, ltb,
  if◌then◌else◌, u64_max,
}
use kazuos.Task.Types.{Thread, ThreadState, Threads}
use kazuos.Task.Thread as ThreadTable
use kazuos.Task.Thread.{create_user_thread, remove_thread}
use kazuos.Task.Wake.{wakeup_pid_waiters, wakeup_thread_waiters}
use kazuos.Task.Process.{
  Effect, release_framebuffer, clear_current_user, close_all, release_irq, free_dma, free_pci_mmio,
  free_heap, free_image, free_address_space, defer_free_kernel_stack, cleanup_shm,
  clear_current_pid, with_effects, Process, ProcessState, ready, running, sleeping, Tasks,
  find_process, modify, update, with_threads, field_or, main_tid, on_tid, privilege_level,
}
use kazuos.Task.Process.Signals.{set_kill_pending, kill_children}
use kazuos.Task.Process.Queries.{is_active_process, live_thread_count}

abbrev pub move_process : ProcessState → Process → Process
move_process state p = if is_active_process p.state then record p { state = state } else p

-- The thread is the current one of the CPU, if it has one.
unfoldable pub set_running : ℕ → Option ℕ → Tasks → Tasks
unfolding modify ThreadTable.set_running
set_running pid current_tid s =
    on_tid ThreadTable.set_running current_tid (update pid (move_process running) s)

unfoldable pub set_ready : ℕ → Tasks → Tasks
unfolding modify main_tid ThreadTable.set_ready
set_ready pid s = on_tid ThreadTable.set_ready (main_tid pid s) (update pid (move_process ready) s)

unfoldable pub set_sleeping : ℕ → Tasks → Tasks
unfolding modify main_tid ThreadTable.set_sleeping
set_sleeping pid s =
    on_tid ThreadTable.set_sleeping (main_tid pid s) (update pid (move_process sleeping) s)

unfoldable pub add_memory_bytes : ℕ → ℕ → Tasks → Tasks
unfolding modify
add_memory_bytes pid bytes =
    update pid λ p. record p { memory_bytes = min (p.memory_bytes + bytes) u64_max }

unfoldable pub sub_memory_bytes : ℕ → ℕ → Tasks → Tasks
unfolding modify
sub_memory_bytes pid bytes = update pid λ p. record p { memory_bytes = p.memory_bytes - bytes }

unfoldable pub set_winsize : ℕ → ℕ → ℕ → Tasks → Tasks
unfolding modify
set_winsize pid cols rows = update pid λ p. record p { term_cols = cols; term_rows = rows }

unfoldable pub set_parent : ℕ → ℕ → Tasks → Tasks
unfolding modify
set_parent pid parent = update pid λ p. record p { parent = parent }

unfoldable pub set_background : ℕ → Bool → Tasks → Tasks
unfolding modify
set_background pid background = update pid λ p. record p { background = background }

unfoldable pub add_thread_to_process : ℕ → ℕ → Tasks → Tasks
unfolding modify
add_thread_to_process pid tid = update pid λ p. record p { threads = p.threads ++ tid ∷ [] }

-- `retain(|&t| t != tid)`
unfoldable pub without : ℕ → List ℕ → List ℕ
without tid [] = []
without tid (t ∷ tids) = let rest = without tid tids in if t == tid then rest else t ∷ rest

unfoldable pub remove_thread_from_process : ℕ → ℕ → Tasks → Tasks
unfolding modify without
remove_thread_from_process pid tid = update pid λ p. record p { threads = without tid p.threads }

abbrev pub spawned : ℕ → ℕ × ThreadTable.ThreadTable → Tasks → ℕ × Tasks
spawned pid (tid, table) s = if tid == 0 then (0, record s { table = table }) else (
  tid,
  with_threads (ThreadTable.set_ready tid)
      (add_thread_to_process pid tid (record s { table = table })),
)

-- A thread of the current process, whose address space is `cr3`.
unfoldable pub spawn_user_thread : Option ℕ → ℕ → ℕ → Option ℕ → ℕ → ℕ → ℕ → Tasks → ℕ × Tasks
unfolding create_user_thread privilege_level add_thread_to_process ThreadTable.set_ready
spawn_user_thread stack cpu_count pid none entry arg stack_top s = (0, s)
spawn_user_thread stack cpu_count pid (some cr3) entry arg stack_top s =
    if pid == 0
    then (0, s)
    else spawned pid
        (create_user_thread stack cpu_count pid entry stack_top cr3 (privilege_level pid s) arg 0
          s.table)
        s

unfoldable pub remove_threads : List ℕ → Threads → Threads
unfolding remove_thread
remove_threads [] threads = threads
remove_threads (tid ∷ tids) threads = remove_threads tids (remove_thread tid threads)

-- `swap_remove` at the first process with the id: the last one takes its place.
unfoldable pub last_or : Process → List Process → Process
last_or p [] = p
last_or p (q ∷ processes) = last_or q processes

unfoldable pub but_last : List Process → List Process
but_last [] = []
but_last (p ∷ []) = []
but_last (p ∷ q ∷ processes) = p ∷ but_last (q ∷ processes)

abbrev pub in_place : Process → List Process → List Process
in_place p [] = []
in_place p (q ∷ processes) = last_or q processes ∷ but_last (q ∷ processes)

unfoldable pub swap_remove : ℕ → List Process → List Process
unfolding last_or but_last
swap_remove pid [] = []
swap_remove pid (p ∷ processes) =
    if p.pid == pid then in_place p processes else p ∷ swap_remove pid processes

unfoldable pub remove_process : ℕ → Tasks → Tasks
unfolding find_process swap_remove remove_threads
remove_process pid s =
    field_or s
      (λ p.
        with_threads (remove_threads p.threads)
          (record s { processes = swap_remove pid s.processes }))
      (find_process pid s.processes)

abbrev stack_base_of : Option Thread → ℕ
stack_base_of none = 0
stack_base_of (some t) = t.kernel_stack_base

-- The end of the thread `tid` of the process `pid`.
unfoldable pub exit_current_thread : (ℕ → ℕ) → ℕ → ℕ → Tasks → Tasks
unfolding remove_thread_from_process ThreadTable.set_state wakeup_thread_waiters remove_thread
    ThreadTable.find_thread
exit_current_thread memory pid tid s =
    let s' =
      with_effects (clear_current_user pid ∷ clear_current_pid ∷ [])
        (remove_thread_from_process pid tid s) in
    if tid == 0
    then s'
    else (let stack_base = stack_base_of (ThreadTable.find_thread tid s'.table.threads) in
        with_effects (defer_free_kernel_stack stack_base ∷ []) (
          with_threads
            (λ threads. remove_thread tid (
              wakeup_thread_waiters memory tid
                (ThreadTable.set_state tid ThreadState.exited threads)))
            s'))

abbrev pub set_kernel_running : Tasks → Tasks
set_kernel_running s = update 0 (λ p. record p { state = running }) s

abbrev cr3_of : Option Thread → Option ℕ
cr3_of none = none
cr3_of (some t) = some t.user_context.cr3

abbrev thread_of : Option ℕ → Threads → Option Thread
thread_of none threads = none
thread_of (some tid) threads = ThreadTable.find_thread tid threads

unfoldable pub user_cr3 : ℕ → Tasks → Option ℕ
unfolding main_tid ThreadTable.find_thread
user_cr3 pid s = cr3_of (thread_of (main_tid pid s) s.table.threads)

abbrev pub space_effects : ℕ → Option ℕ → List Effect
space_effects pid none = []
space_effects pid (some cr3) = cleanup_shm pid cr3 ∷ free_address_space cr3 ∷ []

-- What a process gives back, its address space before the frames of its image.
abbrev pub releases : ℕ → Option ℕ → List Effect
releases pid cr3 =
    release_framebuffer pid
    ∷ clear_current_user pid
    ∷ close_all pid
    ∷ release_irq pid
    ∷ free_dma pid
    ∷ free_pci_mmio pid
    ∷ free_heap pid
    ∷ (space_effects pid cr3 ++ free_image pid ∷ [])

abbrev pub tear_down : (ℕ → ℕ) → ℕ → ℕ → Tasks → Tasks
tear_down memory pid tid s =
    if pid == 0
    then set_kernel_running s
    else (let stack_base = stack_base_of (ThreadTable.find_thread tid s.table.threads) in
        let s1 = kill_children pid s in
        let s2 = with_effects (releases pid (user_cr3 pid s1)) s1 in
        with_effects (defer_free_kernel_stack stack_base ∷ [])
          (with_threads (wakeup_pid_waiters memory pid) (remove_process pid s2)))

-- The last live thread takes the process with it; any other leaves alone.
unfoldable pub exit_current : (ℕ → ℕ) → ℕ → ℕ → Tasks → Tasks
unfolding live_thread_count set_kill_pending exit_current_thread kill_children remove_process
    wakeup_pid_waiters ThreadTable.set_state wakeup_thread_waiters modify user_cr3
    ThreadTable.find_thread
exit_current memory pid tid s =
    if not (pid == 0) && ltb 1 (live_thread_count pid s)
    then exit_current_thread memory pid tid (set_kill_pending pid s)
    else let s' = with_effects (clear_current_pid ∷ []) (tear_down memory pid tid s) in
      if tid == 0
      then s'
      else with_threads
          (λ threads.
            wakeup_thread_waiters memory tid (ThreadTable.set_state tid ThreadState.exited threads))
          s'
