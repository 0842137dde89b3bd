-- ===== src/Task/Thread.antt =====
-- The thread table of crates/kernel/src/task/thread.rs: creation, removal, and the accessors by
-- tid. Every function runs under `THREADS_LOCK`, so each is one step on the table.
use kazuos.Prelude.{
  ℕ, ◌+◌, ◌-◌, ◌%◌, min, max, Bool, true, false, not, ◌&&◌, Option, none, some, [], ◌∷◌, ◌++◌, ◌==◌,
  if◌then◌else◌, add64, u64_max,
}
use kazuos.Task.Types.{
  Thread, Threads, ThreadState, empty, ready, running, sleeping, exited, WaitTarget, PrivilegeLevel,
  UserContext, empty_user_context,
}

-- `threads.iter().find(|t| t.tid == tid)`
unfoldable pub find_thread : ℕ → Threads → Option Thread
find_thread tid [] = none
find_thread tid (t ∷ threads) = if t.tid == tid then some t else find_thread tid threads

-- An update through `threads.iter_mut().find(|t| t.tid == tid)`.
unfoldable pub modify : ℕ → (Thread → Thread) → Threads → Threads
modify tid f [] = []
modify tid f (t ∷ threads) = if t.tid == tid then f t ∷ threads else t ∷ modify tid f threads

-- The statics `THREADS`, `NEXT_TID` and `NEXT_ASSIGN_CPU`.
pub record ThreadTable : Type 0 where
  pub threads : Threads
  pub next_tid : ℕ
  pub next_assign_cpu : ℕ

abbrev pub kernel_stack_size : ℕ
kernel_stack_size = 65536

abbrev pub new_thread : ℕ → ℕ → ℕ → PrivilegeLevel → ℕ → Thread
new_thread tid pid stack_base privilege cpu = record {
  tid = tid;
  pid = pid;
  state = sleeping;
  cpu_ticks = 0;
  user_context = empty_user_context;
  kernel_rsp = add64 stack_base kernel_stack_size - 160;
  kernel_stack_base = stack_base;
  kernel_preempted = false;
  blocking_rsp = 0;
  blocking_retval = 0;
  wait_target = WaitTarget.none;
  privilege = privilege;
  assigned_cpu = cpu;
}

-- The heap gives the stack, or nothing; `cpu_count` is the number of started CPUs. The words that
-- `setup_kernel_task_stack` writes to the stack are not part of the table.
unfoldable pub create_kernel_thread :
    Option ℕ → ℕ → ℕ → PrivilegeLevel → ThreadTable → ℕ × ThreadTable
create_kernel_thread none cpu_count pid privilege s = (0, s)
create_kernel_thread (some stack_base) cpu_count pid privilege s =
    let cpu = s.next_assign_cpu % max cpu_count 1 in
    (
      s.next_tid,
      record {
        threads = s.threads ++ new_thread s.next_tid pid stack_base privilege cpu ∷ [];
        next_tid = add64 s.next_tid 1;
        next_assign_cpu = add64 s.next_assign_cpu 1;
      },
    )

unfoldable pub set_user_context : ℕ → UserContext → Threads → Threads
unfolding modify
set_user_context tid context = modify tid λ t. record t { user_context = context }

unfoldable pub create_user_thread :
    Option ℕ → ℕ → ℕ → ℕ → ℕ → ℕ → PrivilegeLevel → ℕ → ℕ → ThreadTable → ℕ × ThreadTable
unfolding create_kernel_thread set_user_context
create_user_thread stack cpu_count pid entry user_stack_top cr3 privilege argc argv s =
    let (tid, s') = create_kernel_thread stack cpu_count pid privilege s in
    if tid == 0 then (0, s') else (
      tid,
      record s' {
        threads =
            set_user_context tid
              (record empty_user_context {
                rip = entry;
                rsp = user_stack_top;
                cr3 = cr3;
                user_stack_top = user_stack_top;
                rdi = argc;
                rsi = argv;
              })
              s'.threads;
      },
    )

-- `Ready | Running | Sleeping`
abbrev pub is_active : ThreadState → Bool
is_active empty = false
is_active exited = false
is_active ready = true
is_active running = true
is_active sleeping = true

-- `set_running`, `set_ready` and `set_sleeping`: no thread leaves `Empty` or `Exited`.
abbrev pub move_to : ThreadState → Thread → Thread
move_to state t = if is_active t.state then record t { state = state } else t

unfoldable pub set_running : ℕ → Threads → Threads
unfolding modify
set_running tid = modify tid (move_to running)

unfoldable pub set_ready : ℕ → Threads → Threads
unfolding modify
set_ready tid = modify tid (move_to ready)

unfoldable pub set_sleeping : ℕ → Threads → Threads
unfolding modify
set_sleeping tid = modify tid (move_to sleeping)

unfoldable pub set_state : ℕ → ThreadState → Threads → Threads
unfolding set_running set_ready set_sleeping
set_state tid ready threads = set_ready tid threads
set_state tid running threads = set_running tid threads
set_state tid sleeping threads = set_sleeping tid threads
set_state tid exited threads = modify tid (λ t. record t { state = exited }) threads
set_state tid empty threads = modify tid (λ t. record t { state = empty }) threads

abbrev pub field {ℓ} : {A : Type ℓ} → (Thread → A) → Option Thread → Option A
field f none = none
field f (some t) = some (f t)

unfoldable pub state : ℕ → Threads → Option ThreadState
unfolding find_thread
state tid threads = field (λ t. t.state) (find_thread tid threads)

unfoldable pub wait_target : ℕ → Threads → Option WaitTarget
unfolding find_thread
wait_target tid threads = field (λ t. t.wait_target) (find_thread tid threads)

unfoldable pub set_wait_target : ℕ → WaitTarget → Threads → Threads
unfolding modify
set_wait_target tid target = modify tid λ t. record t { wait_target = target }

unfoldable pub set_blocking_rsp : ℕ → ℕ → Threads → Threads
unfolding modify
set_blocking_rsp tid rsp = modify tid λ t. record t { blocking_rsp = rsp }

abbrev pub take_rsp : ℕ → Threads → Option Thread → Option ℕ × Threads
take_rsp tid threads none = (none, threads)
take_rsp tid threads (some t) =
    if t.blocking_rsp == 0
    then (none, threads)
    else (some t.blocking_rsp, modify tid (λ u. record u { blocking_rsp = 0 }) threads)

unfoldable pub take_blocking_rsp : ℕ → Threads → Option ℕ × Threads
unfolding find_thread modify
take_blocking_rsp tid threads = take_rsp tid threads (find_thread tid threads)

abbrev pub take_retval : ℕ → Threads → Option Thread → ℕ × Threads
take_retval tid threads none = (0, threads)
take_retval tid threads (some t) =
    (t.blocking_retval, modify tid (λ u. record u { blocking_retval = 0 }) threads)

unfoldable pub take_blocking_retval : ℕ → Threads → ℕ × Threads
unfolding find_thread modify
take_blocking_retval tid threads = take_retval tid threads (find_thread tid threads)

-- `u64::saturating_add`
unfoldable pub add_cpu_ticks : ℕ → ℕ → Threads → Threads
unfolding modify
add_cpu_ticks tid ticks = modify tid λ t. record t { cpu_ticks = min (t.cpu_ticks + ticks) u64_max }

unfoldable pub set_assigned_cpu : ℕ → ℕ → Threads → Threads
unfolding modify
set_assigned_cpu tid cpu = modify tid λ t. record t { assigned_cpu = cpu }

unfoldable pub remove_thread : ℕ → Threads → Threads
remove_thread tid [] = []
remove_thread tid (t ∷ threads) =
    let rest = remove_thread tid threads in if t.tid == tid then rest else t ∷ rest

unfoldable pub set_thread_pid : ℕ → ℕ → Threads → Threads
unfolding modify
set_thread_pid tid pid = modify tid λ t. record t { pid = pid }

abbrev pub is_empty : ThreadState → Bool
is_empty empty = true
is_empty _ = false

unfoldable pub thread_pid : ℕ → Threads → Option ℕ
thread_pid tid [] = none
thread_pid tid (t ∷ threads) =
    if t.tid == tid && not (is_empty t.state) then some t.pid else thread_pid tid threads
