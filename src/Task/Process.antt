-- ===== src/Task/Process.antt =====
-- The process table of crates/kernel/src/task/process.rs over the thread table. Every function runs
-- under the threads lock, so each is one step on both.
pub mod Signals
pub mod Queries
pub mod State
pub mod Spared
pub mod Moves
pub mod Calls
pub mod Kept
pub mod Distinct
pub mod Held
pub mod Pending
pub mod Victim
mod Tests
use kazuos.Prelude.{
  ℕ, zero, suc, ◌+◌, ◌-◌, min, Bool, true, false, not, ◌&&◌, Option, none, some, List, [], ◌∷◌,
  ◌++◌, ◌==◌, if◌then◌else◌, length, take, drop, pad, add64, u64_max,
}
use kazuos.Task.Types.{
  Thread, Threads, WaitTarget, PrivilegeLevel, system, driver, user, UserContext,
  empty_user_context,
}
use kazuos.Task.Thread.{
  ThreadTable, create_kernel_thread, create_user_thread, set_user_context, set_thread_pid,
  remove_thread, is_active,
}

pub data ProcessState : Type 0 where
  empty ready running sleeping exited : ProcessState

pub record Process : Type 0 where
  pub pid : ℕ
  pub state : ProcessState
  pub image_name : List ℕ
  pub start_tsc : ℕ
  pub entry : ℕ
  pub stack_top : ℕ
  pub step : ℕ
  pub memory_bytes : ℕ
  pub background : Bool
  pub sigint_catch : Bool
  pub sigint_pending : Bool
  pub sigterm_catch : Bool
  pub sigterm_pending : Bool
  pub kill_pending : Bool
  pub parent : ℕ
  pub term_cols : ℕ
  pub term_rows : ℕ
  pub privilege : PrivilegeLevel
  pub main_tid : Option ℕ
  pub threads : List ℕ

-- What the end of a thread or a process asks of other components, in order.
pub data Effect : Type 0 where
  release_framebuffer clear_current_user close_all release_irq free_dma : ℕ → Effect
  free_pci_mmio free_heap free_image free_address_space defer_free_kernel_stack : ℕ → Effect
  cleanup_shm : ℕ → ℕ → Effect
  clear_current_pid : Effect

-- The statics `PROCESSES` and `NEXT_PID`, and the thread table.
pub record Tasks : Type 0 where
  pub processes : List Process
  pub next_pid : ℕ
  pub table : ThreadTable
  pub effects : List Effect

abbrev pub image_name_len : ℕ
image_name_len = 32

-- A name cut to 31 bytes and filled with zeroes.
abbrev pub fixed_name : List ℕ → List ℕ
fixed_name bytes = pad (take (image_name_len - 1) bytes) image_name_len 0

abbrev pub new_process : ℕ → List ℕ → ℕ → PrivilegeLevel → ℕ → Process
new_process pid image_name now privilege main_tid = record {
  pid = pid;
  state = sleeping;
  image_name = fixed_name image_name;
  start_tsc = now;
  entry = 0;
  stack_top = 0;
  step = 0;
  memory_bytes = 0;
  background = false;
  sigint_catch = false;
  sigint_pending = false;
  sigterm_catch = false;
  sigterm_pending = false;
  kill_pending = false;
  parent = 0;
  term_cols = 0;
  term_rows = 0;
  privilege = privilege;
  main_tid = some main_tid;
  threads = main_tid ∷ [];
}

abbrev pub kernel_name : List ℕ
kernel_name = 107 ∷ 101 ∷ 114 ∷ 110 ∷ 101 ∷ 108 ∷ []

abbrev pub kernel_process : Process
kernel_process = record (new_process 0 kernel_name 0 driver 0) {
  state = running;
  main_tid = none;
  threads = [];
}

-- The tables after `init`.
abbrev pub init : Tasks
init = record {
  processes = kernel_process ∷ [];
  next_pid = 1;
  table = record { threads = []; next_tid = 1; next_assign_cpu = 0 };
  effects = [];
}

-- `processes.iter().find(|p| p.pid == pid)`
unfoldable pub find_process : ℕ → List Process → Option Process
find_process pid [] = none
find_process pid (p ∷ processes) = if p.pid == pid then some p else find_process pid processes

-- An update through `processes.iter_mut().find(|p| p.pid == pid)`.
unfoldable pub modify : ℕ → (Process → Process) → List Process → List Process
modify pid f [] = []
modify pid f (p ∷ processes) = if p.pid == pid then f p ∷ processes else p ∷ modify pid f processes

abbrev pub update : ℕ → (Process → Process) → Tasks → Tasks
update pid f s = record s { processes = modify pid f s.processes }

abbrev pub with_effects : List Effect → Tasks → Tasks
with_effects effects s = record s { effects = s.effects ++ effects }

abbrev pub with_threads : (Threads → Threads) → Tasks → Tasks
with_threads f s = record s { table = record s.table { threads = f s.table.threads } }

-- A field of a process, or what the source takes where there is none.
abbrev pub field_or {ℓ} : {A : Type ℓ} → A → (Process → A) → Option Process → A
field_or a f none = a
field_or a f (some p) = f p

unfoldable pub main_tid : ℕ → Tasks → Option ℕ
unfolding find_process
main_tid pid s = field_or none (λ p. p.main_tid) (find_process pid s.processes)

abbrev pub on_tid : (ℕ → Threads → Threads) → Option ℕ → Tasks → Tasks
on_tid f none s = s
on_tid f (some tid) s = with_threads (f tid) s

unfoldable pub privilege_level : ℕ → Tasks → PrivilegeLevel
unfolding find_process
privilege_level pid s = field_or user (λ p. p.privilege) (find_process pid s.processes)

unfoldable pub create_process : List ℕ → ℕ → PrivilegeLevel → ℕ → Tasks → ℕ × Tasks
create_process image_name now privilege main_tid s = (
  s.next_pid,
  record s {
    processes = s.processes ++ new_process s.next_pid image_name now privilege main_tid ∷ [];
    next_pid = add64 s.next_pid 1;
  },
)

-- The thread got the tid 0: there was no stack for it.
abbrev pub join_process : ℕ → ℕ × Tasks → UserContext → ℕ × Tasks
join_process tid (pid, s) context = if pid == 0 then (0, with_threads (remove_thread tid) s) else (
  pid,
  with_threads (λ threads. set_user_context tid context (set_thread_pid tid pid threads)) s,
)

-- The stack that the heap gives, the number of CPUs and the time stamp come first.
unfoldable pub spawn_user_process :
    Option ℕ → ℕ → ℕ → List ℕ → ℕ → ℕ → ℕ → PrivilegeLevel → ℕ → ℕ → Tasks → ℕ × Tasks
unfolding create_kernel_thread create_process set_user_context set_thread_pid remove_thread
spawn_user_process stack cpu_count now image_name entry user_stack_top cr3 privilege argc argv s =
    let (tid, table) = create_kernel_thread stack cpu_count 0 privilege s.table in
    if tid == 0
    then (0, record s { table = table })
    else join_process tid (create_process image_name now privilege tid (record s { table = table }))
        (record empty_user_context {
          rip = entry;
          rsp = user_stack_top;
          cr3 = cr3;
          user_stack_top = user_stack_top;
          rdi = argc;
          rsi = argv;
        })
