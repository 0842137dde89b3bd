-- ===== src/Task/Types.antt =====
-- The records of crates/kernel/src/task/thread.rs, and `WaitTarget` and `PrivilegeLevel` of
-- crates/kernel/src/task/process.rs.
use kazuos.Prelude.{ℕ, Bool, List}

pub data ThreadState : Type 0 where
  empty ready running sleeping exited : ThreadState

pub data PrivilegeLevel : Type 0 where
  system driver user : PrivilegeLevel

pub data WaitTarget : Type 0 where
  none keyboard : WaitTarget
  pid tid timer : ℕ → WaitTarget
  tick : WaitTarget
  ipc irq : ℕ → WaitTarget
  audio : WaitTarget
  pipe_read : ℕ → ℕ → ℕ → WaitTarget

pub record UserContext : Type 0 where
  pub rax : ℕ
  pub rbx : ℕ
  pub rcx : ℕ
  pub rdx : ℕ
  pub rsi : ℕ
  pub rdi : ℕ
  pub rbp : ℕ
  pub r8 : ℕ
  pub r9 : ℕ
  pub r10 : ℕ
  pub r11 : ℕ
  pub r12 : ℕ
  pub r13 : ℕ
  pub r14 : ℕ
  pub r15 : ℕ
  pub rip : ℕ
  pub rsp : ℕ
  pub rflags : ℕ
  pub cr3 : ℕ
  pub kernel_rsp : ℕ
  pub user_stack_top : ℕ

abbrev pub empty_user_context : UserContext
empty_user_context = record {
  rax = 0;
  rbx = 0;
  rcx = 0;
  rdx = 0;
  rsi = 0;
  rdi = 0;
  rbp = 0;
  r8 = 0;
  r9 = 0;
  r10 = 0;
  r11 = 0;
  r12 = 0;
  r13 = 0;
  r14 = 0;
  r15 = 0;
  rip = 0;
  rsp = 0;
  rflags = 0x202;
  cr3 = 0;
  kernel_rsp = 0;
  user_stack_top = 0;
}

pub record Thread : Type 0 where
  pub tid : ℕ
  pub pid : ℕ
  pub state : ThreadState
  pub cpu_ticks : ℕ
  pub user_context : UserContext
  pub kernel_rsp : ℕ
  pub kernel_stack_base : ℕ
  pub kernel_preempted : Bool
  pub blocking_rsp : ℕ
  pub blocking_retval : ℕ
  pub wait_target : WaitTarget
  pub privilege : PrivilegeLevel
  pub assigned_cpu : ℕ

-- The static `THREADS`.
abbrev pub Threads : Type 0
Threads = List Thread
