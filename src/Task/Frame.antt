-- ===== src/Task/Frame.antt =====
-- The register frames of crates/kernel/src/task/scheduler.rs: what an interrupt pushes, how it is
-- saved with the thread, and how it is written back.
mod Tests
use kazuos.Prelude.{
  ℕ, zero, suc, ◌+◌, ◌*◌, ◌/◌, ◌%◌, Bool, true, false, Option, none, some, List, [], ◌∷◌, ◌==◌,
  if◌then◌else◌, ◌≡◌, refl, ap, ◌∙◌,
}
use kazuos.Task.Types.{Thread, Threads, UserContext}
use kazuos.Task.Thread.{find_thread, modify, set_user_context, field}
use kazuos.Task.Wake.Timer.{find_thread-modify}

pub record InterruptFrame : Type 0 where
  pub r15 : ℕ
  pub r14 : ℕ
  pub r13 : ℕ
  pub r12 : ℕ
  pub rbp : ℕ
  pub rbx : ℕ
  pub r11 : ℕ
  pub r10 : ℕ
  pub r9 : ℕ
  pub r8 : ℕ
  pub rdi : ℕ
  pub rsi : ℕ
  pub rdx : ℕ
  pub rcx : ℕ
  pub rax : ℕ
  pub rip : ℕ
  pub cs : ℕ
  pub rflags : ℕ
  pub rsp : ℕ
  pub ss : ℕ

-- The selectors of the user segments, of crates/kernel/src/arch/x86_64/gdt.rs.
abbrev pub user_code : ℕ
user_code = 27

abbrev pub user_data : ℕ
user_data = 35

-- `| 0x200`: sets the interrupt flag, bit 9.
abbrev pub with_if : ℕ → ℕ
with_if rflags = if rflags / 0x200 % 2 == 0 then rflags + 0x200 else rflags

unfoldable pub user_context : ℕ → Threads → Option UserContext
unfolding find_thread
user_context tid threads = field (λ t. t.user_context) (find_thread tid threads)

abbrev pub saved : InterruptFrame → ℕ → UserContext → UserContext
saved frame frame_ptr ctx = record ctx {
  rax = frame.rax;
  rcx = frame.rcx;
  rdx = frame.rdx;
  rsi = frame.rsi;
  rdi = frame.rdi;
  r8 = frame.r8;
  r9 = frame.r9;
  r10 = frame.r10;
  r11 = frame.r11;
  rbx = frame.rbx;
  rbp = frame.rbp;
  r12 = frame.r12;
  r13 = frame.r13;
  r14 = frame.r14;
  r15 = frame.r15;
  rip = frame.rip;
  rsp = frame.rsp;
  rflags = frame.rflags;
  kernel_rsp = frame_ptr;
}

abbrev save_in : ℕ → InterruptFrame → ℕ → Threads → Option UserContext → Threads
save_in tid frame frame_ptr threads none = threads
save_in tid frame frame_ptr threads (some ctx) =
    set_user_context tid (saved frame frame_ptr ctx) threads

-- `frame` is what stands at `frame_ptr`.
unfoldable pub save_user_context : ℕ → InterruptFrame → ℕ → Threads → Threads
unfolding user_context set_user_context
save_user_context tid frame frame_ptr threads =
    save_in tid frame frame_ptr threads (user_context tid threads)

unfoldable pub restore_user_frame : InterruptFrame → UserContext → InterruptFrame
restore_user_frame frame ctx = record frame {
  rax = ctx.rax;
  rcx = ctx.rcx;
  rdx = ctx.rdx;
  rsi = ctx.rsi;
  rdi = ctx.rdi;
  r8 = ctx.r8;
  r9 = ctx.r9;
  r10 = ctx.r10;
  r11 = ctx.r11;
  rbx = ctx.rbx;
  rbp = ctx.rbp;
  r12 = ctx.r12;
  r13 = ctx.r13;
  r14 = ctx.r14;
  r15 = ctx.r15;
  rip = ctx.rip;
  rsp = ctx.rsp;
  rflags = ctx.rflags;
  cs = user_code;
  ss = user_data;
}

-- The words from `frame_bottom` on.
unfoldable pub setup_user_frame_for_timer_on_temp_stack : UserContext → List ℕ
setup_user_frame_for_timer_on_temp_stack ctx =
    ctx.r15
    ∷ ctx.r14
    ∷ ctx.r13
    ∷ ctx.r12
    ∷ ctx.rbp
    ∷ ctx.rbx
    ∷ ctx.r11
    ∷ ctx.r10
    ∷ ctx.r9
    ∷ ctx.r8
    ∷ ctx.rdi
    ∷ ctx.rsi
    ∷ ctx.rdx
    ∷ ctx.rcx
    ∷ ctx.rax
    ∷ ctx.rip
    ∷ user_code
    ∷ with_if ctx.rflags
    ∷ ctx.rsp
    ∷ user_data
    ∷ []

unfoldable pub setup_user_frame_on_temp_stack : UserContext → List ℕ
setup_user_frame_on_temp_stack ctx =
    ctx.rax
    ∷ ctx.rcx
    ∷ ctx.rdx
    ∷ ctx.rsi
    ∷ ctx.rdi
    ∷ ctx.r8
    ∷ ctx.r9
    ∷ ctx.r10
    ∷ ctx.r11
    ∷ ctx.rbx
    ∷ ctx.rbp
    ∷ ctx.r12
    ∷ ctx.r13
    ∷ ctx.r14
    ∷ ctx.r15
    ∷ ctx.rip
    ∷ user_code
    ∷ with_if ctx.rflags
    ∷ ctx.rsp
    ∷ user_data
    ∷ []

-- The words of a frame in memory, in the order of its fields.
abbrev pub frame_words : InterruptFrame → List ℕ
frame_words f =
    f.r15 ∷ f.r14 ∷ f.r13 ∷ f.r12 ∷ f.rbp ∷ f.rbx ∷ f.r11 ∷ f.r10 ∷ f.r9 ∷ f.r8 ∷ f.rdi ∷ f.rsi
    ∷ f.rdx ∷ f.rcx ∷ f.rax ∷ f.rip ∷ f.cs ∷ f.rflags ∷ f.rsp ∷ f.ss ∷ []

-- The frame as a user thread goes on with it: the same registers, the user segments, and for the
-- path over the temporary stack interrupts enabled.
abbrev pub resumed : InterruptFrame → InterruptFrame
resumed frame = record frame { cs = user_code; ss = user_data }

find_thread-save :
    (tid : ℕ) (frame : InterruptFrame) (frame_ptr : ℕ) (threads : Threads) (t : Thread)
    → find_thread tid threads ≡ some t
    → user_context tid (save_user_context tid frame frame_ptr threads)
      ≡ some (saved frame frame_ptr t.user_context)
unfolding user_context save_user_context set_user_context
find_thread-save tid frame frame_ptr threads t e = rw e (
    ap (field (λ u. u.user_context)) (
      find_thread-modify tid (λ u. record u { user_context = saved frame frame_ptr t.user_context })
        threads t (λ u. refl) e))

-- A thread that the timer interrupts goes on with the registers it had: from the context that
-- `save_user_context` stores, `restore_user_frame` rebuilds the frame over any other frame, and
-- `setup_user_frame_for_timer_on_temp_stack` writes its words, with interrupts enabled. Both set
-- the user segments.
pub restore-save_user_context :
    (tid : ℕ) (frame other : InterruptFrame) (frame_ptr : ℕ) (threads : Threads) (t : Thread)
    → find_thread tid threads ≡ some t
    → (ctx : UserContext) × (user_context tid (save_user_context tid frame frame_ptr threads)
        ≡ some ctx)
      × (restore_user_frame other ctx ≡ resumed frame)
      × (setup_user_frame_for_timer_on_temp_stack ctx
          ≡ frame_words (record (resumed frame) { rflags = with_if frame.rflags }))
unfolding restore_user_frame setup_user_frame_for_timer_on_temp_stack
restore-save_user_context tid frame other frame_ptr threads t e = (
  saved frame frame_ptr t.user_context,
  find_thread-save tid frame frame_ptr threads t e,
  refl,
  refl,
)
