-- ===== src/Task/Frame/Tests.antt =====
-- A run of the frames.
use kazuos.Prelude.{ℕ, [], ◌∷◌, ◌≡◌, refl, some}
use kazuos.Task.Types.{Threads, UserContext, user}
use kazuos.Task.Thread.{find_thread, new_thread}
use kazuos.Task.Frame.{
  InterruptFrame, user_context, save_user_context, restore_user_frame, resumed,
  setup_user_frame_for_timer_on_temp_stack, frame_words, with_if, restore-save_user_context,
}

abbrev frame_of : ℕ → InterruptFrame
frame_of n = record {
  r15 = n;
  r14 = n;
  r13 = n;
  r12 = n;
  rbp = n;
  rbx = n;
  r11 = n;
  r10 = n;
  r9 = n;
  r8 = n;
  rdi = n;
  rsi = n;
  rdx = n;
  rcx = n;
  rax = n;
  rip = n;
  cs = n;
  rflags = n;
  rsp = n;
  ss = n;
}

abbrev one : Threads
one = new_thread 5 1 4096 user 0 ∷ []

restore-save_user_context_example :
    (ctx : UserContext) × (user_context 5 (save_user_context 5 (frame_of 3) 64 one) ≡ some ctx)
    × (restore_user_frame (frame_of 0) ctx ≡ resumed (frame_of 3))
    × (setup_user_frame_for_timer_on_temp_stack ctx
        ≡ frame_words (record (resumed (frame_of 3)) { rflags = with_if 3 }))
unfolding find_thread
restore-save_user_context_example =
    restore-save_user_context 5 (frame_of 3) (frame_of 0) 64 one (new_thread 5 1 4096 user 0) refl
