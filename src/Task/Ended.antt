-- ===== src/Task/Ended.antt =====
-- Threads that have ended, through the updates of crates/kernel/src/task/thread.rs: `Empty` and
-- `Exited` are final.
use kazuos.Prelude.{
  ℕ, Bool, true, false, [], ◌∷◌, ◌++◌, ◌==◌, ◌≡◌, refl, sym, ◌∙◌, inl, inr, Bool-cases, All,
  true-false, and-inv,
}
use kazuos.Task.Types.{
  Thread, Threads, ThreadState, empty, ready, running, sleeping, exited, WaitTarget,
}
use kazuos.Task.Thread.{
  modify, is_active, move_to, set_running, set_ready, set_sleeping, set_state, remove_thread,
}
use kazuos.Task.Wake.{
  restore_ctx_from_blocking_frame, wake, wake_all, wake_first, waits, is_sleeping,
}

-- If the thread has this tid, it has ended.
abbrev pub Ended : ℕ → Thread → Type 0
Ended tid t = t.tid ≡ tid → is_active t.state ≡ false

-- An update of a thread that keeps its tid and does not bring it back.
abbrev pub KeepsEnd : (Thread → Thread) → Type 0
KeepsEnd f =
    (t : Thread) → ((f t).tid ≡ t.tid) × (is_active t.state ≡ false → is_active (f t).state ≡ false)

pub modify-Ended :
    (f : Thread → Thread)
    → KeepsEnd f
    → (tid u : ℕ) (threads : Threads) → All (Ended u) threads
    → All (Ended u) (modify tid f threads)
unfolding modify
modify-Ended f k tid u [] a = a
modify-Ended f k tid u (t ∷ threads) a = elim (Bool-cases (t.tid == tid)) [
  | inl e ↦ rw e (λ g. (k t).1 (a.0 (sym (k t).0 ∙ g)), a.1)
  | inr e ↦ rw e (a.0, modify-Ended f k tid u threads a.1)
]

pub remove_thread-Ended :
    (tid u : ℕ) (threads : Threads)
    → All (Ended u) threads
    → All (Ended u) (remove_thread tid threads)
unfolding remove_thread
remove_thread-Ended tid u [] a = a
remove_thread-Ended tid u (t ∷ threads) a = elim (Bool-cases (t.tid == tid)) [
  | inl e ↦ rw e (remove_thread-Ended tid u threads a.1)
  | inr e ↦ rw e (a.0, remove_thread-Ended tid u threads a.1)
]

pub append-Ended :
    (u : ℕ) (threads : Threads) (t : Thread)
    → All (Ended u) threads
    → Ended u t
    → All (Ended u) (threads ++ t ∷ [])
append-Ended u [] t a e = (e, tt)
append-Ended u (t' ∷ threads) t a e = (a.0, append-Ended u threads t a.1 e)

pub move_to-KeepsEnd : (state : ThreadState) → KeepsEnd (move_to state)
move_to-KeepsEnd state t = elim (Bool-cases (is_active t.state)) [
  | inl e ↦ rw e (refl, λ g. absurd (true-false refl g))
  | inr e ↦ rw e (refl, λ g. e)
]

pub set_state-Ended :
    (tid u : ℕ) (state : ThreadState) (threads : Threads)
    → All (Ended u) threads
    → All (Ended u) (set_state tid state threads)
unfolding set_state set_running set_ready set_sleeping
set_state-Ended tid u ready threads =
    modify-Ended (move_to ready) (move_to-KeepsEnd ready) tid u threads
set_state-Ended tid u running threads =
    modify-Ended (move_to running) (move_to-KeepsEnd running) tid u threads
set_state-Ended tid u sleeping threads =
    modify-Ended (move_to sleeping) (move_to-KeepsEnd sleeping) tid u threads
set_state-Ended tid u exited threads =
    modify-Ended (λ t. record t { state = exited }) (λ t. (refl, λ g. refl)) tid u threads
set_state-Ended tid u empty threads =
    modify-Ended (λ t. record t { state = empty }) (λ t. (refl, λ g. refl)) tid u threads

-- A test that only threads pass that have not ended.
abbrev pub IsAlive : (Thread → Bool) → Type 0
IsAlive p = (t : Thread) → p t ≡ true → is_active t.state ≡ true

pub sleeping-active : (s : ThreadState) → is_sleeping s ≡ true → is_active s ≡ true
sleeping-active empty e = e
sleeping-active ready e = refl
sleeping-active running e = refl
sleeping-active sleeping e = refl
sleeping-active exited e = e

pub waits-IsAlive : (p : WaitTarget → Bool) → IsAlive (waits p)
waits-IsAlive p t e =
    sleeping-active t.state ((and-inv (is_sleeping t.state) (p t.wait_target) e).0)

pub restore_ctx-same :
    (memory : ℕ → ℕ) (retval : ℕ) (t : Thread)
    → let t' = restore_ctx_from_blocking_frame memory retval t in
      (t'.tid ≡ t.tid) × (t'.state ≡ t.state)
restore_ctx-same memory retval t = elim (Bool-cases (t.blocking_rsp == 0)) [
  | inl e ↦ rw e (refl, refl)
  | inr e ↦ rw e (refl, refl)
]

module _ (p : Thread → Bool) (alive : IsAlive p) (memory : ℕ → ℕ) (retval u : ℕ) where
  wake-Ended : (t : Thread) → p t ≡ true → Ended u t → Ended u (wake memory retval t)
  wake-Ended t e a g =
      absurd (true-false (alive t e) (a (sym (restore_ctx-same memory retval t).0 ∙ g)))

  pub wake_all-Ended :
      (threads : Threads) → All (Ended u) threads → All (Ended u) (wake_all p memory retval threads)
  unfolding wake_all
  wake_all-Ended [] a = a
  wake_all-Ended (t ∷ threads) a = elim (Bool-cases (p t)) [
    | inl e ↦ rw e (wake-Ended t e a.0, wake_all-Ended threads a.1)
    | inr e ↦ rw e (a.0, wake_all-Ended threads a.1)
  ]

  pub wake_first-Ended :
      (threads : Threads)
      → All (Ended u) threads
      → All (Ended u) (wake_first p memory retval threads).1
  unfolding wake_first
  wake_first-Ended [] a = a
  wake_first-Ended (t ∷ threads) a = elim (Bool-cases (p t)) [
    | inl e ↦ rw e (wake-Ended t e a.0, a.1)
    | inr e ↦ rw e (a.0, wake_first-Ended threads a.1)
  ]
