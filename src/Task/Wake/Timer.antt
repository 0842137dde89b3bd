-- ===== src/Task/Wake/Timer.antt =====
-- Sleeping until a deadline, with the thread updates of crates/kernel/src/task/thread.rs.
use kazuos.Prelude.{
  ℕ, ◌≤◌, ◌<◌, Bool, true, false, Option, some, [], ◌∷◌, ◌==◌, leb, if◌then◌else◌, ◌≡◌, refl, sym,
  ap, subst, ◌∙◌, arith, Bool-cases, inl, inr,
}
use kazuos.Task.Types.{Thread, Threads, ready, sleeping, WaitTarget}
use kazuos.Task.Thread.{
  find_thread, modify, is_active, move_to, set_sleeping, set_wait_target, state, wait_target, field,
}
use kazuos.Task.Wake.{wake, wake_all, waits, on_timer, wake_timer_sleepers}
use kazuos.Task.Ended.{restore_ctx-same, move_to-KeepsEnd}

nothing_found :
    (tid : ℕ) (t : Thread) (o : Option Thread)
    → find_thread tid [] ≡ some t
    → find_thread tid [] ≡ o
unfolding find_thread
nothing_found tid t o e = cc

module _ (tid : ℕ) (u : Thread) (threads : Threads) where
  find_here : u.tid == tid ≡ true → find_thread tid (u ∷ threads) ≡ some u
  unfolding find_thread
  find_here e = rw e refl

  find_there : u.tid == tid ≡ false → find_thread tid (u ∷ threads) ≡ find_thread tid threads
  unfolding find_thread
  find_there e = rw e refl

-- `modify` on the thread it finds, and on the others.
pub find_thread-modify :
    (tid : ℕ) (f : Thread → Thread) (threads : Threads) (t : Thread)
    → ((u : Thread) → (f u).tid ≡ u.tid)
    → find_thread tid threads ≡ some t
    → find_thread tid (modify tid f threads) ≡ some (f t)
unfolding modify
find_thread-modify tid f [] t k e = nothing_found tid t (some (f t)) e
find_thread-modify tid f (u ∷ threads) t k e = elim (Bool-cases (u.tid == tid)) [
  | inl g ↦ rw g (
      find_here tid (f u) threads (subst (λ v. v == tid ≡ true) (sym (k u)) g)
      ∙ ap (field f) (sym (find_here tid u threads g) ∙ e))
  | inr g ↦ rw g (
      find_there tid u (modify tid f threads) g
      ∙ find_thread-modify tid f threads t k (sym (find_there tid u threads g) ∙ e))
]

abbrev pub wake_if : (Thread → Bool) → (ℕ → ℕ) → ℕ → Thread → Thread
wake_if p memory retval t = if p t then wake memory retval t else t

wake_if-tid :
    (p : Thread → Bool) (memory : ℕ → ℕ) (retval : ℕ) (t : Thread)
    → (wake_if p memory retval t).tid ≡ t.tid
wake_if-tid p memory retval t = elim (Bool-cases (p t)) [
  | inl e ↦ rw e (restore_ctx-same memory retval t).0
  | inr e ↦ rw e refl
]

wake_all-cons :
    (p : Thread → Bool) (memory : ℕ → ℕ) (retval : ℕ) (t : Thread) (threads : Threads)
    → wake_all p memory retval (t ∷ threads)
      ≡ wake_if p memory retval t ∷ wake_all p memory retval threads
unfolding wake_all
wake_all-cons p memory retval t threads = elim (Bool-cases (p t)) [
  | inl e ↦ rw e refl
  | inr e ↦ rw e refl
]

pub find_thread-wake_all :
    (tid : ℕ) (p : Thread → Bool) (memory : ℕ → ℕ) (retval : ℕ) (threads : Threads) (t : Thread)
    → find_thread tid threads ≡ some t
    → find_thread tid (wake_all p memory retval threads) ≡ some (wake_if p memory retval t)
unfolding wake_all
find_thread-wake_all tid p memory retval [] t e = nothing_found tid t _ e
find_thread-wake_all tid p memory retval (u ∷ threads) t e =
    rw (wake_all-cons p memory retval u threads) (elim (Bool-cases (u.tid == tid)) [
      | inl g ↦
          find_here tid (wake_if p memory retval u) (wake_all p memory retval threads)
            (subst (λ v. v == tid ≡ true) (sym (wake_if-tid p memory retval u)) g)
          ∙ ap (field (wake_if p memory retval)) (sym (find_here tid u threads g) ∙ e)
      | inr g ↦
          find_there tid (wake_if p memory retval u) (wake_all p memory retval threads)
            (subst (λ v. v == tid ≡ false) (sym (wake_if-tid p memory retval u)) g)
          ∙ find_thread-wake_all tid p memory retval threads t
              (sym (find_there tid u threads g) ∙ e)
    ])

-- The thread waits for the deadline: the target is set, and the thread put to sleep.
abbrev pub sleep_until : ℕ → ℕ → Threads → Threads
sleep_until tid deadline threads =
    set_sleeping tid (set_wait_target tid (WaitTarget.timer deadline) threads)

sleeper_found :
    (memory : ℕ → ℕ) (tid deadline now_tsc : ℕ) (threads : Threads) (t : Thread)
    → find_thread tid threads ≡ some t
    → is_active t.state ≡ true
    → find_thread tid (wake_timer_sleepers memory now_tsc (sleep_until tid deadline threads))
      ≡ some (
          wake_if
            (waits (on_timer now_tsc))
            memory
            0
            (record t { state = sleeping; wait_target = WaitTarget.timer deadline }))
unfolding wake_timer_sleepers set_sleeping set_wait_target
sleeper_found memory tid deadline now_tsc threads t e alive =
    let targeted =
      find_thread-modify tid (λ u. record u { wait_target = WaitTarget.timer deadline }) threads t
        (λ u. refl) e in
    let asleep =
      find_thread-modify tid (move_to sleeping) _ _ (λ u. (move_to-KeepsEnd sleeping u).0)
        targeted in
    let g : move_to sleeping (record t { wait_target = WaitTarget.timer deadline })
        ≡ record t { state = sleeping; wait_target = WaitTarget.timer deadline } =
      rw alive refl in
    find_thread-wake_all tid (waits (on_timer now_tsc)) memory 0 _ _ asleep
    ∙ ap (λ v. some (wake_if (waits (on_timer now_tsc)) memory 0 v)) g

le→leb : (a b : ℕ) → a ≤ b → leb a b ≡ true
le→leb a b h = ground arith

gt→leb : (a b : ℕ) → b < a → leb a b ≡ false
gt→leb a b h = ground arith

-- A thread that was put to sleep until a deadline is made Ready by `wake_timer_sleepers` exactly
-- when the deadline has come, and its wait target is cleared then; before, it sleeps on.
pub wake_timer_sleepers-set_sleeping :
    (memory : ℕ → ℕ) (tid deadline now_tsc : ℕ) (threads : Threads) (t : Thread)
    → find_thread tid threads ≡ some t
    → is_active t.state ≡ true
    → let threads' = wake_timer_sleepers memory now_tsc (sleep_until tid deadline threads) in
      (deadline ≤ now_tsc
        → (state tid threads' ≡ some ready) × (wait_target tid threads' ≡ some WaitTarget.none))
      × (now_tsc < deadline
          → (state tid threads' ≡ some sleeping)
            × (wait_target tid threads' ≡ some (WaitTarget.timer deadline)))
unfolding wake_timer_sleepers set_sleeping set_wait_target state wait_target
wake_timer_sleepers-set_sleeping memory tid deadline now_tsc threads t e alive =
    let found = sleeper_found memory tid deadline now_tsc threads t e alive in
    (
      λ l.
          let due = le→leb deadline now_tsc l in
          (
            ap (field (λ u. u.state)) found ∙ rw due refl,
            ap (field (λ u. u.wait_target)) found ∙ rw due refl,
          ),
      λ l.
          let early = gt→leb deadline now_tsc l in
          (
            ap (field (λ u. u.state)) found ∙ rw early refl,
            ap (field (λ u. u.wait_target)) found ∙ rw early refl,
          ),
    )
