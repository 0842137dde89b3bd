-- ===== src/Fs/Fd/Counted.antt =====
-- At all times every pipe of crates/kernel/src/fs/pipe.rs counts exactly the descriptors of
-- crates/kernel/src/fs/fd.rs for its ends, and a pipe without one is freed.
use kazuos.Prelude.{
  ℕ, ◌+◌, ◌*◌, ◌^◌, ◌<◌, List, [], ◌∷◌, refl, subst, arith, length, ltb, Bool-cases, inl, inr,
  ltb→lt,
}
use kazuos.Fs.Pipe.{pipe_at}
use kazuos.Fs.Fd.Counts.{count}
use kazuos.Fs.Fd.{get_fd}
use kazuos.Fs.Fd.Ends.{HasEnds}
use kazuos.Fs.Fd.Alloc.{writers, readers, IsCounted-mono}
use kazuos.Fs.Fd.History.{World, boot, Request, Section, Move, calls, does, advance, run}
use kazuos.Fs.Fd.Settled.{IsSettled, serve-IsSettled}
use kazuos.Fs.Fd.Sections.{Keeps, perform-IsSettled}

-- Each lock section of a started process finds what `Keeps` asks for at its time.
unfoldable pub AreKept : List Move → World → Type 0
unfolding run
AreKept [] w = Unit {0}
AreKept (calls caller request ∷ history) w = AreKept history (advance (calls caller request) w)
AreKept (does pid section ∷ history) w =
    (pid < w.next_pid → Keeps pid section w.fds) × AreKept history (advance (does pid section) w)

later-IsSettled : (n : ℕ) (w : World) → IsSettled n w → IsSettled (n + 4) w
unfolding IsSettled
later-IsSettled n w h =
    (IsCounted-mono n (n + 4) w.fds (omega arith) (h.0), h.1, omega (arith, h.2))

calls-IsSettled :
    (n caller : ℕ) (request : Request) (w : World)
    → n + 4 < 2 ^ 32
    → IsSettled n w
    → IsSettled (n + 4) (advance (calls caller request) w)
unfolding advance
calls-IsSettled n caller request w room h = elim (Bool-cases (ltb caller w.next_pid)) [
  | inl e ↦ rw e (serve-IsSettled n caller request w room (ltb→lt caller w.next_pid e) h)
  | inr e ↦ rw e (later-IsSettled n w h)
]

does-IsSettled :
    (n pid : ℕ) (section : Section) (w : World)
    → n + 4 < 2 ^ 32
    → (pid < w.next_pid → Keeps pid section w.fds)
    → IsSettled n w
    → IsSettled (n + 4) (advance (does pid section) w)
unfolding advance
does-IsSettled n pid section w room k h = elim (Bool-cases (ltb pid w.next_pid)) [
  | inl e ↦
      rw e (let l = ltb→lt pid w.next_pid e in perform-IsSettled n pid section w room l (k l) h)
  | inr e ↦ rw e (later-IsSettled n w h)
]

run-IsSettled :
    (history : List Move) (n : ℕ) (w : World)
    → AreKept history w
    → IsSettled n w
    → n + 4 * length history < 2 ^ 32
    → IsSettled (n + 4 * length history) (run history w)
unfolding run IsSettled AreKept
run-IsSettled [] n w k h room = subst (λ m. IsSettled m w) (omega arith) h
run-IsSettled (calls caller request ∷ history) n w k h room =
    subst (λ m. IsSettled m (run (calls caller request ∷ history) w)) (omega arith)
      (run-IsSettled history (n + 4) (advance (calls caller request) w) k
        (calls-IsSettled n caller request w (omega (arith, room)) h) (omega (arith, room)))
run-IsSettled (does pid section ∷ history) n w k h room =
    subst (λ m. IsSettled m (run (does pid section ∷ history) w)) (omega arith)
      (run-IsSettled history (n + 4) (advance (does pid section) w) (k.1)
        (does-IsSettled n pid section w (omega (arith, room)) (k.0) h) (omega (arith, room)))

boot-IsSettled : IsSettled 0 boot
unfolding IsSettled count get_fd
boot-IsSettled =
    ((λ id. (refl, refl), λ id. (omega arith, omega arith)), λ k fd l. refl, omega arith)

-- Processes make system calls that nothing else interrupts, and, for calls that others do
-- interrupt, the single lock sections of which the calls consist, in any order. A lock section that
-- installs a descriptor for a pipe end finds that pipe open, one that installs at a given number
-- finds the number free, and one that writes an offset back finds the entry of a file; interrupted
-- calls do not ensure this by themselves. Then at all times, as long as four times the number of
-- moves stays below 2^32: an open pipe counts as many writers and readers as there are descriptors,
-- in all tables, for its write and its read end; and no descriptor refers to a pipe that is not open.
pub pipes_counted :
    (history : List Move)
    → AreKept history boot
    → 4 * length history < 2 ^ 32
    → (id : ℕ)
    → let s = (run history boot).fds in HasEnds (writers s id) (readers s id) (pipe_at id s.pipes)
unfolding IsSettled
pipes_counted history kept room id =
    (run-IsSettled history 0 boot kept boot-IsSettled (omega (arith, room))).0.0 id
