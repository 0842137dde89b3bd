-- ===== src/Fs/Fd/Sections.antt =====
-- The operations of crates/kernel/src/fs/fd.rs and crates/kernel/src/fs/pipe.rs by themselves, as
-- the threads of several processes take the lock for them in turn.
use kazuos.Prelude.{ℕ, ◌+◌, ◌^◌, ◌<◌, some, ◌≡◌, refl, arith, add64}
use kazuos.Fs.Pipe
use kazuos.Fs.Fd.{empty, file, Fds, alloc_fd_at, alloc_fd, get_fd, set_fd, free_fd, close_all}
use kazuos.Fs.Fd.Ends.{IsOpen}
use kazuos.Fs.Fd.Alloc.{
  writers, readers, IsCounted, IsCounted-mono, slot, alloc_fd-IsCounted, alloc_fd_at-IsCounted,
}
use kazuos.Fs.Fd.Close.{free_fd-IsCounted, close_all-IsCounted, set_fd-IsCounted}
use kazuos.Fs.Fd.Calls.{create-HasEnds}
use kazuos.Fs.Fd.Others.{
  alloc_fd_at-IsApart, alloc_fd-IsApart, free_fd-IsApart, close_all-IsApart, set_fd-IsApart,
}
use kazuos.Fs.Fd.History.{
  World, Section, starts, creates, allocs, allocs_at, frees, closes_all, sets, allocate_pid,
  perform,
}
use kazuos.Fs.Fd.Settled.{IsSettled, resettled}

-- What an operation has to find so that the counts stay right.
abbrev pub Keeps : ℕ → Section → Fds → Type 0
Keeps pid (allocs entry) s = IsOpen s.pipes entry
Keeps pid (allocs_at fd entry) s = IsOpen s.pipes entry × (slot pid fd s ≡ empty)
Keeps pid (sets fd node generation offset) s =
    (x : ℕ) × ((y : ℕ) × ((z : ℕ) × (get_fd pid fd s ≡ some (file x y z))))
Keeps pid _ s = Unit {0}

pub perform-IsSettled :
    (n pid : ℕ) (section : Section) (w : World)
    → n + 4 < 2 ^ 32
    → pid < w.next_pid
    → Keeps pid section w.fds
    → IsSettled n w
    → IsSettled (n + 4) (perform pid section w)
unfolding perform IsSettled allocate_pid
perform-IsSettled n pid starts w room l k h =
    let step : add64 w.next_pid 1 ≡ w.next_pid + 1 = omega (arith, h.2, room) in
    (
      IsCounted-mono n (n + 4) w.fds (omega arith) (h.0),
      λ j fd g. h.1 j fd (omega (arith, g, step)),
      omega (arith, h.2, step),
    )
perform-IsSettled n pid creates w room l k h =
    let s : Fds = record w.fds { pipes = (Pipe.create w.fds.pipes).1 } in
    let c : IsCounted n s =
      (λ j. create-HasEnds j (writers w.fds j) (readers w.fds j) w.fds.pipes (h.0.0 j), h.0.1) in
    resettled n pid w s l h (IsCounted-mono n (n + 4) s (omega arith) c) (λ j ne. refl)
perform-IsSettled n pid (allocs entry) w room l k h =
    let s = (alloc_fd pid entry w.fds).1 in
    resettled n pid w s l h
      (IsCounted-mono (n + 1) (n + 4) s (omega arith)
        (alloc_fd-IsCounted n pid entry w.fds (h.0) (omega (arith, room)) k))
      (alloc_fd-IsApart pid w.fds entry)
perform-IsSettled n pid (allocs_at fd entry) w room l k h =
    let s = (alloc_fd_at pid fd entry w.fds).1 in
    resettled n pid w s l h
      (IsCounted-mono (n + 1) (n + 4) s (omega arith)
        (alloc_fd_at-IsCounted n pid entry w.fds (h.0) (omega (arith, room)) (k.0) fd (k.1)))
      (alloc_fd_at-IsApart pid w.fds fd entry)
perform-IsSettled n pid (frees fd) w room l k h =
    let s = (free_fd pid fd w.fds).1 in
    resettled n pid w s l h
      (IsCounted-mono n (n + 4) s (omega arith) (free_fd-IsCounted n pid w.fds (h.0) fd))
      (free_fd-IsApart pid w.fds fd)
perform-IsSettled n pid closes_all w room l k h =
    let s = close_all pid w.fds in
    resettled n pid w s l h
      (IsCounted-mono n (n + 4) s (omega arith) (close_all-IsCounted n pid w.fds (h.0)))
      (close_all-IsApart pid w.fds)
perform-IsSettled n pid (sets fd node generation offset) w room l (x, (y, (z, found))) h =
    let s = (set_fd pid fd (file node generation offset) w.fds).1 in
    resettled n pid w s l h
      (IsCounted-mono n (n + 4) s (omega arith)
        (set_fd-IsCounted n pid w.fds (h.0) fd node generation offset x y z found))
      (set_fd-IsApart pid w.fds fd (file node generation offset))
