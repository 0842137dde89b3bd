-- ===== src/Fs/Fd/Settled.antt =====
-- The system calls of crates/kernel/src/syscall/runtime.rs keep the counts of the pipes right, where
-- nothing else touches the tables while one runs.
use kazuos.Prelude.{
  ℕ, ◌+◌, ◌^◌, ◌≤◌, ◌<◌, Bool, true, false, Option, none, some, ◌==◌, ◌≡◌, refl, ◌∙◌, ap, arith,
  add64, Bool-cases, inl, inr, u64_max,
}
use kazuos.Fs.Fd.{
  FdEntry, empty, file, device, console_out, console_in, pipe_read, pipe_write, Fds, table_at,
  entry_of, get_fd, alloc_fd, free_fd, close_all, sys_pipe, or_entry, install_stdio, install_ctty,
  open_file, device_opened, open_device, sys_close, file_moved, move_offset,
}
use kazuos.Fs.Fd.Alloc.{IsCounted, IsCounted-mono, slot, alloc_fd-IsCounted}
use kazuos.Fs.Fd.Close.{free_fd-IsCounted, close_all-IsCounted, set_fd-IsCounted}
use kazuos.Fs.Fd.Calls.{sys_pipe-IsCounted}
use kazuos.Fs.Fd.Spawn.{install_stdio-IsCounted, slot-install_stdio, install_ctty-IsCounted}
use kazuos.Fs.Fd.Others.{
  IsApart, alloc_fd-IsApart, free_fd-IsApart, close_all-IsApart, set_fd-IsApart, sys_pipe-IsApart,
  install_stdio-IsApart, install_ctty-IsApart,
}
use kazuos.Fs.Fd.History.{
  World, Request, opens_file, opens_device, makes_pipe, closes, moves, spawns, exits, allocate_pid,
  set_up, serve,
}

-- After `n` descriptors at most: the pipes are counted, and no process has a table before it is
-- started.
unfoldable pub IsSettled : ℕ → World → Type 0
IsSettled n w =
    IsCounted n w.fds
    × ((k fd : ℕ) → w.next_pid ≤ k → slot k fd w.fds ≡ empty)
    × (w.next_pid ≤ n + 1)

module _ (n caller : ℕ) (s : Fds) (h : IsCounted n s) (room : n + 4 < 2 ^ 32) where
  open_device-IsCounted : (ops handle : ℕ) → IsCounted (n + 4) (open_device caller ops handle s).1
  unfolding open_device
  open_device-IsCounted ops handle = elim (Bool-cases (handle == u64_max)) [
    | inl e ↦ rw e (IsCounted-mono n (n + 4) s (omega arith) h)
    | inr e ↦ rw e (
        let s' = (alloc_fd caller (device ops handle) s).1 in
        let h' = alloc_fd-IsCounted n caller (device ops handle) s h (omega (arith, room)) tt in
        IsCounted-mono (n + 1) (n + 4)
          (device_opened ops handle (alloc_fd caller (device ops handle) s).0 s').1 (omega arith)
          (opened (alloc_fd caller (device ops handle) s).0 s' h'))
  ]
    where
      opened :
          (o : Option ℕ) (s : Fds)
          → IsCounted (n + 1) s
          → IsCounted (n + 1) (device_opened ops handle o s).1
      opened none s h = h
      opened (some fd) s h = h

  file_moved-IsCounted :
      (fd k : ℕ) (o : Option FdEntry)
      → get_fd caller fd s ≡ o
      → IsCounted n (file_moved caller fd k s o)
  file_moved-IsCounted fd k (some (file x y z)) found =
      set_fd-IsCounted n caller s h fd x y (add64 z k) x y z found
  file_moved-IsCounted fd k none found = h
  file_moved-IsCounted fd k (some empty) found = h
  file_moved-IsCounted fd k (some (device x y)) found = h
  file_moved-IsCounted fd k (some console_in) found = h
  file_moved-IsCounted fd k (some console_out) found = h
  file_moved-IsCounted fd k (some (pipe_read x)) found = h
  file_moved-IsCounted fd k (some (pipe_write x)) found = h

  set_up-IsCounted :
      (child stdin_fd stdout_fd : ℕ) (ctty : Bool)
      → ((fd : ℕ) → slot child fd s ≡ empty)
      → IsCounted (n + 4) (set_up caller child stdin_fd stdout_fd ctty s)
  set_up-IsCounted child stdin_fd stdout_fd true fresh =
      let s' = install_stdio caller child stdin_fd stdout_fd s in
      IsCounted-mono (n + 3 + 1) (n + 4) (install_ctty caller child s') (omega arith) (
        install_ctty-IsCounted (n + 3) caller child s'
          (install_stdio-IsCounted n caller child s h (omega (arith, room)) fresh stdin_fd
            stdout_fd)
          (omega (arith, room)) (slot-install_stdio caller child stdin_fd stdout_fd s (fresh 3)))
  set_up-IsCounted child stdin_fd stdout_fd false fresh =
      IsCounted-mono (n + 3) (n + 4) (install_stdio caller child stdin_fd stdout_fd s) (omega arith)
        (install_stdio-IsCounted n caller child s h (omega (arith, room)) fresh stdin_fd stdout_fd)

unfoldable pub Fresh : ℕ → Fds → Type 0
Fresh next s = (k fd : ℕ) → next ≤ k → slot k fd s ≡ empty

-- What stays apart from a started process keeps the others without tables.
pub IsApart-Fresh :
    (next pid : ℕ) (s s' : Fds) → pid < next → IsApart pid s s' → Fresh next s → Fresh next s'
unfolding Fresh get_fd
IsApart-Fresh next pid s s' l a f k fd g =
    ap (λ o. or_entry (entry_of fd o) empty) (a k (omega (arith, l, g))) ∙ f k fd g

open_device-IsApart :
    (caller ops handle : ℕ) (s : Fds) → IsApart caller s (open_device caller ops handle s).1
unfolding open_device
open_device-IsApart caller ops handle s k ne = elim (Bool-cases (handle == u64_max)) [
  | inl e ↦ rw e refl
  | inr e ↦ rw e (
      opened (alloc_fd caller (device ops handle) s).0 (alloc_fd caller (device ops handle) s).1
      ∙ alloc_fd-IsApart caller s (device ops handle) k ne)
]
  where
    opened :
        (o : Option ℕ) (s : Fds)
        → table_at k (device_opened ops handle o s).1.tables ≡ table_at k s.tables
    opened none s = refl
    opened (some fd) s = refl

file_moved-IsApart :
    (caller fd n : ℕ) (s : Fds) (o : Option FdEntry) → IsApart caller s (file_moved caller fd n s o)
file_moved-IsApart caller fd n s (some (file x y z)) k ne =
    set_fd-IsApart caller s fd (file x y (add64 z n)) k ne
file_moved-IsApart caller fd n s none k ne = refl
file_moved-IsApart caller fd n s (some empty) k ne = refl
file_moved-IsApart caller fd n s (some (device x y)) k ne = refl
file_moved-IsApart caller fd n s (some console_in) k ne = refl
file_moved-IsApart caller fd n s (some console_out) k ne = refl
file_moved-IsApart caller fd n s (some (pipe_read x)) k ne = refl
file_moved-IsApart caller fd n s (some (pipe_write x)) k ne = refl

set_up-IsApart :
    (caller child stdin_fd stdout_fd : ℕ) (ctty : Bool) (s : Fds)
    → IsApart child s (set_up caller child stdin_fd stdout_fd ctty s)
set_up-IsApart caller child stdin_fd stdout_fd true s k ne =
    install_ctty-IsApart caller child (install_stdio caller child stdin_fd stdout_fd s) k ne
    ∙ install_stdio-IsApart caller child stdin_fd stdout_fd s k ne
set_up-IsApart caller child stdin_fd stdout_fd false s k ne =
    install_stdio-IsApart caller child stdin_fd stdout_fd s k ne

-- The descriptors after a request that starts no process.
pub resettled :
    (n caller : ℕ) (w : World) (s : Fds)
    → caller < w.next_pid
    → IsSettled n w
    → IsCounted (n + 4) s
    → IsApart caller w.fds s
    → IsSettled (n + 4) (record w { fds = s })
unfolding IsSettled Fresh
resettled n caller w s l h c a =
    (c, IsApart-Fresh w.next_pid caller w.fds s l a (h.1), omega (arith, h.2))

started :
    (n caller stdin_fd stdout_fd : ℕ) (ctty : Bool) (w : World)
    → n + 4 < 2 ^ 32
    → IsSettled n w
    → IsSettled (n + 4) (serve caller (spawns stdin_fd stdout_fd ctty) w)
unfolding serve IsSettled allocate_pid Fresh
started n caller stdin_fd stdout_fd ctty w room h =
    let step : add64 w.next_pid 1 ≡ w.next_pid + 1 = omega (arith, h.2, room) in
    let s' = set_up caller w.next_pid stdin_fd stdout_fd ctty w.fds in
    (
      set_up-IsCounted n caller w.fds (h.0) room w.next_pid stdin_fd stdout_fd ctty
          (λ fd. h.1 w.next_pid fd (omega arith)),
      λ k fd g.
          IsApart-Fresh (w.next_pid + 1) w.next_pid w.fds s' (omega arith)
            (set_up-IsApart caller w.next_pid stdin_fd stdout_fd ctty w.fds)
            (λ j fd l. h.1 j fd (omega (arith, l))) k fd (omega (arith, g, step)),
      omega (arith, h.2, step),
    )

-- A request of a started process.
pub serve-IsSettled :
    (n caller : ℕ) (request : Request) (w : World)
    → n + 4 < 2 ^ 32
    → caller < w.next_pid
    → IsSettled n w
    → IsSettled (n + 4) (serve caller request w)
unfolding serve IsSettled open_file sys_close move_offset
serve-IsSettled n caller (opens_file node generation) w room l h =
    let s' = (alloc_fd caller (file node generation 0) w.fds).1 in
    resettled n caller w s' l h
      (IsCounted-mono (n + 1) (n + 4) s' (omega arith)
        (alloc_fd-IsCounted n caller (file node generation 0) w.fds (h.0) (omega (arith, room)) tt))
      (alloc_fd-IsApart caller w.fds (file node generation 0))
serve-IsSettled n caller (opens_device ops handle) w room l h =
    resettled n caller w (open_device caller ops handle w.fds).1 l h
      (open_device-IsCounted n caller w.fds (h.0) room ops handle)
      (open_device-IsApart caller ops handle w.fds)
serve-IsSettled n caller (makes_pipe written) w room l h =
    let s' = (sys_pipe caller written w.fds).1 in
    resettled n caller w s' l h
      (IsCounted-mono (n + 2) (n + 4) s' (omega arith)
        (sys_pipe-IsCounted n caller written w.fds (h.0) (omega (arith, room))))
      (sys_pipe-IsApart caller written w.fds)
serve-IsSettled n caller (closes fd) w room l h =
    let s' = (free_fd caller fd w.fds).1 in
    resettled n caller w s' l h
      (IsCounted-mono n (n + 4) s' (omega arith) (free_fd-IsCounted n caller w.fds (h.0) fd))
      (free_fd-IsApart caller w.fds fd)
serve-IsSettled n caller (moves fd k) w room l h =
    let entry = get_fd caller fd w.fds in
    let s' = file_moved caller fd k w.fds entry in
    resettled n caller w s' l h
      (IsCounted-mono n (n + 4) s' (omega arith)
        (file_moved-IsCounted n caller w.fds (h.0) room fd k entry refl))
      (file_moved-IsApart caller fd k w.fds entry)
serve-IsSettled n caller (spawns stdin_fd stdout_fd ctty) w room l h =
    started n caller stdin_fd stdout_fd ctty w room h
serve-IsSettled n caller exits w room l h =
    let s' = close_all caller w.fds in
    resettled n caller w s' l h
      (IsCounted-mono n (n + 4) s' (omega arith) (close_all-IsCounted n caller w.fds (h.0)))
      (close_all-IsApart caller w.fds)
