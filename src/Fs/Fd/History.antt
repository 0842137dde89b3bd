-- ===== src/Fs/Fd/History.antt =====
-- What processes do to the descriptors and pipes over time: the system calls of
-- crates/kernel/src/syscall/runtime.rs, and the process ids of crates/kernel/src/task/process.rs.
use kazuos.Prelude.{ℕ, Bool, List, [], ◌∷◌, ltb, if◌then◌else◌, add64}
use kazuos.Fs.Pipe
use kazuos.Fs.Fd.{
  FdEntry, file, Fds, alloc_fd, alloc_fd_at, free_fd, set_fd, close_all, sys_pipe, install_stdio,
  install_ctty, open_file, open_device, sys_close, move_offset,
}

-- `NEXT_PID`, and the descriptors.
pub record World : Type 0 where
  pub next_pid : ℕ
  pub fds : Fds

abbrev pub boot : World
boot = record { next_pid = 1; fds = record { tables = []; pipes = []; effects = [] } }

-- What a process asks, with what other parts answer: the file or device that a name leads to,
-- whether memory could be written, how many bytes a file moved by.
pub data Request : Type 0 where
  opens_file opens_device : ℕ → ℕ → Request
  makes_pipe : Bool → Request
  closes : ℕ → Request
  moves : ℕ → ℕ → Request
  spawns : ℕ → ℕ → Bool → Request
  exits : Request

unfoldable pub allocate_pid : World → ℕ × World
allocate_pid w = (w.next_pid, record w { next_pid = add64 w.next_pid 1 })

abbrev pub set_up : ℕ → ℕ → ℕ → ℕ → Bool → Fds → Fds
set_up caller child stdin_fd stdout_fd ctty s =
    let s' = install_stdio caller child stdin_fd stdout_fd s in
    if ctty then install_ctty caller child s' else s'

unfoldable pub serve : ℕ → Request → World → World
unfolding open_file open_device sys_pipe sys_close move_offset allocate_pid install_stdio
    install_ctty close_all
serve caller (opens_file node generation) w = record w {
  fds = (open_file caller node generation w.fds).1;
}
serve caller (opens_device ops handle) w = record w {
  fds = (open_device caller ops handle w.fds).1;
}
serve caller (makes_pipe written) w = record w { fds = (sys_pipe caller written w.fds).1 }
serve caller (closes fd) w = record w { fds = (sys_close caller fd w.fds).1 }
serve caller (moves fd n) w = record w { fds = move_offset caller fd n w.fds }
serve caller (spawns stdin_fd stdout_fd ctty) w =
    let (child, w') = allocate_pid w in
    record w' { fds = set_up caller child stdin_fd stdout_fd ctty w'.fds }
serve caller exits w = record w { fds = close_all caller w.fds }

-- What one hold of the lock does: `allocate_pid`, `create` of pipe.rs, and the operations of fd.rs;
-- `sets` is the `set_fd` of `sys_read` and `sys_write`, with the entry of a file.
pub data Section : Type 0 where
  starts creates : Section
  allocs : FdEntry → Section
  allocs_at : ℕ → FdEntry → Section
  frees : ℕ → Section
  closes_all : Section
  sets : ℕ → ℕ → ℕ → ℕ → Section

-- On the table of the process `pid`.
unfoldable pub perform : ℕ → Section → World → World
unfolding allocate_pid Pipe.create alloc_fd alloc_fd_at free_fd close_all set_fd
perform pid starts w = (allocate_pid w).1
perform pid creates w = record w { fds = record w.fds { pipes = (Pipe.create w.fds.pipes).1 } }
perform pid (allocs entry) w = record w { fds = (alloc_fd pid entry w.fds).1 }
perform pid (allocs_at fd entry) w = record w { fds = (alloc_fd_at pid fd entry w.fds).1 }
perform pid (frees fd) w = record w { fds = (free_fd pid fd w.fds).1 }
perform pid closes_all w = record w { fds = close_all pid w.fds }
perform pid (sets fd node generation offset) w = record w {
  fds = (set_fd pid fd (file node generation offset) w.fds).1;
}

-- A whole call that nothing else interrupts, or one lock section of a call.
pub data Move : Type 0 where
  calls : ℕ → Request → Move
  does : ℕ → Section → Move

-- A move of a process that was not started does nothing.
unfoldable pub advance : Move → World → World
unfolding serve perform
advance (calls caller request) w = if ltb caller w.next_pid then serve caller request w else w
advance (does pid section) w = if ltb pid w.next_pid then perform pid section w else w

unfoldable pub run : List Move → World → World
unfolding advance
run [] w = w
run (move ∷ later) w = run later (advance move w)
