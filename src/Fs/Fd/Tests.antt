-- ===== src/Fs/Fd/Tests.antt =====
-- Two processes and a pipe between them.
use kazuos.Prelude.{
  ℕ, zero, suc, ◌++◌, true, false, none, some, List, [], ◌∷◌, ◌≡◌, refl, ap, arith,
  length-replicate, replicate, u64_max,
}
use kazuos.Fs.Pipe
use kazuos.Fs.Pipe.{PipeState, new_pipe, pipe_at}
use kazuos.Fs.Fd.{
  console_out, console_in, pipe_read, pipe_write, FdTable, Fds, one_later, first_empty, sys_pipe,
  alloc_fd,
}
use kazuos.Fs.Fd.Ends.{HasEnds}
use kazuos.Fs.Fd.Alloc.{writers, readers}
use kazuos.Fs.Fd.History.{
  boot, opens_file, makes_pipe, closes, spawns, exits, creates, allocs, sets, frees, closes_all,
  Move, calls, does, run,
}
use kazuos.Fs.Fd.Counted.{AreKept, pipes_counted}
use kazuos.Fs.Fd.Lowest.{IsLowest, alloc_fd-IsLowest, sys_pipe_leak}

-- The first process starts with the console, makes a pipe at 3 and 4, starts a child that writes to
-- it, closes its own write end, and the child exits.
abbrev piped : List Move
piped =
    calls 0 (spawns 0xFFFF 0xFFFF false)
    ∷ calls 1 (makes_pipe true)
    ∷ calls 1 (spawns 0xFFFF 4 true)
    ∷ calls 1 (closes 4)
    ∷ []

two_refs :
    pipe_at 0 (run piped boot).fds.pipes
    ≡ some (record { content = []; write_refs = 1; read_refs = 1 })
unfolding run
two_refs = refl

after_exit :
    pipe_at 0 (run (piped ++ calls 2 exits ∷ []) boot).fds.pipes
    ≡ some (record { content = []; write_refs = 0; read_refs = 1 })
unfolding run
after_exit = refl

-- A process makes a pipe while another one opens a file, reads from it and closes it.
abbrev mixed : List Move
mixed =
    calls 0 (spawns 0xFFFF 0xFFFF false)
    ∷ calls 0 (spawns 0xFFFF 0xFFFF false)
    ∷ calls 2 (opens_file 5 1)
    ∷ does 1 creates
    ∷ does 1 (allocs (pipe_read 0))
    ∷ does 2 (sets 3 5 1 80)
    ∷ does 1 (allocs (pipe_write 0))
    ∷ does 1 (frees 3)
    ∷ does 2 closes_all
    ∷ []

mixed-AreKept : AreKept mixed boot
unfolding AreKept
mixed-AreKept = (
  λ l. tt,
  (
    λ l. (new_pipe, refl),
    (
      λ l. (5, (1, (0, refl))),
      (
        λ l. (record { content = []; write_refs = 0; read_refs = 1 }, refl),
        (λ l. tt, (λ l. tt, tt)),
      ),
    ),
  ),
)

-- The pipe is left with its write end.
one_writer :
    pipe_at 0 (run mixed boot).fds.pipes
    ≡ some (record { content = []; write_refs = 1; read_refs = 0 })
unfolding run
one_writer = refl

pipes_counted_example :
    let s = (run mixed boot).fds in HasEnds (writers s 0) (readers s 0) (pipe_at 0 s.pipes)
pipes_counted_example = pipes_counted mixed mixed-AreKept (omega arith) 0

alloc_fd-IsLowest_example :
    IsLowest 1 console_in (run piped boot).fds (alloc_fd 1 console_in (run piped boot).fds)
alloc_fd-IsLowest_example = alloc_fd-IsLowest 1 console_in (run piped boot).fds

abbrev full_table : FdTable
full_table = replicate 1024 console_out

abbrev full_fds : Fds
full_fds = record { tables = some full_table ∷ []; pipes = []; effects = [] }

full-first_empty : (n : ℕ) → first_empty (replicate n console_out) ≡ none
unfolding first_empty
full-first_empty zero = refl
full-first_empty (suc n) = ap one_later (full-first_empty n)

sys_pipe_leak_example :
    ((sys_pipe 0 true full_fds).0 ≡ u64_max)
    × (pipe_at (Pipe.create full_fds.pipes).0 (sys_pipe 0 true full_fds).1.pipes ≡ some new_pipe)
sys_pipe_leak_example =
    sys_pipe_leak 0 true full_fds full_table refl (full-first_empty 1024)
      (omega (arith, length-replicate 1024 console_out))
