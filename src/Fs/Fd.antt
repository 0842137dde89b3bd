-- ===== src/Fs/Fd.antt =====
-- The descriptor tables of crates/kernel/src/fs/fd.rs over the pipes, and what the system calls of
-- crates/kernel/src/syscall/runtime.rs and crates/kernel/src/task/exec.rs do to them. Each
-- operation of fd.rs runs under the thread lock and is one step. A system call takes the lock once
-- for each operation that it uses: `sys_pipe`, `install_stdio`, `install_ctty`, `open_device` and
-- `move_offset` are the calls without other accesses to the tables in between. A device is a number
-- that names its operations; what a closed entry asks of other parts is a list of effects.
pub mod Counts
pub mod Ends
pub mod Alloc
pub mod Close
pub mod Calls
pub mod Spawn
pub mod Others
pub mod History
pub mod Settled
pub mod Sections
pub mod Counted
pub mod Lowest
mod Tests
use kazuos.Prelude.{
  ℕ, zero, suc, ◌+◌, ◌<◌, Bool, true, false, ◌&&◌, Option, none, some, List, [], ◌∷◌, ◌++◌, ◌==◌,
  ltb, leb, if◌then◌else◌, length, get_elem?, set, pad, add64, u64_max,
}
use kazuos.Fs.Pipe
use kazuos.Fs.Pipe.{Pipes, clone_write, clone_read, close_write, close_read}

abbrev pub max_fd : ℕ
max_fd = 1024

pub data FdEntry : Type 0 where
  empty : FdEntry
  file : ℕ → ℕ → ℕ → FdEntry
  device : ℕ → ℕ → FdEntry
  console_out console_in : FdEntry
  pipe_read pipe_write : ℕ → FdEntry

abbrev pub FdTable : Type 0
FdTable = List FdEntry

-- `(ops.close)(handle)` and `notify_pipe_readers(id)`
pub data Effect : Type 0 where
  close_device : ℕ → ℕ → Effect
  notify_readers : ℕ → Effect

-- The statics `TABLES` and `PIPES`, and the effects so far.
pub record Fds : Type 0 where
  pub tables : List (Option FdTable)
  pub pipes : Pipes
  pub effects : List Effect

abbrev pub join : Option (Option FdTable) → Option FdTable
join none = none
join (some o) = o

abbrev pub table_at : ℕ → List (Option FdTable) → Option FdTable
table_at pid tables = join (get_elem? tables pid)

abbrev pub table_or_empty : Option FdTable → FdTable
table_or_empty none = []
table_or_empty (some table) = table

unfoldable pub ensure_table : ℕ → List (Option FdTable) → List (Option FdTable)
ensure_table pid tables =
    let grown = pad tables (pid + 1) none in
    set grown pid (some (table_or_empty (table_at pid grown)))

unfoldable pub pipe_clone : FdEntry → Pipes → Pipes
unfolding clone_write clone_read
pipe_clone (pipe_write id) pipes = clone_write id pipes
pipe_clone (pipe_read id) pipes = clone_read id pipes
pipe_clone _ pipes = pipes

unfoldable pub close_entry : FdEntry → Fds → Fds
unfolding close_write close_read
close_entry (device ops handle) s = record s { effects = s.effects ++ close_device ops handle ∷ [] }
close_entry (pipe_write id) s = record s {
  pipes = close_write id s.pipes;
  effects = s.effects ++ notify_readers id ∷ [];
}
close_entry (pipe_read id) s = record s { pipes = close_read id s.pipes }
close_entry _ s = s

-- `table.entries[fd] = entry` after `pipe_clone(&entry)`, in the table that `ensure_table` gave.
abbrev pub install : ℕ → ℕ → FdEntry → FdTable → Fds → Fds
install pid fd entry table s = record s {
  tables = set s.tables pid (some (set table fd entry));
  pipes = pipe_clone entry s.pipes;
}

unfoldable pub alloc_fd_at : ℕ → ℕ → FdEntry → Fds → Bool × Fds
unfolding ensure_table pipe_clone
alloc_fd_at pid fd entry s = if leb max_fd fd then (false, s) else (
  true,
  let tables = ensure_table pid s.tables in
      install pid fd entry (pad (table_or_empty (table_at pid tables)) (fd + 1) empty)
        (record s { tables = tables }),
)

abbrev pub is_empty : FdEntry → Bool
is_empty empty = true
is_empty _ = false

abbrev pub one_later : Option ℕ → Option ℕ
one_later none = none
one_later (some i) = some (suc i)

-- The lowest freed slot.
unfoldable pub first_empty : FdTable → Option ℕ
first_empty [] = none
first_empty (e ∷ table) = if is_empty e then some 0 else one_later (first_empty table)

abbrev pub alloc_in : ℕ → FdEntry → FdTable → Fds → Option ℕ → Option ℕ × Fds
alloc_in pid entry table s (some i) = (some i, install pid i entry table s)
alloc_in pid entry table s none =
    if ltb (length table) max_fd
    then (some (length table), install pid (length table) entry (table ++ empty ∷ []) s)
    else (none, s)

unfoldable pub alloc_fd : ℕ → FdEntry → Fds → Option ℕ × Fds
unfolding ensure_table first_empty pipe_clone
alloc_fd pid entry s =
    let tables = ensure_table pid s.tables in
    let table = table_or_empty (table_at pid tables) in
    alloc_in pid entry table (record s { tables = tables }) (first_empty table)

abbrev pub entry_of : ℕ → Option FdTable → Option FdEntry
entry_of fd none = none
entry_of fd (some table) = get_elem? table fd

unfoldable pub get_fd : ℕ → ℕ → Fds → Option FdEntry
get_fd pid fd s = entry_of fd (table_at pid s.tables)

abbrev pub put_entry : ℕ → ℕ → FdEntry → Fds → Option FdTable → Bool × Fds
put_entry pid fd entry s none = (false, s)
put_entry pid fd entry s (some table) =
    if ltb fd (length table)
    then (true, record s { tables = set s.tables pid (some (set table fd entry)) })
    else (false, s)

unfoldable pub set_fd : ℕ → ℕ → FdEntry → Fds → Bool × Fds
set_fd pid fd entry s = put_entry pid fd entry s (table_at pid s.tables)

abbrev pub drop_entry : ℕ → ℕ → Fds → FdTable → Option FdEntry → Bool × Fds
drop_entry pid fd s table none = (false, s)
drop_entry pid fd s table (some entry) =
    let s' = close_entry entry s in
    (true, record s' { tables = set s'.tables pid (some (set table fd empty)) })

unfoldable pub free_fd : ℕ → ℕ → Fds → Bool × Fds
unfolding close_entry
free_fd pid fd s = elim (table_at pid s.tables) [
  | none ↦ (false, s)
  | some table ↦ drop_entry pid fd s table (get_elem? table fd)
]

unfoldable pub close_entries : FdTable → Fds → Fds
unfolding close_entry
close_entries [] s = s
close_entries (entry ∷ table) s = close_entries table (close_entry entry s)

unfoldable pub close_all : ℕ → Fds → Fds
unfolding close_entries
close_all pid s = elim (table_at pid s.tables) [
  | none ↦ s
  | some table ↦
      let s' = close_entries table s in record s' { tables = set s'.tables pid (some []) }
]

abbrev pub free_opt : ℕ → Option ℕ → Fds → Fds
free_opt pid none s = s
free_opt pid (some fd) s = (free_fd pid fd s).1

-- The last argument: whether the two numbers could be written to the caller's memory.
abbrev pub finish_pipe : ℕ → Bool → Option ℕ → Option ℕ → Fds → ℕ × Fds
finish_pipe caller written (some r) (some w) s =
    if written then (0, s) else (u64_max, (free_fd caller w (free_fd caller r s).1).1)
finish_pipe caller written none w s = (u64_max, free_opt caller w s)
finish_pipe caller written (some r) none s = (u64_max, (free_fd caller r s).1)

unfoldable pub sys_pipe : ℕ → Bool → Fds → ℕ × Fds
unfolding alloc_fd free_fd Pipe.create
sys_pipe caller written s =
    let (id, pipes) = Pipe.create s.pipes in
    let (read_fd, s1) = alloc_fd caller (pipe_read id) (record s { pipes = pipes }) in
    let (write_fd, s2) = alloc_fd caller (pipe_write id) s1 in
    finish_pipe caller written read_fd write_fd s2

abbrev pub or_entry : Option FdEntry → FdEntry → FdEntry
or_entry none e = e
or_entry (some entry) e = entry

abbrev pub no_fd : ℕ
no_fd = 0xFFFF

abbrev pub stdio_entry : ℕ → ℕ → FdEntry → Fds → FdEntry
stdio_entry caller fd default s =
    if fd == no_fd then default else or_entry (get_fd caller fd s) default

abbrev pub default_stdio : ℕ → Fds → Fds
default_stdio child s =
    let s0 = (alloc_fd_at child 0 console_in s).1 in
    let s1 = (alloc_fd_at child 1 console_out s0).1 in (alloc_fd_at child 2 console_out s1).1

abbrev pub given_stdio : ℕ → ℕ → ℕ → ℕ → Fds → Fds
given_stdio caller child stdin_fd stdout_fd s =
    let s2 = (alloc_fd_at child 2 console_out s).1 in
    let s0 = (alloc_fd_at child 0 (stdio_entry caller stdin_fd console_in s2) s2).1 in
    (alloc_fd_at child 1 (stdio_entry caller stdout_fd console_out s0) s0).1

-- The descriptors that a child gets in `sys_exec`.
unfoldable pub install_stdio : ℕ → ℕ → ℕ → ℕ → Fds → Fds
unfolding alloc_fd_at get_fd
install_stdio caller child stdin_fd stdout_fd s =
    if (stdin_fd == no_fd) && (stdout_fd == no_fd)
    then default_stdio child s
    else given_stdio caller child stdin_fd stdout_fd s

abbrev pub give_tty : ℕ → Option FdEntry → Fds → Fds
give_tty child none s = s
give_tty child (some tty) s = (alloc_fd_at child 3 tty s).1

-- `STDIO_CTTY`: the caller's descriptor 0 becomes the child's 3.
unfoldable pub install_ctty : ℕ → ℕ → Fds → Fds
unfolding alloc_fd_at get_fd
install_ctty caller child s = give_tty child (get_fd caller 0 s) s

abbrev pub fd_or_error : Option ℕ → ℕ
fd_or_error none = u64_max
fd_or_error (some fd) = fd

-- `sys_open` and `sys_create` for a file that the name leads to.
unfoldable pub open_file : ℕ → ℕ → ℕ → Fds → ℕ × Fds
unfolding alloc_fd
open_file caller node generation s =
    let (fd, s') = alloc_fd caller (file node generation 0) s in (fd_or_error fd, s')

abbrev pub device_opened : ℕ → ℕ → Option ℕ → Fds → ℕ × Fds
device_opened ops handle (some fd) s = (fd, s)
device_opened ops handle none s =
    (u64_max, record s { effects = s.effects ++ close_device ops handle ∷ [] })

-- `sys_open` for a device, with the handle that its `open` gives.
unfoldable pub open_device : ℕ → ℕ → ℕ → Fds → ℕ × Fds
unfolding alloc_fd
open_device caller ops handle s =
    if handle == u64_max
    then (u64_max, s)
    else (let (fd, s') = alloc_fd caller (device ops handle) s in device_opened ops handle fd s')

unfoldable pub sys_close : ℕ → ℕ → Fds → ℕ × Fds
unfolding free_fd
sys_close caller fd s = let (found, s') = free_fd caller fd s in (if found then 0 else u64_max, s')

abbrev pub file_moved : ℕ → ℕ → ℕ → Fds → Option FdEntry → Fds
file_moved caller fd n s (some (file node generation offset)) =
    (set_fd caller fd (file node generation (add64 offset n)) s).1
file_moved caller fd n s _ = s

-- The offset after `n` bytes of a file, in `sys_write` and, unless `n` is 0, in `sys_read`.
unfoldable pub move_offset : ℕ → ℕ → ℕ → Fds → Fds
unfolding get_fd set_fd
move_offset caller fd n s = file_moved caller fd n s (get_fd caller fd s)
