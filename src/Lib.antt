-- ===== src/Lib.antt =====
-- KazuOS is a small x86-64 kernel: crates/kernel holds memory, file, task and driver code, and
-- crates/shared what the bootloader hands over. This library models the parts of the kernel that
-- are logic rather than hardware access, each as a state with one function per operation, and
-- states what they guarantee. Paths below are under crates/kernel/src.
--
-- The parts and how they meet. System calls reach the file system (fs/vfs.rs for nodes in RAM,
-- fs/devfs.rs for devices, fs/pipe.rs for pipes) through descriptor tables (fs/fd.rs); a call that has to
-- wait puts its thread to sleep with a wait target (task/thread.rs), and the event's source wakes
-- the threads that wait for it. The timer and every blocking call ask task/scheduler.rs for the
-- next thread. Page tables, kernel stacks and shared objects take their frames from
-- memory/pmm.rs. Each part guards its state by a lock, so a history of a part is a list of
-- the functions that hold it.
--
-- Lock (util.rs): the lock that guards most of these states, as a step relation; the other models
--   take the calls that it guards as single steps.
-- Heap (memory/allocator.rs): FreeList and Weight count the blocks that a byte lies in; Refuse
--   says when `alloc` answers null; Calls is about `alloc` and `dealloc`, Clients and Safety are about the pointers that clients hold.
-- Prelude: names of the libraries, Boolean tests on numbers, lists measured by native numbers,
--   64-bit addition and multiplication.
-- Pmm (memory/pmm.rs): the bitmap as a list of bytes; `Pmm` is the static of that name. Bitmap has
--   `set_bit`, `get_bit` and `mark_region`; Single, Runs and Regions are about `alloc_frame` and
--   `free_frame`, about `alloc_frames` and `free_frames`, and about `init` and `stats`; Owners
--   adds clients that hold frames.
-- Fs.Path, Fs.Error, Fs.Devfs (fs/vfs.rs, fs/devfs.rs): paths as bytes, `FsError`, the device
--   registry.
-- Fs.Vfs (fs/vfs.rs): Table is the slot table with generations, Access the functions by handle,
--   Edit the functions by path. The other children hold proofs: Find and Tree on lookups, Keeps and
--   History on the tree, Slots on single slots, Handles on stale handles, Contents on the bytes of
--   a file.
-- Fs.Pipe (fs/pipe.rs): the table of byte queues with reader and writer counts.
-- Fs.Fd (fs/fd.rs, the descriptors in syscall/runtime.rs and task/exec.rs): the descriptor tables
--   over the pipes. Counts, Ends, Alloc, Close, Calls, Spawn and Others hold lemmas by operation.
--   A system call takes the lock once for each operation of fd.rs: History has whole calls, as they
--   run undisturbed, and the single lock sections of calls that other threads disturb; Settled is
--   about the former, Sections about the latter; Counted and Lowest hold the results.
-- Ipc (ipc.rs): the channel table with bounded queues and lists of waiters; what it asks of the
--   process table is a list of effects. Bounds and History are about its limits.
-- Task (task/thread.rs, task/scheduler.rs): Types has the records, Thread the thread table, Wake
--   the wake-ups, Scheduler the choice `schedule_next`, Frame the register frames; Ended and History
--   are about the calls in any order.
--
-- Task.Process (task/process.rs): the process table over the thread table. Signals has the signals,
--   Queries what it answers, State the changes and ends; Moves, Calls, Kept and Held are about all
--   calls in any order; Distinct, Pending, Spared and Victim hold the results.
--
-- Conventions. `usize` and `u64` are 64 bits wide; where an operator can wrap in a release build,
-- the remainder is written out, and `saturating_sub` is the subtraction of the native numbers. A
-- static is an argument and a result. What a heap or a processor answers (a new kernel stack, the
-- number of CPUs, the words at a saved stack pointer) is an argument. No model has fuel: every loop
-- of the source is a recursion on the list or on the count that it walks.
--
-- Bounds in the theorems. Three counters can wrap in principle: the 32-bit generation of a slot,
-- the 32-bit count of readers, and `NEXT_TID`. Theorems on histories ask for histories too short
-- for that. Sizes of allocations are not limited: that the heap can fail inside `Vec` is left out.
--
-- Not modelled: memory/shm.rs, memory/vmm.rs,
-- memory/uaccess.rs, drivers/keyboard.rs and the system calls; the
-- boot-time image reader of fs/vfs.rs; `notify_pipe_readers` and the listings of task/thread.rs.
-- Drivers, interrupt entry, terminal output, start-up, the bootloader, the user programs and the
-- host scripts are register and pixel access or input and output.
pub mod Prelude
pub mod Pmm
pub mod Fs
pub mod Task
pub mod Ipc
pub mod Heap
pub mod Lock
