-- ===== src/Task/Process/Signals.antt =====
-- Signals and requests to die, of crates/kernel/src/task/process.rs. Nothing here frees a process:
-- it is flagged, and exits by itself when it next enters the kernel. The memory that holds the
-- frames of blocked threads is a function from addresses to words.
use kazuos.Prelude.{
  ℕ, ◌+◌, ◌%◌, ◌/◌, Bool, true, false, Option, none, some, List, [], ◌∷◌, ◌==◌, if◌then◌else◌,
}
use kazuos.Task.Types.{ThreadState, Threads, WaitTarget, PrivilegeLevel, system, driver, user}
use kazuos.Task.Thread as ThreadTable
use kazuos.Task.Wake.{apply_blocking_return_if_pending, is_sleeping}
use kazuos.Task.Process.{
  Process, Tasks, find_process, modify, update, with_threads, field_or, main_tid, on_tid,
}

-- `privilege <= PrivilegeLevel::Driver`
abbrev pub is_protected : PrivilegeLevel → Bool
is_protected system = true
is_protected driver = true
is_protected user = false

abbrev pub set_kill : Process → Process
set_kill p = record p { kill_pending = true }

unfoldable pub is_kill_pending : ℕ → Tasks → Bool
unfolding find_process
is_kill_pending pid s = field_or false (λ p. p.kill_pending) (find_process pid s.processes)

unfoldable pub set_kill_pending : ℕ → Tasks → Tasks
unfolding modify
set_kill_pending pid = update pid set_kill

abbrev pub kill_found : ℕ → Tasks → Option Process → Tasks
kill_found pid s none = s
kill_found pid s (some p) =
    if is_protected p.privilege
    then s
    else let s' = update pid set_kill s in on_tid ThreadTable.set_ready (main_tid pid s') s'

unfoldable pub kill_pid : ℕ → Tasks → Tasks
unfolding find_process modify main_tid ThreadTable.set_ready
kill_pid pid s = if pid == 0 then s else kill_found pid s (find_process pid s.processes)

unfoldable pub children_of : ℕ → List Process → List ℕ
children_of pid [] = []
children_of pid (p ∷ processes) =
    let rest = children_of pid processes in if p.parent == pid then p.pid ∷ rest else rest

unfoldable pub kill_all : List ℕ → Tasks → Tasks
unfolding kill_pid
kill_all [] s = s
kill_all (pid ∷ pids) s = kill_all pids (kill_pid pid s)

unfoldable pub kill_children : ℕ → Tasks → Tasks
unfolding children_of kill_all
kill_children pid s = kill_all (children_of pid s.processes) s

abbrev pub sleeps : Option ThreadState → Bool
sleeps none = false
sleeps (some state) = is_sleeping state

-- A thread in a blocking system call goes on.
unfoldable pub wake_main : (ℕ → ℕ) → ℕ → Threads → Threads
unfolding ThreadTable.state apply_blocking_return_if_pending ThreadTable.set_ready
    ThreadTable.set_wait_target
wake_main memory tid threads =
    if sleeps (ThreadTable.state tid threads)
    then (let woken = (apply_blocking_return_if_pending memory tid threads).1 in
        ThreadTable.set_wait_target tid WaitTarget.none (ThreadTable.set_ready tid woken))
    else threads

abbrev pub set_sigint : Process → Process
set_sigint p = record p { sigint_pending = true }

abbrev pub interrupt : (ℕ → ℕ) → ℕ → Tasks → Option Process → Tasks
interrupt memory pid s none = s
interrupt memory pid s (some p) =
    if is_protected p.privilege
    then s
    else (if p.sigint_catch
        then on_tid (wake_main memory) p.main_tid (update pid set_sigint s)
        else kill_pid pid s)

unfoldable pub send_sigint : (ℕ → ℕ) → ℕ → Tasks → Tasks
unfolding find_process modify wake_main kill_pid
send_sigint memory pid s = interrupt memory pid s (find_process pid s.processes)

unfoldable pub sigint_catches : ℕ → Tasks → Bool
unfolding find_process
sigint_catches pid s = field_or false (λ p. p.sigint_catch) (find_process pid s.processes)

unfoldable pub send_driver_exit : (ℕ → ℕ) → ℕ → Tasks → Tasks
unfolding modify main_tid wake_main
send_driver_exit memory pid s = on_tid (wake_main memory) (main_tid pid s) (update pid set_sigint s)

-- SIGTERM is noted for a process that catches it, and kills any other.
abbrev pub term : Process → Process
term p = if p.sigterm_catch then record p { sigterm_pending = true } else set_kill p

unfoldable pub send_sigterm : ℕ → Tasks → Tasks
unfolding modify main_tid ThreadTable.set_ready
send_sigterm pid s = on_tid ThreadTable.set_ready (main_tid pid s) (update pid term s)

-- `mask & SIGNAL_SIGINT != 0` and `mask & SIGNAL_SIGTERM != 0`, the bits 0 and 1.
abbrev pub has_sigint : ℕ → Bool
has_sigint mask = mask % 2 == 1

abbrev pub has_sigterm : ℕ → Bool
has_sigterm mask = mask / 2 % 2 == 1

abbrev pub catch_mask : ℕ → Process → Process
catch_mask mask p = record p { sigint_catch = has_sigint mask; sigterm_catch = has_sigterm mask }

unfoldable pub signal_set_catch : ℕ → ℕ → Tasks → Tasks
unfolding modify
signal_set_catch pid mask = update pid (catch_mask mask)

abbrev pub pending_mask : Process → ℕ
pending_mask p = (if p.sigint_pending then 1 else 0) + (if p.sigterm_pending then 2 else 0)

abbrev pub clear_pending : Process → Process
clear_pending p = record p { sigint_pending = false; sigterm_pending = false }

unfoldable pub signal_check_and_clear : ℕ → Tasks → ℕ × Tasks
unfolding find_process modify
signal_check_and_clear pid s =
    (field_or 0 pending_mask (find_process pid s.processes), update pid clear_pending s)

abbrev pub ready_main : Option ℕ → Threads → Threads
ready_main none threads = threads
ready_main (some tid) threads = ThreadTable.set_ready tid threads

-- Both loops of the shutdown leave the kernel's own process alone.
unfoldable pub for_users : (Process → Process) → List Process → List Process
for_users f [] = []
for_users f (p ∷ processes) =
    let rest = for_users f processes in if p.pid == 0 then p ∷ rest else f p ∷ rest

unfoldable pub ready_users : List Process → Threads → Threads
unfolding ThreadTable.set_ready
ready_users [] threads = threads
ready_users (p ∷ processes) threads =
    ready_users processes (if p.pid == 0 then threads else ready_main p.main_tid threads)

unfoldable pub shutdown_sigterm_all : Tasks → Tasks
unfolding for_users ready_users
shutdown_sigterm_all s =
    with_threads (ready_users s.processes) (record s { processes = for_users term s.processes })

unfoldable pub shutdown_sigkill_all : Tasks → Tasks
unfolding for_users ready_users
shutdown_sigkill_all s =
    with_threads (ready_users s.processes) (record s { processes = for_users set_kill s.processes })
