-- ===== src/Task/Process/Queries.antt =====
-- What crates/kernel/src/task/process.rs answers about the processes.
use kazuos.Prelude.{
  ℕ, zero, suc, ◌+◌, min, Bool, true, false, not, ◌&&◌, ◌||◌, Option, none, some, List, [], ◌∷◌,
  ◌==◌, ltb, if◌then◌else◌, add64,
}
use kazuos.Task.Types.{ThreadState, Threads, WaitTarget}
use kazuos.Task.Thread as ThreadTable
use kazuos.Task.Thread.{is_active}
use kazuos.Task.Process.{
  Process, ProcessState, empty, ready, running, sleeping, exited, Tasks, find_process, field_or,
  main_tid,
}
use kazuos.Task.Process.Signals.{is_protected}

-- `Ready | Running | Sleeping`
abbrev pub is_active_process : ProcessState → Bool
is_active_process empty = false
is_active_process ready = true
is_active_process running = true
is_active_process sleeping = true
is_active_process exited = false

abbrev pub is_runnable : ProcessState → Bool
is_runnable ready = true
is_runnable running = true
is_runnable _ = false

abbrev pub is_there : ProcessState → Bool
is_there empty = false
is_there _ = true

unfoldable pub is_live : ℕ → List Process → Bool
is_live pid [] = false
is_live pid (p ∷ processes) =
    let rest = is_live pid processes in ((p.pid == pid) && is_active_process p.state) || rest

-- `filter(..).count()`
unfoldable pub count_where : (Process → Bool) → List Process → ℕ
count_where f [] = 0
count_where f (p ∷ processes) = let rest = count_where f processes in if f p then 1 + rest else rest

unfoldable pub count : Tasks → ℕ
unfolding count_where
count s = count_where (λ p. is_there p.state) s.processes

unfoldable pub active_count : Tasks → ℕ
unfolding count_where
active_count s = count_where (λ p. is_active_process p.state) s.processes

unfoldable pub first_pid : List Process → Option ℕ
first_pid [] = none
first_pid (p ∷ processes) = if is_there p.state then some p.pid else first_pid processes

abbrev pub min_option : ℕ → Option ℕ → ℕ
min_option a none = a
min_option a (some b) = min a b

-- `filter(..).map(|p| p.pid).min()`
unfoldable pub min_pid : (Process → Bool) → List Process → Option ℕ
min_pid f [] = none
min_pid f (p ∷ processes) =
    let rest = min_pid f processes in if f p then some (min_option p.pid rest) else rest

unfoldable pub next_pid_after : ℕ → Tasks → Option ℕ
unfolding min_pid
next_pid_after pid s = min_pid (λ p. is_there p.state && ltb pid p.pid) s.processes

unfoldable pub active_pid_after : ℕ → Tasks → Option ℕ
unfolding min_pid
active_pid_after pid s = min_pid (λ p. is_runnable p.state && ltb pid p.pid) s.processes

-- `u64` sums, as compiled for release.
unfoldable pub memory_where : (Process → Bool) → List Process → ℕ
memory_where f [] = 0
memory_where f (p ∷ processes) =
    let rest = memory_where f processes in if f p then add64 p.memory_bytes rest else rest

unfoldable pub user_memory_total : Tasks → ℕ
unfolding memory_where
user_memory_total s = memory_where (λ p. not (p.pid == 0) && is_there p.state) s.processes

-- A process that may be killed for its memory.
abbrev pub may_be_victim : ℕ → Process → Bool
may_be_victim exclude p =
    not (p.pid == 0)
    && (not (p.pid == exclude) && (not (is_protected p.privilege) && is_active_process p.state))

abbrev pub heavier : Option (ℕ × ℕ) → Process → Bool
heavier none p = true
heavier (some (pid, bytes)) p = ltb bytes p.memory_bytes

abbrev pub better : ℕ → Option (ℕ × ℕ) → Process → Option (ℕ × ℕ)
better exclude best p =
    if may_be_victim exclude p && heavier best p then some (p.pid, p.memory_bytes) else best

unfoldable pub best_victim : ℕ → List Process → Option (ℕ × ℕ) → Option (ℕ × ℕ)
best_victim exclude [] best = best
best_victim exclude (p ∷ processes) best = best_victim exclude processes (better exclude best p)

abbrev pub pid_of : Option (ℕ × ℕ) → Option ℕ
pid_of none = none
pid_of (some (pid, bytes)) = some pid

unfoldable pub oom_victim : ℕ → Tasks → Option ℕ
unfolding best_victim
oom_victim exclude s = pid_of (best_victim exclude s.processes none)

abbrev pub target_pid : Option WaitTarget → Option ℕ
target_pid (some (WaitTarget.pid target)) = some target
target_pid _ = none

abbrev pub bind_target : Threads → Option ℕ → Option WaitTarget
bind_target threads none = none
bind_target threads (some tid) = ThreadTable.wait_target tid threads

-- The process that the main thread of a process waits for.
unfoldable pub waits_on : ℕ → Tasks → Option ℕ
unfolding main_tid ThreadTable.wait_target
waits_on pid s = target_pid (bind_target s.table.threads (main_tid pid s))

abbrev pub follow : Option ℕ → ℕ → (ℕ → ℕ) → ℕ
follow none cur rest = cur
follow (some next) cur rest = rest next

-- At most `n` steps of the chain of waits.
unfoldable pub leaf_within : ℕ → ℕ → Tasks → ℕ
unfolding waits_on
leaf_within zero cur s = cur
leaf_within (suc n) cur s = follow (waits_on cur s) cur (λ next. leaf_within n next s)

unfoldable pub foreground_leaf : ℕ → Tasks → ℕ
unfolding leaf_within
foreground_leaf root s = leaf_within 64 root s

abbrev pub same_pid : Option ℕ → ℕ → Bool
same_pid none pid = false
same_pid (some target) pid = target == pid

abbrev pub waits_for : Threads → Process → Option ℕ
waits_for threads q = target_pid (bind_target threads q.main_tid)

unfoldable pub is_waited_on : Threads → ℕ → List Process → Bool
is_waited_on threads pid [] = false
is_waited_on threads pid (q ∷ processes) =
    let rest = is_waited_on threads pid processes in same_pid (waits_for threads q) pid || rest

abbrev pub is_some : Option ℕ → Bool
is_some none = false
is_some (some n) = true

abbrev pub is_foreground : Threads → List Process → Process → Bool
is_foreground threads all p =
    not ((p.pid == 0) || not (is_active_process p.state))
    && (is_waited_on threads p.pid all && not (is_some (waits_for threads p)))

unfoldable pub first_where : (Process → Bool) → List Process → Option ℕ
first_where f [] = none
first_where f (p ∷ processes) = if f p then some p.pid else first_where f processes

unfoldable pub foreground_pid : Tasks → Option ℕ
unfolding first_where is_waited_on
foreground_pid s = first_where (is_foreground s.table.threads s.processes) s.processes

-- Ready, running or sleeping; a thread that is gone is not live.
abbrev pub is_live_thread : Option ThreadState → Bool
is_live_thread none = false
is_live_thread (some state) = is_active state

unfoldable pub live_among : List ℕ → Threads → ℕ
unfolding ThreadTable.state
live_among [] threads = 0
live_among (tid ∷ tids) threads =
    let rest = live_among tids threads in
    if is_live_thread (ThreadTable.state tid threads) then 1 + rest else rest

unfoldable pub live_thread_count : ℕ → Tasks → ℕ
unfolding find_process live_among
live_thread_count pid s =
    field_or 0 (λ p. live_among p.threads s.table.threads) (find_process pid s.processes)

abbrev pub shutdown_done : Process → Bool
shutdown_done p = (p.pid == 0) || not (is_active_process p.state)

unfoldable pub shutdown_complete : List Process → Bool
shutdown_complete [] = true
shutdown_complete (p ∷ processes) =
    let rest = shutdown_complete processes in shutdown_done p && rest

unfoldable pub winsize : ℕ → Tasks → ℕ × ℕ
unfolding find_process
winsize pid s = field_or (0, 0) (λ p. (p.term_cols, p.term_rows)) (find_process pid s.processes)

unfoldable pub is_background : ℕ → Tasks → Bool
unfolding find_process
is_background pid s = field_or false (λ p. p.background) (find_process pid s.processes)

unfoldable pub memory_bytes : ℕ → Tasks → Option ℕ
unfolding find_process
memory_bytes pid s = field_or none (λ p. some p.memory_bytes) (find_process pid s.processes)
