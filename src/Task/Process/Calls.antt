-- ===== src/Task/Process/Calls.antt =====
-- The calls of crates/kernel/src/task/process.rs, in any order.
use kazuos.Prelude.{ℕ, Option, List, [], ◌∷◌}
use kazuos.Task.Types.{PrivilegeLevel}
use kazuos.Task.Process.{Tasks, spawn_user_process}
use kazuos.Task.Process.Signals.{
  set_kill_pending, kill_pid, send_sigint, send_driver_exit, send_sigterm, signal_set_catch,
  signal_check_and_clear, shutdown_sigterm_all, shutdown_sigkill_all,
}
use kazuos.Task.Process.State.{
  set_running, set_ready, set_sleeping, add_memory_bytes, sub_memory_bytes, set_winsize, set_parent,
  spawn_user_thread, exit_current_thread, exit_current,
}

-- Calls of the process table, with the stack, the number of CPUs and the time that a start uses.
pub data Call : Type 0 where
  spawns : Option ℕ → ℕ → ℕ → List ℕ → ℕ → ℕ → ℕ → PrivilegeLevel → ℕ → ℕ → Call
  spawns_thread : Option ℕ → ℕ → ℕ → Option ℕ → ℕ → ℕ → ℕ → Call
  kills interrupts terms ends_driver flags checks readies sleeps : ℕ → Call
  runs : ℕ → Option ℕ → Call
  catches adds_memory subs_memory adopts exits_thread exits : ℕ → ℕ → Call
  sizes : ℕ → ℕ → ℕ → Call
  shuts_down_term shuts_down_kill : Call

unfoldable pub act : (ℕ → ℕ) → Call → Tasks → Tasks
unfolding spawn_user_process spawn_user_thread kill_pid send_sigint send_sigterm send_driver_exit
    set_kill_pending signal_check_and_clear signal_set_catch set_ready set_sleeping set_running
    add_memory_bytes sub_memory_bytes set_winsize set_parent exit_current_thread exit_current
    shutdown_sigterm_all shutdown_sigkill_all
act memory (spawns stack cpus now name entry top cr3 privilege argc argv) s =
    (spawn_user_process stack cpus now name entry top cr3 privilege argc argv s).1
act memory (spawns_thread stack cpus pid cr3 entry arg top) s =
    (spawn_user_thread stack cpus pid cr3 entry arg top s).1
act memory (kills pid) s = kill_pid pid s
act memory (interrupts pid) s = send_sigint memory pid s
act memory (terms pid) s = send_sigterm pid s
act memory (ends_driver pid) s = send_driver_exit memory pid s
act memory (flags pid) s = set_kill_pending pid s
act memory (checks pid) s = (signal_check_and_clear pid s).1
act memory (readies pid) s = set_ready pid s
act memory (sleeps pid) s = set_sleeping pid s
act memory (runs pid tid) s = set_running pid tid s
act memory (catches pid mask) s = signal_set_catch pid mask s
act memory (adds_memory pid bytes) s = add_memory_bytes pid bytes s
act memory (subs_memory pid bytes) s = sub_memory_bytes pid bytes s
act memory (adopts pid parent) s = set_parent pid parent s
act memory (exits_thread pid tid) s = exit_current_thread memory pid tid s
act memory (exits pid tid) s = exit_current memory pid tid s
act memory (sizes pid cols rows) s = set_winsize pid cols rows s
act memory shuts_down_term s = shutdown_sigterm_all s
act memory shuts_down_kill s = shutdown_sigkill_all s

unfoldable pub run : (ℕ → ℕ) → List Call → Tasks → Tasks
unfolding act
run memory [] s = s
run memory (call ∷ calls) s = run memory calls (act memory call s)
