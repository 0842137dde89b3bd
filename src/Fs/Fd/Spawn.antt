-- ===== src/Fs/Fd/Spawn.antt =====
-- The descriptors that a child starts with, of crates/kernel/src/task/exec.rs and `sys_exec` in
-- crates/kernel/src/syscall/runtime.rs.
use kazuos.Prelude.{
  ℕ, ◌+◌, ◌^◌, ◌<◌, ◌&&◌, Option, none, some, ◌==◌, leb, ◌≡◌, ◌≢◌, refl, ◌∙◌, ap, arith, get_elem?,
  get_elem?-set_ne, set, pad, Bool-cases, Option-cases, inl, inr,
}
use kazuos.Fs.Fd.{
  FdEntry, empty, console_out, console_in, Fds, max_fd, table_at, ensure_table, alloc_fd_at,
  entry_of, get_fd, or_entry, no_fd, stdio_entry, default_stdio, given_stdio, install_stdio,
  install_ctty,
}
use kazuos.Fs.Fd.Counts.{table_at-set, ensure_table-length}
use kazuos.Fs.Fd.Ends.{IsOpen}
use kazuos.Fs.Fd.Alloc.{
  IsCounted, IsCounted-mono, slot, alloc_fd_at-IsCounted, ensured_table, ensured_table-eq,
  or_entry-pad, or_entry-table_or_empty,
}
use kazuos.Fs.Fd.Close.{get_fd-IsOpen}

-- A new entry leaves the other slots alone.
slot-alloc_fd_at_ne :
    (pid fd k : ℕ) (e : FdEntry) (s : Fds)
    → fd ≢ k
    → slot pid k (alloc_fd_at pid fd e s).1 ≡ slot pid k s
unfolding alloc_fd_at get_fd
slot-alloc_fd_at_ne pid fd k e s ne = elim (Bool-cases (leb max_fd fd)) [
  | inl b ↦ rw b refl
  | inr b ↦ rw b (
      let table = pad (ensured_table pid s) (fd + 1) empty in
      ap (λ o. or_entry (entry_of k o) empty)
        (table_at-set (ensure_table pid s.tables) pid (set table fd e)
          (ensure_table-length pid s.tables))
      ∙ ap (λ o. or_entry o empty) (get_elem?-set_ne table fd k e ne)
      ∙ or_entry-pad (ensured_table pid s) (fd + 1) k
      ∙ ap (λ t. or_entry (get_elem? t k) empty) (ensured_table-eq pid s)
      ∙ or_entry-table_or_empty (table_at pid s.tables) k)
]

module _ (n caller : ℕ) (s : Fds) (h : IsCounted n s) where
  or_entry-IsOpen :
      (fd : ℕ) (default : FdEntry) (o : Option FdEntry)
      → get_fd caller fd s ≡ o
      → IsOpen s.pipes default
      → IsOpen s.pipes (or_entry o default)
  or_entry-IsOpen fd default none found d = d
  or_entry-IsOpen fd default (some e) found d = get_fd-IsOpen n caller s h fd e found

  stdio_entry-IsOpen :
      (fd : ℕ) (default : FdEntry)
      → IsOpen s.pipes default
      → IsOpen s.pipes (stdio_entry caller fd default s)
  stdio_entry-IsOpen fd default d = elim (Bool-cases (fd == no_fd)) [
    | inl e ↦ rw e d
    | inr e ↦ rw e (or_entry-IsOpen fd default (get_fd caller fd s) refl d)
  ]

-- One more entry for the child, in a slot that is empty.
give-IsCounted :
    (n child fd : ℕ) (e : FdEntry) (s : Fds)
    → IsCounted n s
    → n + 1 < 2 ^ 32
    → IsOpen s.pipes e
    → slot child fd s ≡ empty
    → IsCounted (n + 1) (alloc_fd_at child fd e s).1
give-IsCounted n child fd e s h room o vacant = alloc_fd_at-IsCounted n child e s h room o fd vacant

module _ (n caller child : ℕ) (s : Fds) (h : IsCounted n s) (room : n + 3 < 2 ^ 32)
    (fresh : (fd : ℕ) → slot child fd s ≡ empty) where
  default_stdio-IsCounted : IsCounted (n + 1 + 1 + 1) (default_stdio child s)
  default_stdio-IsCounted =
      let s0 = (alloc_fd_at child 0 console_in s).1 in
      let s1 = (alloc_fd_at child 1 console_out s0).1 in
      let h0 = give-IsCounted n child 0 console_in s h (omega (arith, room)) tt (fresh 0) in
      let h1 =
        give-IsCounted (n + 1) child 1 console_out s0 h0 (omega (arith, room)) tt
          (slot-alloc_fd_at_ne child 0 1 console_in s (omega arith) ∙ fresh 1) in
      give-IsCounted (n + 1 + 1) child 2 console_out s1 h1 (omega (arith, room)) tt (
        slot-alloc_fd_at_ne child 1 2 console_out s0 (omega arith)
        ∙ slot-alloc_fd_at_ne child 0 2 console_in s (omega arith)
        ∙ fresh 2)

  given_stdio-IsCounted :
      (stdin_fd stdout_fd : ℕ)
      → IsCounted (n + 1 + 1 + 1) (given_stdio caller child stdin_fd stdout_fd s)
  given_stdio-IsCounted stdin_fd stdout_fd =
      let s2 = (alloc_fd_at child 2 console_out s).1 in
      let e0 = stdio_entry caller stdin_fd console_in s2 in
      let s0 = (alloc_fd_at child 0 e0 s2).1 in
      let h2 = give-IsCounted n child 2 console_out s h (omega (arith, room)) tt (fresh 2) in
      let h0 =
        give-IsCounted (n + 1) child 0 e0 s2 h2 (omega (arith, room))
          (stdio_entry-IsOpen (n + 1) caller s2 h2 stdin_fd console_in tt)
          (slot-alloc_fd_at_ne child 2 0 console_out s (omega arith) ∙ fresh 0) in
      give-IsCounted (n + 1 + 1) child 1 (stdio_entry caller stdout_fd console_out s0) s0 h0
        (omega (arith, room)) (stdio_entry-IsOpen (n + 1 + 1) caller s0 h0 stdout_fd console_out tt)
        (slot-alloc_fd_at_ne child 0 1 e0 s2 (omega arith)
          ∙ slot-alloc_fd_at_ne child 2 1 console_out s (omega arith)
          ∙ fresh 1)

  pub install_stdio-IsCounted :
      (stdin_fd stdout_fd : ℕ) → IsCounted (n + 3) (install_stdio caller child stdin_fd stdout_fd s)
  unfolding install_stdio
  install_stdio-IsCounted stdin_fd stdout_fd =
      elim (Bool-cases ((stdin_fd == no_fd) && (stdout_fd == no_fd))) [
        | inl e ↦ rw e (
            IsCounted-mono (n + 1 + 1 + 1) (n + 3) (default_stdio child s) (omega arith)
              default_stdio-IsCounted)
        | inr e ↦ rw e (
            IsCounted-mono (n + 1 + 1 + 1) (n + 3) (given_stdio caller child stdin_fd stdout_fd s)
              (omega arith) (given_stdio-IsCounted stdin_fd stdout_fd))
      ]

-- The descriptor 3 is free after the first three.
pub slot-install_stdio :
    (caller child stdin_fd stdout_fd : ℕ) (s : Fds)
    → slot child 3 s ≡ empty
    → slot child 3 (install_stdio caller child stdin_fd stdout_fd s) ≡ empty
unfolding install_stdio
slot-install_stdio caller child stdin_fd stdout_fd s fresh =
    elim (Bool-cases ((stdin_fd == no_fd) && (stdout_fd == no_fd))) [
      | inl e ↦ rw e (
          let s0 = (alloc_fd_at child 0 console_in s).1 in
          let s1 = (alloc_fd_at child 1 console_out s0).1 in
          slot-alloc_fd_at_ne child 2 3 console_out s1 (omega arith)
          ∙ slot-alloc_fd_at_ne child 1 3 console_out s0 (omega arith)
          ∙ slot-alloc_fd_at_ne child 0 3 console_in s (omega arith)
          ∙ fresh)
      | inr e ↦ rw e (
          let s2 = (alloc_fd_at child 2 console_out s).1 in
          let e0 = stdio_entry caller stdin_fd console_in s2 in
          let s0 = (alloc_fd_at child 0 e0 s2).1 in
          slot-alloc_fd_at_ne child 1 3 (stdio_entry caller stdout_fd console_out s0) s0
            (omega arith)
          ∙ slot-alloc_fd_at_ne child 0 3 e0 s2 (omega arith)
          ∙ slot-alloc_fd_at_ne child 2 3 console_out s (omega arith)
          ∙ fresh)
    ]

pub install_ctty-IsCounted :
    (n caller child : ℕ) (s : Fds)
    → IsCounted n s
    → n + 1 < 2 ^ 32
    → slot child 3 s ≡ empty
    → IsCounted (n + 1) (install_ctty caller child s)
unfolding install_ctty
install_ctty-IsCounted n caller child s h room vacant = elim (Option-cases (get_fd caller 0 s)) [
  | inl e ↦ rw e (IsCounted-mono n (n + 1) s (omega arith) h)
  | inr e ↦
      rw (e.1)
        (give-IsCounted n child 3 (e.0) s h room (get_fd-IsOpen n caller s h 0 (e.0) (e.1)) vacant)
]
