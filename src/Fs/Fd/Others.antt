-- ===== src/Fs/Fd/Others.antt =====
-- The operations of crates/kernel/src/fs/fd.rs on one process leave the tables of the others alone.
use kazuos.Prelude.{
  ℕ, ◌+◌, Bool, true, false, ◌&&◌, Option, none, some, List, [], ◌∷◌, ◌++◌, ◌==◌, ltb, leb, ◌≡◌,
  ◌≢◌, refl, ◌∙◌, ap, length, get_elem?, get_elem?-set_ne, set, pad, Bool-cases, Option-cases, inl,
  inr,
}
use kazuos.Fs.Pipe
use kazuos.Fs.Fd.{
  FdEntry, empty, console_out, console_in, pipe_read, pipe_write, FdTable, Fds, max_fd, join,
  table_at, table_or_empty, ensure_table, install, alloc_fd_at, first_empty, alloc_in, alloc_fd,
  get_fd, put_entry, set_fd, drop_entry, free_fd, close_all, finish_pipe, sys_pipe, no_fd,
  stdio_entry, install_stdio, install_ctty,
}
use kazuos.Fs.Fd.Counts.{table_at-pad}
use kazuos.Fs.Fd.Close.{close_entry-tables, close_entries-tables}

abbrev pub IsApart : ℕ → Fds → Fds → Type 0
IsApart pid s s' = (k : ℕ) → pid ≢ k → table_at k s'.tables ≡ table_at k s.tables

table_at-set_ne :
    (tables : List (Option FdTable)) (pid k : ℕ) (table : FdTable)
    → pid ≢ k
    → table_at k (set tables pid (some table)) ≡ table_at k tables
table_at-set_ne tables pid k table ne = ap join (get_elem?-set_ne tables pid k (some table) ne)

ensure_table-IsApart :
    (pid k : ℕ) (tables : List (Option FdTable))
    → pid ≢ k
    → table_at k (ensure_table pid tables) ≡ table_at k tables
unfolding ensure_table
ensure_table-IsApart pid k tables ne =
    table_at-set_ne (pad tables (pid + 1) none) pid k _ ne ∙ table_at-pad tables (pid + 1) k

module _ (pid : ℕ) (s : Fds) where
  install-IsApart :
      (fd : ℕ) (e : FdEntry) (table : FdTable)
      → IsApart pid s (install pid fd e table (record s { tables = ensure_table pid s.tables }))
  install-IsApart fd e table k ne =
      table_at-set_ne (ensure_table pid s.tables) pid k (set table fd e) ne
      ∙ ensure_table-IsApart pid k s.tables ne

  pub alloc_fd_at-IsApart : (fd : ℕ) (e : FdEntry) → IsApart pid s (alloc_fd_at pid fd e s).1
  unfolding alloc_fd_at
  alloc_fd_at-IsApart fd e k ne = elim (Bool-cases (leb max_fd fd)) [
    | inl b ↦ rw b refl
    | inr b ↦ rw b (install-IsApart fd e _ k ne)
  ]

  alloc_in-IsApart :
      (e : FdEntry) (table : FdTable) (o : Option ℕ)
      → IsApart pid s (alloc_in pid e table (record s { tables = ensure_table pid s.tables }) o).1
  alloc_in-IsApart e table (some i) k ne = install-IsApart i e table k ne
  alloc_in-IsApart e table none k ne = elim (Bool-cases (ltb (length table) max_fd)) [
    | inl b ↦ rw b (install-IsApart (length table) e (table ++ empty ∷ []) k ne)
    | inr b ↦ rw b (ensure_table-IsApart pid k s.tables ne)
  ]

  pub alloc_fd-IsApart : (e : FdEntry) → IsApart pid s (alloc_fd pid e s).1
  unfolding alloc_fd
  alloc_fd-IsApart e =
      let table = table_or_empty (table_at pid (ensure_table pid s.tables)) in
      alloc_in-IsApart e table (first_empty table)

  drop_entry-IsApart :
      (fd : ℕ) (table : FdTable) (o : Option FdEntry)
      → IsApart pid s (drop_entry pid fd s table o).1
  drop_entry-IsApart fd table none k ne = refl
  drop_entry-IsApart fd table (some e) k ne =
      rw (close_entry-tables e s) (table_at-set_ne s.tables pid k (set table fd empty) ne)

  pub free_fd-IsApart : (fd : ℕ) → IsApart pid s (free_fd pid fd s).1
  unfolding free_fd
  free_fd-IsApart fd k ne = elim (Option-cases (table_at pid s.tables)) [
    | inl e ↦ rw (e, free_fd) refl
    | inr e ↦ rw (e.1, free_fd) (drop_entry-IsApart fd (e.0) (get_elem? (e.0) fd) k ne)
  ]

  pub close_all-IsApart : IsApart pid s (close_all pid s)
  unfolding close_all
  close_all-IsApart k ne = elim (Option-cases (table_at pid s.tables)) [
    | inl e ↦ rw (e, close_all) refl
    | inr e ↦
        rw (e.1, close_all)
          (rw (close_entries-tables (e.0) s) (table_at-set_ne s.tables pid k [] ne))
  ]

  put_entry-IsApart :
      (fd : ℕ) (e : FdEntry) (o : Option FdTable) → IsApart pid s (put_entry pid fd e s o).1
  put_entry-IsApart fd e none k ne = refl
  put_entry-IsApart fd e (some table) k ne = elim (Bool-cases (ltb fd (length table))) [
    | inl b ↦ rw b (table_at-set_ne s.tables pid k (set table fd e) ne)
    | inr b ↦ rw b refl
  ]

  pub set_fd-IsApart : (fd : ℕ) (e : FdEntry) → IsApart pid s (set_fd pid fd e s).1
  unfolding set_fd
  set_fd-IsApart fd e = put_entry-IsApart fd e (table_at pid s.tables)

finish_pipe-IsApart :
    (caller : ℕ) (written : Bool) (r w : Option ℕ) (s : Fds)
    → IsApart caller s (finish_pipe caller written r w s).1
finish_pipe-IsApart caller true (some r) (some w) s k ne = refl
finish_pipe-IsApart caller false (some r) (some w) s k ne =
    free_fd-IsApart caller (free_fd caller r s).1 w k ne ∙ free_fd-IsApart caller s r k ne
finish_pipe-IsApart caller written (some r) none s k ne = free_fd-IsApart caller s r k ne
finish_pipe-IsApart caller written none none s k ne = refl
finish_pipe-IsApart caller written none (some w) s k ne = free_fd-IsApart caller s w k ne

pub sys_pipe-IsApart :
    (caller : ℕ) (written : Bool) (s : Fds) → IsApart caller s (sys_pipe caller written s).1
unfolding sys_pipe
sys_pipe-IsApart caller written s k ne =
    let id = (Pipe.create s.pipes).0 in
    let s0 : Fds = record s { pipes = (Pipe.create s.pipes).1 } in
    let s1 = (alloc_fd caller (pipe_read id) s0).1 in
    let s2 = (alloc_fd caller (pipe_write id) s1).1 in
    finish_pipe-IsApart caller written _ _ s2 k ne
    ∙ alloc_fd-IsApart caller s1 (pipe_write id) k ne
    ∙ alloc_fd-IsApart caller s0 (pipe_read id) k ne

pub install_stdio-IsApart :
    (caller child stdin_fd stdout_fd : ℕ) (s : Fds)
    → IsApart child s (install_stdio caller child stdin_fd stdout_fd s)
unfolding install_stdio
install_stdio-IsApart caller child stdin_fd stdout_fd s k ne =
    elim (Bool-cases ((stdin_fd == no_fd) && (stdout_fd == no_fd))) [
      | inl e ↦ rw e (
          let s0 = (alloc_fd_at child 0 console_in s).1 in
          let s1 = (alloc_fd_at child 1 console_out s0).1 in
          alloc_fd_at-IsApart child s1 2 console_out k ne
          ∙ alloc_fd_at-IsApart child s0 1 console_out k ne
          ∙ alloc_fd_at-IsApart child s 0 console_in k ne)
      | inr e ↦ rw e (
          let s2 = (alloc_fd_at child 2 console_out s).1 in
          let e0 = stdio_entry caller stdin_fd console_in s2 in
          let s0 = (alloc_fd_at child 0 e0 s2).1 in
          alloc_fd_at-IsApart child s0 1 (stdio_entry caller stdout_fd console_out s0) k ne
          ∙ alloc_fd_at-IsApart child s2 0 e0 k ne
          ∙ alloc_fd_at-IsApart child s 2 console_out k ne)
    ]

pub install_ctty-IsApart :
    (caller child : ℕ) (s : Fds) → IsApart child s (install_ctty caller child s)
unfolding install_ctty
install_ctty-IsApart caller child s k ne = elim (Option-cases (get_fd caller 0 s)) [
  | inl e ↦ rw e refl
  | inr e ↦ rw (e.1) (alloc_fd_at-IsApart child s 3 (e.0) k ne)
]
