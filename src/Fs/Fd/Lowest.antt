-- ===== src/Fs/Fd/Lowest.antt =====
-- Which descriptor `alloc_fd` of crates/kernel/src/fs/fd.rs gives, and what `sys_pipe` of
-- crates/kernel/src/syscall/runtime.rs leaves behind when there is none.
use kazuos.Prelude.{
  ℕ, zero, suc, ◌≤◌, ◌<◌, Bool, false, Option, none, some, [], ◌∷◌, ◌++◌, ltb, ◌≡◌, ◌≢◌, refl, sym,
  ◌∙◌, ap, arith, length, get_elem?, get_elem?-set_self, get_elem?-lt-length, length-append, set,
  Bool-cases, inl, inr, u64_max,
}
use kazuos.Fs.Pipe
use kazuos.Fs.Pipe.{new_pipe, pipe_at}
use kazuos.Fs.Fd.Calls.{create-at}
use kazuos.Fs.Fd.{
  FdEntry, empty, pipe_read, pipe_write, FdTable, Fds, max_fd, table_at, table_or_empty,
  ensure_table, install, one_later, first_empty, alloc_in, alloc_fd, entry_of, get_fd, or_entry,
  sys_pipe,
}
use kazuos.Fs.Fd.Counts.{table_at-set, ensure_table-length, table_at-ensure_table}
use kazuos.Fs.Fd.Alloc.{
  slot, ensured_table, ensured_table-eq, or_entry-table_or_empty, first_empty-get,
}

abbrev entry_at : FdTable → ℕ → FdEntry
entry_at table k = or_entry (get_elem? table k) empty

later_taken :
    (e : FdEntry) (table : FdTable) (o : Option ℕ) (i : ℕ)
    → e ≢ empty
    → ((j : ℕ) → o ≡ some j → (k : ℕ) → k < j → entry_at table k ≢ empty)
    → one_later o ≡ some i
    → (k : ℕ) → k < i
    → entry_at (e ∷ table) k ≢ empty
later_taken e table none i ne rest found k l = absurd (no_some found)
  where
    no_some : none ≡ some i → ⊥
    no_some q = cc
later_taken e table (some j) i ne rest found zero l = ne
later_taken e table (some j) zero ne rest found (suc k) l = absurd (omega (arith, l))
later_taken e table (some j) (suc i) ne rest found (suc k) l =
    let q : some j ≡ some i = cc in rest i q k (omega (arith, l))

first_empty-below :
    (table : FdTable) (i : ℕ)
    → first_empty table ≡ some i
    → (k : ℕ) → k < i
    → entry_at table k ≢ empty
unfolding first_empty
first_empty-below [] i found k l = cc
first_empty-below (empty ∷ table) zero found k l = absurd (omega (arith, l))
first_empty-below (empty ∷ table) (suc i) found k l = cc
first_empty-below (e ∷ table) i found k l =
    later_taken e table (first_empty table) i (λ q. absurd cc) (first_empty-below table) found k l

none_later : (o : Option ℕ) → one_later o ≡ none → o ≡ none
none_later none e = refl
none_later (some i) e = cc

first_empty-none :
    (table : FdTable)
    → first_empty table ≡ none
    → (k : ℕ) → k < length table
    → entry_at table k ≢ empty
unfolding first_empty
first_empty-none [] found k l = absurd (omega (arith, l))
first_empty-none (empty ∷ table) found k l = cc
first_empty-none (e ∷ table) found zero l = λ q. absurd cc
first_empty-none (e ∷ table) found (suc k) l =
    first_empty-none table (none_later (first_empty table) found) k (omega (arith, l))

-- With no descriptor all of them are taken; a descriptor is free and the lowest free one, and holds
-- the entry afterwards.
abbrev pub IsLowest : ℕ → FdEntry → Fds → Option ℕ × Fds → Type 0
IsLowest pid e s (none, s') = (k : ℕ) → k < max_fd → slot pid k s ≢ empty
IsLowest pid e s (some fd, s') =
    (slot pid fd s ≡ empty)
    × ((k : ℕ) → k < fd → slot pid k s ≢ empty)
    × (get_fd pid fd s' ≡ some e)

slot-ensured : (pid k : ℕ) (s : Fds) → slot pid k s ≡ entry_at (ensured_table pid s) k
unfolding get_fd
slot-ensured pid k s = sym (
    ap (λ t. entry_at t k) (ensured_table-eq pid s)
    ∙ or_entry-table_or_empty (table_at pid s.tables) k)

past_end : (table : FdTable) → entry_at table (length table) ≡ empty
past_end [] = refl
past_end (e ∷ table) = past_end table

module _ (pid : ℕ) (e : FdEntry) (s : Fds) where
  install-get :
      (fd : ℕ) (table : FdTable)
      → fd < length table
      → get_fd pid fd (install pid fd e table (record s { tables = ensure_table pid s.tables }))
        ≡ some e
  unfolding get_fd
  install-get fd table l =
      ap (entry_of fd) (
        table_at-set (ensure_table pid s.tables) pid (set table fd e)
          (ensure_table-length pid s.tables))
      ∙ get_elem?-set_self table fd e l

  alloc_in-IsLowest :
      (o : Option ℕ)
      → first_empty (ensured_table pid s) ≡ o
      → IsLowest pid e s
          (alloc_in pid e (ensured_table pid s) (record s { tables = ensure_table pid s.tables }) o)
  alloc_in-IsLowest (some i) found =
      let table = ensured_table pid s in
      let at = first_empty-get table i found in
      (
        slot-ensured pid i s ∙ ap (λ o. or_entry o empty) at,
        λ k l q. first_empty-below table i found k l (sym (slot-ensured pid k s) ∙ q),
        install-get i table (get_elem?-lt-length table i at),
      )
  alloc_in-IsLowest none found =
      let table = ensured_table pid s in
      elim (Bool-cases (ltb (length table) max_fd)) [
        | inl b ↦ rw b (
          slot-ensured pid (length table) s ∙ past_end table,
          (λ k l q. first_empty-none table found k l (sym (slot-ensured pid k s) ∙ q)),
          install-get (length table) (table ++ empty ∷ [])
              (omega (arith, length-append table (empty ∷ []))),
        )
        | inr b ↦ rw b (λ k l q.
            first_empty-none table found k (ground (arith, l, b)) (sym (slot-ensured pid k s) ∙ q))
      ]

  -- `alloc_fd` gives the lowest free descriptor, which then holds the entry and can be read back;
  -- it gives none only if every one below `max_fd` is taken.
  pub alloc_fd-IsLowest : IsLowest pid e s (alloc_fd pid e s)
  unfolding alloc_fd
  alloc_fd-IsLowest = alloc_in-IsLowest (first_empty (ensured_table pid s)) refl

full-alloc_fd :
    (pid : ℕ) (e : FdEntry) (s : Fds) (table : FdTable)
    → table_at pid s.tables ≡ some table
    → first_empty table ≡ none
    → max_fd ≤ length table
    → alloc_fd pid e s ≡ (none, record s { tables = ensure_table pid s.tables })
unfolding alloc_fd
full-alloc_fd pid e s table at full long =
    let same : ensured_table pid s ≡ table = ensured_table-eq pid s ∙ ap table_or_empty at in
    rw same (rw full (rw (ge→ltb (length table) max_fd long) refl))
  where
    ge→ltb : (a b : ℕ) → b ≤ a → ltb a b ≡ false
    ge→ltb a b l = ground arith

-- In a process whose table is full `sys_pipe` fails, and the pipe that it created stays in the
-- table of pipes, open and without any end.
pub sys_pipe_leak :
    (caller : ℕ) (written : Bool) (s : Fds) (table : FdTable)
    → table_at caller s.tables ≡ some table
    → first_empty table ≡ none
    → max_fd ≤ length table
    → ((sys_pipe caller written s).0 ≡ u64_max)
      × (pipe_at (Pipe.create s.pipes).0 (sys_pipe caller written s).1.pipes ≡ some new_pipe)
unfolding sys_pipe
sys_pipe_leak caller written s table at full long =
    let s0 : Fds = record s { pipes = (Pipe.create s.pipes).1 } in
    let s1 : Fds = record s0 { tables = ensure_table caller s0.tables } in
    let id = (Pipe.create s.pipes).0 in
    rw (full-alloc_fd caller (pipe_read id) s0 table at full long) (
      rw
        (full-alloc_fd caller (pipe_write id) s1 table
          (table_at-ensure_table caller s.tables ∙ ap (λ o. some (table_or_empty o)) at) full long)
        (refl, create-at s.pipes))
