-- ===== src/Fs/Fd/Close.antt =====
-- What crates/kernel/src/fs/fd.rs closes or moves on, counted by the pipes.
use kazuos.Prelude.{
  ℕ, ◌+◌, ◌≤◌, Option, none, some, [], ◌∷◌, ◌≡◌, refl, ◌∙◌, ap, subst, arith, length, get_elem?,
  set, Option-cases, inl, inr, lt→ltb, get_elem?-lt-length,
}
use kazuos.Fs.Pipe.{pipe_at}
use kazuos.Fs.Fd.{
  FdEntry, empty, file, device, console_out, console_in, pipe_read, pipe_write, FdTable, Fds,
  table_at, close_entry, entry_of, get_fd, put_entry, set_fd, drop_entry, free_fd, close_entries,
  close_all,
}
use kazuos.Fs.Fd.Counts.{
  table_count, slot_count, count, entry_count, table_count-set, count-set, slot-le-count,
  entry-le-table, table_at-lt-length,
}
use kazuos.Fs.Fd.Ends.{
  writes_to, reads_from, HasEnds, IsBalanced, IsOpen, same-IsBalanced, end_self,
  close_entry-IsBalanced,
}
use kazuos.Fs.Fd.Alloc.{writers, readers, IsCounted, table_count-or_empty}

entry-le-slot :
    (f : FdEntry → ℕ) (fd : ℕ) (o : Option FdTable) → entry_count f (entry_of fd o) ≤ slot_count f o
entry-le-slot f fd none = omega arith
entry-le-slot f fd (some table) = entry-le-table f table fd

-- Closing descriptors.
pub close_entry-tables : (e : FdEntry) (s : Fds) → (close_entry e s).tables ≡ s.tables
unfolding close_entry
close_entry-tables empty s = refl
close_entry-tables (file x y z) s = refl
close_entry-tables (device x y) s = refl
close_entry-tables console_out s = refl
close_entry-tables console_in s = refl
close_entry-tables (pipe_read k) s = refl
close_entry-tables (pipe_write k) s = refl

module _ (n pid : ℕ) (s : Fds) (h : IsCounted n s) where
  drop_entry-IsCounted :
      (fd : ℕ) (table : FdTable) (o : Option FdEntry)
      → table_at pid s.tables ≡ some table
      → get_elem? table fd ≡ o
      → IsCounted n (drop_entry pid fd s table o).1
  drop_entry-IsCounted fd table none at found = h
  drop_entry-IsCounted fd table (some e) at found =
      let c : (f : FdEntry → ℕ)
          → f empty ≡ 0
          → count f s.tables
            ≡ count f (set (close_entry e s).tables pid (some (set table fd empty))) + f e =
        λ f z. rw (close_entry-tables e s) (
          omega (
            arith,
            z,
            count-set f s.tables pid (set table fd empty)
                (table_at-lt-length s.tables pid table at),
            table_count-set f table fd empty (get_elem?-lt-length table fd found),
            ap (slot_count f) at,
            ap (entry_count f) found,
          )) in
      (
        close_entry-IsBalanced (writers s) (readers s) _ _ s (h.0) e
            (λ id. (c (writes_to id) refl, c (reads_from id) refl)),
        λ id. (
          omega (arith, c (writes_to id) refl, (h.1 id).0),
          omega (arith, c (reads_from id) refl, (h.1 id).1),
        ),
      )

  pub free_fd-IsCounted : (fd : ℕ) → IsCounted n (free_fd pid fd s).1
  unfolding free_fd
  free_fd-IsCounted fd = elim (Option-cases (table_at pid s.tables)) [
    | inl e ↦ rw (e, free_fd) h
    | inr e ↦ rw (e.1, free_fd) (drop_entry-IsCounted fd (e.0) (get_elem? (e.0) fd) (e.1) refl)
  ]

close_entries-IsBalanced :
    (table : FdTable) (w r w' r' : ℕ → ℕ) (s : Fds)
    → IsBalanced w r s.pipes
    → ((id : ℕ)
        → (w id ≡ w' id + table_count (writes_to id) table)
          × (r id ≡ r' id + table_count (reads_from id) table))
    → IsBalanced w' r' (close_entries table s).pipes
unfolding close_entries table_count
close_entries-IsBalanced [] w r w' r' s b eq =
    same-IsBalanced w r w' r' s.pipes b (λ id. (omega (arith, (eq id).0), omega (arith, (eq id).1)))
close_entries-IsBalanced (e ∷ table) w r w' r' s b eq =
    let w1 : ℕ → ℕ = λ id. w' id + table_count (writes_to id) table in
    let r1 : ℕ → ℕ = λ id. r' id + table_count (reads_from id) table in
    close_entries-IsBalanced table w1 r1 w' r' (close_entry e s)
      (close_entry-IsBalanced w r w1 r1 s b e
        (λ id. (omega (arith, (eq id).0), omega (arith, (eq id).1))))
      (λ id. (refl, refl))

pub close_entries-tables : (table : FdTable) (s : Fds) → (close_entries table s).tables ≡ s.tables
unfolding close_entries
close_entries-tables [] s = refl
close_entries-tables (e ∷ table) s =
    close_entries-tables table (close_entry e s) ∙ close_entry-tables e s

module _ (n pid : ℕ) (s : Fds) (h : IsCounted n s) where
  close_table-IsCounted :
      (table : FdTable)
      → table_at pid s.tables ≡ some table
      → IsCounted n (record (close_entries table s) {
        tables = set (close_entries table s).tables pid (some []);
      })
  close_table-IsCounted table at =
      let c : (f : FdEntry → ℕ)
          → count f s.tables
            ≡ count f (set (close_entries table s).tables pid (some [])) + table_count f table =
        λ f. rw (close_entries-tables table s) (
          omega (
            arith,
            count-set f s.tables pid [] (table_at-lt-length s.tables pid table at),
            ap (slot_count f) at,
            table_count-or_empty f none,
          )) in
      (
        close_entries-IsBalanced table (writers s) (readers s) _ _ s (h.0)
            (λ id. (c (writes_to id), c (reads_from id))),
        λ id. (
          omega (arith, c (writes_to id), (h.1 id).0),
          omega (arith, c (reads_from id), (h.1 id).1),
        ),
      )

  pub close_all-IsCounted : IsCounted n (close_all pid s)
  unfolding close_all
  close_all-IsCounted = elim (Option-cases (table_at pid s.tables)) [
    | inl e ↦ rw (e, close_all) h
    | inr e ↦ rw (e.1, close_all) (close_table-IsCounted (e.0) (e.1))
  ]

  one_in_count :
      (f : FdEntry → ℕ) (fd : ℕ) (e : FdEntry)
      → entry_of fd (table_at pid s.tables) ≡ some e
      → f e ≤ count f s.tables
  one_in_count f fd e found = omega (
    arith,
    slot-le-count f s.tables pid,
    entry-le-slot f fd (table_at pid s.tables),
    ap (entry_count f) found,
  )

  put_entry-IsCounted :
      (fd a b c x y z : ℕ) (o : Option FdTable)
      → table_at pid s.tables ≡ o
      → entry_of fd o ≡ some (file x y z)
      → IsCounted n (put_entry pid fd (file a b c) s o).1
  put_entry-IsCounted fd a b c x y z none at was = cc
  put_entry-IsCounted fd a b c x y z (some table) at was =
      rw (lt→ltb fd (length table) (get_elem?-lt-length table fd was)) (
        let same : (f : FdEntry → ℕ)
            → f (file a b c) ≡ f (file x y z)
            → count f (set s.tables pid (some (set table fd (file a b c)))) ≡ count f s.tables =
          λ f e. omega (
            arith,
            e,
            count-set f s.tables pid (set table fd (file a b c))
                (table_at-lt-length s.tables pid table at),
            table_count-set f table fd (file a b c) (get_elem?-lt-length table fd was),
            ap (slot_count f) at,
            ap (entry_count f) was,
          ) in
        (
          same-IsBalanced (writers s) (readers s) _ _ s.pipes (h.0)
              (λ id. (same (writes_to id) refl, same (reads_from id) refl)),
          λ id. (
            omega (arith, same (writes_to id) refl, (h.1 id).0),
            omega (arith, same (reads_from id) refl, (h.1 id).1),
          ),
        ))

  -- A new offset for an open file.
  pub set_fd-IsCounted :
      (fd a b c x y z : ℕ)
      → get_fd pid fd s ≡ some (file x y z)
      → IsCounted n (set_fd pid fd (file a b c) s).1
  unfolding set_fd get_fd
  set_fd-IsCounted fd a b c x y z was =
      put_entry-IsCounted fd a b c x y z (table_at pid s.tables) refl was

  -- The pipe of a descriptor is open.
  pub get_fd-IsOpen : (fd : ℕ) (e : FdEntry) → get_fd pid fd s ≡ some e → IsOpen s.pipes e
  unfolding get_fd
  get_fd-IsOpen fd (pipe_write k) found = elim (Option-cases (pipe_at k s.pipes)) [
    | inl q ↦ absurd (
        omega (
          arith,
          (subst (HasEnds (writers s k) (readers s k)) q (h.0 k)).0,
          one_in_count (writes_to k) fd _ found,
          end_self k,
        ))
    | inr p ↦ p
  ]
  get_fd-IsOpen fd (pipe_read k) found = elim (Option-cases (pipe_at k s.pipes)) [
    | inl q ↦ absurd (
        omega (
          arith,
          (subst (HasEnds (writers s k) (readers s k)) q (h.0 k)).1,
          one_in_count (reads_from k) fd _ found,
          end_self k,
        ))
    | inr p ↦ p
  ]
  get_fd-IsOpen fd empty found = tt
  get_fd-IsOpen fd (file x y z) found = tt
  get_fd-IsOpen fd (device x y) found = tt
  get_fd-IsOpen fd console_in found = tt
  get_fd-IsOpen fd console_out found = tt
