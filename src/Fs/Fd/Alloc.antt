-- ===== src/Fs/Fd/Alloc.antt =====
-- Descriptors that crates/kernel/src/fs/fd.rs hands out, counted by the pipes they refer to.
use kazuos.Prelude.{
  ℕ, zero, suc, ◌+◌, ◌^◌, ◌≤◌, ◌<◌, Option, none, some, List, [], ◌∷◌, ◌++◌, ltb, leb, ◌≡◌, refl,
  ◌∙◌, ap, arith, length, get_elem?, set, pad, replicate, Bool-cases, inl, inr, length-pad,
  length-append, get_elem?-lt-length,
}
use kazuos.Fs.Fd.{
  FdEntry, empty, FdTable, Fds, max_fd, table_at, table_or_empty, ensure_table, install,
  alloc_fd_at, one_later, first_empty, alloc_in, alloc_fd, entry_of, get_fd, or_entry,
}
use kazuos.Fs.Fd.Counts.{
  table_count, slot_count, count, entry_count, table_count-set, count-set, table_count-pad,
  table_count-append_empty, table_at-ensure_table, ensure_table-length, count-ensure_table,
}
use kazuos.Fs.Fd.Ends.{
  writes_to, reads_from, IsBalanced, IsOpen, same-IsBalanced, writes_to-le_one, reads_from-le_one,
  pipe_clone-IsBalanced,
}

-- The descriptors for the ends of a pipe.
abbrev pub writers : Fds → ℕ → ℕ
writers s id = count (writes_to id) s.tables

abbrev pub readers : Fds → ℕ → ℕ
readers s id = count (reads_from id) s.tables

-- Every pipe counts the descriptors for its ends, and no pipe has more than `n` for one end.
abbrev pub IsCounted : ℕ → Fds → Type 0
IsCounted n s =
    IsBalanced (writers s) (readers s) s.pipes
    × ((id : ℕ) → (writers s id ≤ n) × (readers s id ≤ n))

-- A descriptor that is not there reads as an empty one.
abbrev pub slot : ℕ → ℕ → Fds → FdEntry
slot pid fd s = or_entry (get_fd pid fd s) empty

module _ (f : FdEntry → ℕ) where
  install_count :
      (pid fd : ℕ) (e : FdEntry) (table : FdTable) (tables : List (Option FdTable))
      → pid < length tables
      → fd < length table
      → table_count f table ≡ slot_count f (table_at pid tables)
      → entry_count f (get_elem? table fd) ≡ 0
      → count f (set tables pid (some (set table fd e))) ≡ count f tables + f e
  install_count pid fd e table tables lp lf same vacant = omega (
    arith,
    count-set f tables pid (set table fd e) lp,
    table_count-set f table fd e lf,
    same,
    vacant,
  )

  pub table_count-or_empty :
      (o : Option FdTable) → table_count f (table_or_empty o) ≡ slot_count f o
  unfolding table_count
  table_count-or_empty none = refl
  table_count-or_empty (some table) = refl

-- A descriptor for an empty slot.
install-IsCounted :
    (n pid fd : ℕ) (e : FdEntry) (table : FdTable) (s : Fds)
    → IsCounted n s
    → n + 1 < 2 ^ 32
    → IsOpen s.pipes e
    → pid < length s.tables
    → fd < length table
    → ((f : FdEntry → ℕ)
        → f empty ≡ 0
        → (table_count f table ≡ slot_count f (table_at pid s.tables))
          × (entry_count f (get_elem? table fd) ≡ 0))
    → IsCounted (n + 1) (install pid fd e table s)
install-IsCounted n pid fd e table s h room o lp lf same =
    let c : (id : ℕ)
        → (count (writes_to id) (set s.tables pid (some (set table fd e)))
            ≡ writers s id + writes_to id e)
          × (count (reads_from id) (set s.tables pid (some (set table fd e)))
              ≡ readers s id + reads_from id e) =
      λ id.
        let a = same (writes_to id) refl in
        let b = same (reads_from id) refl in
        (
          install_count (writes_to id) pid fd e table s.tables lp lf (a.0) (a.1),
          install_count (reads_from id) pid fd e table s.tables lp lf (b.0) (b.1),
        ) in
    (
      pipe_clone-IsBalanced (writers s) (readers s) _ _ s.pipes (h.0) e o
          (λ id. (omega (arith, (h.1 id).0, room), omega (arith, (h.1 id).1, room))) c,
      λ id. (
        omega (arith, (c id).0, (h.1 id).0, writes_to-le_one id e),
        omega (arith, (c id).1, (h.1 id).1, reads_from-le_one id e),
      ),
    )

-- Tables that count the same.
retable-IsCounted :
    (n : ℕ) (s : Fds) (tables : List (Option FdTable))
    → IsCounted n s
    → ((f : FdEntry → ℕ) → f empty ≡ 0 → count f tables ≡ count f s.tables)
    → IsCounted n (record s { tables = tables })
retable-IsCounted n s tables h same = (
  same-IsBalanced (writers s) (readers s) _ _ s.pipes (h.0)
      (λ id. (same (writes_to id) refl, same (reads_from id) refl)),
  λ id. (
    omega (arith, (h.1 id).0, same (writes_to id) refl),
    omega (arith, (h.1 id).1, same (reads_from id) refl),
  ),
)

pub IsCounted-mono : (n m : ℕ) (s : Fds) → n ≤ m → IsCounted n s → IsCounted m s
IsCounted-mono n m s l h = (h.0, λ id. (omega (arith, (h.1 id).0, l), omega (arith, (h.1 id).1, l)))

vacant_entry :
    (f : FdEntry → ℕ) (o : Option FdEntry)
    → f empty ≡ 0
    → or_entry o empty ≡ empty
    → entry_count f o ≡ 0
vacant_entry f none z e = refl
vacant_entry f (some entry) z e = rw e z

or_entry-replicate : (n i : ℕ) → or_entry (get_elem? (replicate n empty) i) empty ≡ empty
or_entry-replicate zero i = refl
or_entry-replicate (suc n) zero = refl
or_entry-replicate (suc n) (suc i) = or_entry-replicate n i

-- New room reads as before.
pub or_entry-pad :
    (table : FdTable) (n i : ℕ)
    → or_entry (get_elem? (pad table n empty) i) empty ≡ or_entry (get_elem? table i) empty
or_entry-pad [] n i = or_entry-replicate n i
or_entry-pad (e ∷ table) zero i = refl
or_entry-pad (e ∷ table) (suc n) zero = refl
or_entry-pad (e ∷ table) (suc n) (suc i) = or_entry-pad table n i

pub or_entry-table_or_empty :
    (o : Option FdTable) (i : ℕ)
    → or_entry (get_elem? (table_or_empty o) i) empty ≡ or_entry (entry_of i o) empty
or_entry-table_or_empty none i = refl
or_entry-table_or_empty (some table) i = refl

-- The table of a process, and the table that `ensure_table` gives it.
abbrev pub table_of : ℕ → Fds → FdTable
table_of pid s = table_or_empty (table_at pid s.tables)

abbrev pub ensured_table : ℕ → Fds → FdTable
ensured_table pid s = table_or_empty (table_at pid (ensure_table pid s.tables))

pub ensured_table-eq : (pid : ℕ) (s : Fds) → ensured_table pid s ≡ table_of pid s
ensured_table-eq pid s = ap table_or_empty (table_at-ensure_table pid s.tables)

one_later-get :
    (e : FdEntry) (table : FdTable) (o : Option ℕ) (i : ℕ)
    → ((j : ℕ) → o ≡ some j → get_elem? table j ≡ some empty)
    → one_later o ≡ some i
    → get_elem? (e ∷ table) i ≡ some empty
one_later-get e table none i later found = cc
one_later-get e table (some j) zero later found = cc
one_later-get e table (some j) (suc i) later found = later i cc

-- The slot found is empty, and in range.
pub first_empty-get :
    (table : FdTable) (i : ℕ) → first_empty table ≡ some i → get_elem? table i ≡ some empty
unfolding first_empty
first_empty-get [] i found = cc
first_empty-get (empty ∷ table) zero found = refl
first_empty-get (empty ∷ table) (suc i) found = cc
first_empty-get (e ∷ table) i found =
    one_later-get e table (first_empty table) i (first_empty-get table) found

pub get_elem?-append_one {ℓ} :
    {A : Type ℓ} (xs : List A) (x : A) → get_elem? (xs ++ x ∷ []) (length xs) ≡ some x
get_elem?-append_one [] x = refl
get_elem?-append_one (y ∷ xs) x = get_elem?-append_one xs x

module _ (n pid : ℕ) (e : FdEntry) (s : Fds) (h : IsCounted n s) (room : n + 1 < 2 ^ 32)
    (o : IsOpen s.pipes e) where
  pub alloc_fd_at-IsCounted :
      (fd : ℕ) → slot pid fd s ≡ empty → IsCounted (n + 1) (alloc_fd_at pid fd e s).1
  unfolding alloc_fd_at get_fd
  alloc_fd_at-IsCounted fd vacant = elim (Bool-cases (leb max_fd fd)) [
    | inl b ↦ rw b (IsCounted-mono n (n + 1) s (omega arith) h)
    | inr b ↦ rw b (
        install-IsCounted n pid fd e (pad (ensured_table pid s) (fd + 1) empty)
          (record s { tables = ensure_table pid s.tables })
          (retable-IsCounted n s _ h (λ f z. count-ensure_table f pid s.tables)) room o
          (ensure_table-length pid s.tables)
          (omega (arith, length-pad empty (ensured_table pid s) (fd + 1)))
          (λ f z. (
            table_count-pad f z (ensured_table pid s) (fd + 1)
                ∙ table_count-or_empty f (table_at pid (ensure_table pid s.tables)),
            vacant_entry f _ z (
                or_entry-pad (ensured_table pid s) (fd + 1) fd
                ∙ ap (λ t. or_entry (get_elem? t fd) empty) (ensured_table-eq pid s)
                ∙ or_entry-table_or_empty (table_at pid s.tables) fd
                ∙ vacant),
          )))
  ]

  alloc_in-IsCounted :
      (i : Option ℕ)
      → first_empty (ensured_table pid s) ≡ i
      → IsCounted
          (n + 1)
          (alloc_in pid e
            (ensured_table pid s)
            (record s { tables = ensure_table pid s.tables })
            i).1
  alloc_in-IsCounted (some i) found =
      let at = first_empty-get (ensured_table pid s) i found in
      install-IsCounted n pid i e (ensured_table pid s)
        (record s { tables = ensure_table pid s.tables })
        (retable-IsCounted n s _ h (λ f z. count-ensure_table f pid s.tables)) room o
        (ensure_table-length pid s.tables) (get_elem?-lt-length (ensured_table pid s) i at)
        (λ f z. (table_count-or_empty f (table_at pid (ensure_table pid s.tables)), rw at z))
  alloc_in-IsCounted none found = elim (Bool-cases (ltb (length (ensured_table pid s)) max_fd)) [
    | inl b ↦ rw b (
        install-IsCounted n pid (length (ensured_table pid s)) e (ensured_table pid s ++ empty ∷ [])
          (record s { tables = ensure_table pid s.tables })
          (retable-IsCounted n s _ h (λ f z. count-ensure_table f pid s.tables)) room o
          (ensure_table-length pid s.tables)
          (omega (arith, length-append (ensured_table pid s) (empty ∷ [])))
          (λ f z. (
            table_count-append_empty f z (ensured_table pid s)
                ∙ table_count-or_empty f (table_at pid (ensure_table pid s.tables)),
            rw (get_elem?-append_one (ensured_table pid s) empty) z,
          )))
    | inr b ↦ rw b (
        IsCounted-mono n (n + 1) (record s { tables = ensure_table pid s.tables }) (omega arith)
          (retable-IsCounted n s _ h (λ f z. count-ensure_table f pid s.tables)))
  ]

  pub alloc_fd-IsCounted : IsCounted (n + 1) (alloc_fd pid e s).1
  unfolding alloc_fd
  alloc_fd-IsCounted = alloc_in-IsCounted (first_empty (ensured_table pid s)) refl
