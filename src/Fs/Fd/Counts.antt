-- ===== src/Fs/Fd/Counts.antt =====
-- How often something stands in the descriptor tables of crates/kernel/src/fs/fd.rs.
use kazuos.Prelude.{
  ℕ, zero, suc, ◌+◌, ◌≤◌, ◌<◌, Option, none, some, List, [], ◌∷◌, ◌++◌, ◌≡◌, refl, ◌∙◌, ap, arith,
  length, get_elem?, get_elem?-set_self, length-set, length-pad, set, pad, replicate,
}
use kazuos.Fs.Fd.{FdEntry, empty, FdTable, join, table_at, table_or_empty, ensure_table}

module _ (f : FdEntry → ℕ) where
  unfoldable pub table_count : FdTable → ℕ
  table_count [] = 0
  table_count (e ∷ table) = f e + table_count table

  abbrev pub slot_count : Option FdTable → ℕ
  slot_count none = 0
  slot_count (some table) = table_count table

  unfoldable pub count : List (Option FdTable) → ℕ
  count [] = 0
  count (o ∷ tables) = slot_count o + count tables

  abbrev pub entry_count : Option FdEntry → ℕ
  entry_count none = 0
  entry_count (some e) = f e

  pub table_count-set :
      (table : FdTable) (fd : ℕ) (e : FdEntry)
      → fd < length table
      → table_count (set table fd e) + entry_count (get_elem? table fd) ≡ table_count table + f e
  unfolding table_count
  table_count-set [] fd e l = absurd (omega arith)
  table_count-set (old ∷ table) zero e l = omega arith
  table_count-set (old ∷ table) (suc fd) e l =
      omega (arith, table_count-set table fd e (omega arith))

  pub count-set :
      (tables : List (Option FdTable)) (pid : ℕ) (table : FdTable)
      → pid < length tables
      → count (set tables pid (some table)) + slot_count (table_at pid tables)
        ≡ count tables + table_count table
  unfolding count
  count-set [] pid table l = absurd (omega arith)
  count-set (none ∷ tables) zero table l = omega arith
  count-set (some old ∷ tables) zero table l = omega arith
  count-set (o ∷ tables) (suc pid) table l = omega (arith, count-set tables pid table (omega arith))

  pub slot-le-count :
      (tables : List (Option FdTable)) (pid : ℕ) → slot_count (table_at pid tables) ≤ count tables
  unfolding count
  slot-le-count [] pid = omega arith
  slot-le-count (none ∷ tables) zero = omega arith
  slot-le-count (some table ∷ tables) zero = omega arith
  slot-le-count (o ∷ tables) (suc pid) = omega (arith, slot-le-count tables pid)

  pub entry-le-table :
      (table : FdTable) (fd : ℕ) → entry_count (get_elem? table fd) ≤ table_count table
  unfolding table_count
  entry-le-table [] fd = omega arith
  entry-le-table (e ∷ table) zero = omega arith
  entry-le-table (e ∷ table) (suc fd) = omega (arith, entry-le-table table fd)

  count-replicate : (n : ℕ) → count (replicate n none) ≡ 0
  unfolding count
  count-replicate zero = refl
  count-replicate (suc n) = omega (arith, count-replicate n)

  pub count-pad :
      (tables : List (Option FdTable)) (n : ℕ) → count (pad tables n none) ≡ count tables
  unfolding count
  count-pad [] n = count-replicate n
  count-pad (o ∷ tables) zero = refl
  count-pad (o ∷ tables) (suc n) = omega (arith, count-pad tables n)

  module _ (f_empty : f empty ≡ 0) where
    table_count-replicate : (n : ℕ) → table_count (replicate n empty) ≡ 0
    unfolding table_count
    table_count-replicate zero = refl
    table_count-replicate (suc n) = omega (arith, f_empty, table_count-replicate n)

    pub table_count-pad :
        (table : FdTable) (n : ℕ) → table_count (pad table n empty) ≡ table_count table
    unfolding table_count
    table_count-pad [] n = table_count-replicate n
    table_count-pad (e ∷ table) zero = refl
    table_count-pad (e ∷ table) (suc n) = omega (arith, table_count-pad table n)

    pub table_count-append_empty :
        (table : FdTable) → table_count (table ++ empty ∷ []) ≡ table_count table
    unfolding table_count
    table_count-append_empty [] = omega (arith, f_empty)
    table_count-append_empty (e ∷ table) = omega (arith, table_count-append_empty table)

pub table_at-pad :
    (tables : List (Option FdTable)) (n pid : ℕ)
    → table_at pid (pad tables n none) ≡ table_at pid tables
table_at-pad [] n pid = nothing n pid
  where
    nothing : (n pid : ℕ) → table_at pid (replicate n none) ≡ none
    nothing zero pid = refl
    nothing (suc n) zero = refl
    nothing (suc n) (suc pid) = nothing n pid
table_at-pad (o ∷ tables) zero pid = refl
table_at-pad (o ∷ tables) (suc n) zero = refl
table_at-pad (o ∷ tables) (suc n) (suc pid) = table_at-pad tables n pid

pub table_at-set :
    (tables : List (Option FdTable)) (pid : ℕ) (table : FdTable)
    → pid < length tables
    → table_at pid (set tables pid (some table)) ≡ some table
table_at-set tables pid table l = ap join (get_elem?-set_self tables pid (some table) l)

-- `ensure_table` gives the process a table, and changes nothing else.
pub ensure_table-length :
    (pid : ℕ) (tables : List (Option FdTable)) → pid < length (ensure_table pid tables)
unfolding ensure_table
ensure_table-length pid tables =
    let grown = pad tables (pid + 1) none in
    omega (
      arith,
      length-set grown pid (some (table_or_empty (table_at pid grown))),
      length-pad none tables (pid + 1),
    )

pub table_at-ensure_table :
    (pid : ℕ) (tables : List (Option FdTable))
    → table_at pid (ensure_table pid tables) ≡ some (table_or_empty (table_at pid tables))
unfolding ensure_table
table_at-ensure_table pid tables =
    let grown = pad tables (pid + 1) none in
    table_at-set grown pid (table_or_empty (table_at pid grown))
      (omega (arith, length-pad none tables (pid + 1)))
    ∙ ap (λ o. some (table_or_empty o)) (table_at-pad tables (pid + 1) pid)

slot_count-or_empty :
    (f : FdEntry → ℕ) (o : Option FdTable) → table_count f (table_or_empty o) ≡ slot_count f o
unfolding table_count
slot_count-or_empty f none = refl
slot_count-or_empty f (some table) = refl

pub count-ensure_table :
    (f : FdEntry → ℕ) (pid : ℕ) (tables : List (Option FdTable))
    → count f (ensure_table pid tables) ≡ count f tables
unfolding ensure_table
count-ensure_table f pid tables =
    let grown = pad tables (pid + 1) none in
    omega (
      arith,
      count-set f grown pid (table_or_empty (table_at pid grown))
          (omega (arith, length-pad none tables (pid + 1))),
      slot_count-or_empty f (table_at pid grown),
      count-pad f tables (pid + 1),
    )

pub table_at-lt-length :
    (tables : List (Option FdTable)) (pid : ℕ) (table : FdTable)
    → table_at pid tables ≡ some table
    → pid < length tables
table_at-lt-length [] pid table e = cc
table_at-lt-length (o ∷ tables) zero table e = omega arith
table_at-lt-length (o ∷ tables) (suc pid) table e =
    omega (arith, table_at-lt-length tables pid table e)
