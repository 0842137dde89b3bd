-- ===== src/Fs/Vfs/Edit.antt =====
-- `create`, `mkdir`, `unlink` and `rmdir` of crates/kernel/src/fs/vfs.rs.
use kazuos.Prelude.{
  ℕ, ◌+◌, ◌%◌, ◌^◌, Bool, true, false, not, ◌||◌, Option, none, some, [], ◌∷◌, ◌++◌, length, set,
}
use kazuos.Fs.Error.{
  Result, ok, err, ◌>>=◌, ◌>>◌, ok_or, refuse_if, not_found, not_a_file, not_a_directory,
  already_exists, not_empty,
}
use kazuos.Fs.Path.{FilePath, root, bytes_eq, parent_of, validate_path}
use kazuos.Fs.Vfs.Table.{
  Node, Nodes, shift, find, node_at, unwrap_node, generation_at, is_child_node, put_node,
}

-- The first tombstone.
unfoldable pub find_free : Nodes → Option ℕ
find_free [] = none
find_free (s ∷ nodes) = elim s.node [ none ↦ some 0 | some n ↦ shift (find_free nodes) ]

abbrev pub fresh_node : FilePath → Bool → Node
fresh_node path is_dir = record { path = path; is_dir = is_dir; contents = [] }

-- Reuse of a tombstone with the next generation, else a new slot at the end.
unfoldable pub place : Nodes → Node → (ℕ × ℕ) × Nodes
unfolding find_free
place nodes n = elim (find_free nodes) [
  | some i ↦
      let generation = (generation_at nodes i + 1) % 2 ^ 32 in
      ((i % 2 ^ 32, generation), set nodes i (record { generation = generation; node = some n }))
  | none ↦ ((length nodes % 2 ^ 32, 0), nodes ++ record { generation = 0; node = some n } ∷ [])
]

-- `Some(pid) if … is_dir => {}`, and the two errors.
abbrev pub check_parent : Nodes → Option ℕ → Result (Unit {0})
check_parent nodes none = err not_found
check_parent nodes (some pid) =
    refuse_if (not (unwrap_node (node_at nodes pid)).is_dir) not_a_directory

abbrev pub is_some {ℓ} : {A : Type ℓ} → Option A → Bool
is_some none = false
is_some (some a) = true

unfoldable pub check_make : Nodes → FilePath → Result (Unit {0})
check_make nodes path = do
  validate_path path
  refuse_if (bytes_eq path root) already_exists
  refuse_if (is_some (find nodes path)) already_exists
  check_parent nodes (find nodes (parent_of path))

-- The handle `(node, generation)` and the table; a call that fails leaves the table alone.
unfoldable pub make : Nodes → FilePath → Bool → Result (ℕ × ℕ) × Nodes
unfolding check_make place
make nodes path is_dir = elim (check_make nodes path) [
  | err e ↦ (err e, nodes)
  | ok _ ↦ let (handle, nodes') = place nodes (fresh_node path is_dir) in (ok handle, nodes')
]

unfoldable pub create : Nodes → FilePath → Result (ℕ × ℕ) × Nodes
unfolding make
create nodes path = make nodes path false

unfoldable pub mkdir : Nodes → FilePath → Result (Unit {0}) × Nodes
unfolding make
mkdir nodes path = let (r, nodes') = make nodes path true in ((r >>= λ _. ok tt), nodes')

unfoldable pub check_unlink : Nodes → FilePath → Result ℕ
check_unlink nodes path = do
  validate_path path
  id ← ok_or (find nodes path) not_found
  refuse_if (unwrap_node (node_at nodes id)).is_dir not_a_file
  ok id

-- `nodes[id].node = None`, after the checks.
abbrev pub remove_checked : Nodes → Result ℕ → Result (Unit {0}) × Nodes
remove_checked nodes (err e) = (err e, nodes)
remove_checked nodes (ok id) = (ok tt, put_node nodes id none)

unfoldable pub unlink : Nodes → FilePath → Result (Unit {0}) × Nodes
unfolding check_unlink
unlink nodes path = remove_checked nodes (check_unlink nodes path)

unfoldable pub has_child : FilePath → Nodes → Bool
has_child path [] = false
has_child path (s ∷ nodes) = is_child_node path s.node || has_child path nodes

unfoldable pub check_rmdir : Nodes → FilePath → Result ℕ
unfolding has_child
check_rmdir nodes path = do
  validate_path path
  refuse_if (bytes_eq path root) not_empty
  id ← ok_or (find nodes path) not_found
  refuse_if (not (unwrap_node (node_at nodes id)).is_dir) not_a_directory
  refuse_if (has_child path nodes) not_empty
  ok id

unfoldable pub rmdir : Nodes → FilePath → Result (Unit {0}) × Nodes
unfolding check_rmdir
rmdir nodes path = remove_checked nodes (check_rmdir nodes path)
