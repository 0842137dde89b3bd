-- ===== src/Fs/Vfs/Tests.antt =====
-- Runs of the RAM file system on a small tree, and its theorems at concrete inputs.
use kazuos.Prelude.{
  ℕ, zero, suc, ◌≡◌, refl, ◌≢◌, ◌↔◌, true, false, none, some, List, [], ◌∷◌, arith,
}
use kazuos.Fs.Error.{ok, err, not_empty}
use kazuos.Fs.Path.{FilePath, slash, root, bytes_eq, parent_of, validate_path, is_child}
use kazuos.Fs.Path.Laws.{is_child_iff-parent_of}
use kazuos.Fs.Vfs.Table.{Node, Nodes, file_at, find, node_at, lookup_ram}
use kazuos.Fs.Vfs.Access.{live, read_at, write_at}
use kazuos.Fs.Vfs.Edit.{create, unlink, rmdir}
use kazuos.Fs.Vfs.Tree.{HasDir, IsTree}
use kazuos.Fs.Vfs.Slots.{Call, creates, unlinks, removes_dir, run}
use kazuos.Fs.Vfs.Handles.{unlinked_handle_dead}
use kazuos.Fs.Vfs.History.{Created, run-IsTree, create-Created}
use kazuos.Fs.Vfs.Contents.{Written, write_at-Written, read_at-write_at}

abbrev a_dir : FilePath
a_dir = slash ∷ b'a' ∷ []

abbrev b_file : FilePath
b_file = slash ∷ b'a' ∷ slash ∷ b'b' ∷ []

abbrev c_file : FilePath
c_file = slash ∷ b'c' ∷ []

abbrev node_b : Node
node_b = record { path = b_file; is_dir = false; contents = 1 ∷ 2 ∷ 3 ∷ [] }

-- The root, the directory /a and the file /a/b.
abbrev small_tree : Nodes
small_tree =
    record { generation = 0; node = some (record { path = root; is_dir = true; contents = [] }) }
    ∷ record { generation = 0; node = some (record { path = a_dir; is_dir = true; contents = [] }) }
    ∷ record { generation = 4; node = some node_b }
    ∷ []

abbrev after_unlink : Nodes
after_unlink =
    record { generation = 0; node = some (record { path = root; is_dir = true; contents = [] }) }
    ∷ record { generation = 0; node = some (record { path = a_dir; is_dir = true; contents = [] }) }
    ∷ record { generation = 4; node = none }
    ∷ []

abbrev after_create : Nodes
after_create =
    record { generation = 0; node = some (record { path = root; is_dir = true; contents = [] }) }
    ∷ record { generation = 0; node = some (record { path = a_dir; is_dir = true; contents = [] }) }
    ∷ record { generation = 4; node = some node_b }
    ∷ record {
      generation = 0;
      node = some (record { path = c_file; is_dir = false; contents = [] });
    }
    ∷ []

small_tree-IsTree : IsTree small_tree
unfolding validate_path parent_of
small_tree-IsTree = record {
  rooted = (0, _, refl, refl, refl);
  valid = paths_valid;
  distinct = paths_distinct;
  closed = parents;
}
  where
    paths_valid : (i : ℕ) (n : Node) → node_at small_tree i ≡ some n → validate_path n.path ≡ ok tt
    paths_valid zero n e = ground arith
    paths_valid (suc zero) n e = ground arith
    paths_valid (suc (suc zero)) n e = ground arith
    paths_valid (suc (suc (suc i))) n e = ground arith

    paths_distinct :
        (i j : ℕ) (n m : Node)
        → node_at small_tree i ≡ some n
        → node_at small_tree j ≡ some m
        → n.path ≡ m.path
        → i ≡ j
    paths_distinct zero zero n m e f s = refl
    paths_distinct zero (suc zero) n m e f s = ground arith
    paths_distinct zero (suc (suc zero)) n m e f s = ground arith
    paths_distinct zero (suc (suc (suc j))) n m e f s = ground arith
    paths_distinct (suc zero) zero n m e f s = ground arith
    paths_distinct (suc zero) (suc zero) n m e f s = refl
    paths_distinct (suc zero) (suc (suc zero)) n m e f s = ground arith
    paths_distinct (suc zero) (suc (suc (suc j))) n m e f s = ground arith
    paths_distinct (suc (suc zero)) zero n m e f s = ground arith
    paths_distinct (suc (suc zero)) (suc zero) n m e f s = ground arith
    paths_distinct (suc (suc zero)) (suc (suc zero)) n m e f s = refl
    paths_distinct (suc (suc zero)) (suc (suc (suc j))) n m e f s = ground arith
    paths_distinct (suc (suc (suc i))) j n m e f s = ground arith

    parents :
        (i : ℕ) (n : Node)
        → node_at small_tree i ≡ some n
        → n.path ≢ root
        → HasDir small_tree (parent_of n.path)
    parents zero n e below = absurd (below (ground arith))
    parents (suc zero) n e below = (0, _, refl, ground arith, refl)
    parents (suc (suc zero)) n e below = (1, _, refl, ground arith, refl)
    parents (suc (suc (suc i))) n e below = ground arith

rmdir_full : rmdir small_tree a_dir ≡ (err not_empty, small_tree)
unfolding rmdir validate_path find bytes_eq is_child
rmdir_full = refl

unlink_b : unlink small_tree b_file ≡ (ok tt, after_unlink)
unfolding unlink validate_path find bytes_eq
unlink_b = refl

create_c : create small_tree c_file ≡ (ok (3, 0), after_create)
unfolding create validate_path find bytes_eq parent_of
create_c = refl

lookup_b : lookup_ram small_tree b_file ≡ ok (file_at 2 4 3)
unfolding lookup_ram bytes_eq
lookup_b = refl

live_b : live small_tree 2 4 ≡ some node_b
unfolding live
live_b = refl

dots_pass : validate_path (slash ∷ b'.' ∷ b'.' ∷ []) ≡ ok tt
unfolding validate_path
dots_pass = refl

abbrev calls : List Call
calls = creates c_file ∷ removes_dir a_dir ∷ unlinks b_file ∷ []

is_child_iff-parent_of_example : (is_child a_dir b_file ≡ true) ↔ (parent_of b_file ≡ a_dir)
unfolding validate_path
is_child_iff-parent_of_example =
    is_child_iff-parent_of a_dir b_file (λ e. cc) refl (λ e. ground arith)

run-IsTree_example : IsTree (run small_tree calls)
run-IsTree_example = run-IsTree small_tree calls small_tree-IsTree

unlinked_handle_dead_example :
    (read_at (run after_unlink calls) 2 4 0 10 ≡ [])
    × (write_at (run after_unlink calls) 2 4 0 (9 ∷ []) ≡ some (0, run after_unlink calls))
unlinked_handle_dead_example =
    unlinked_handle_dead small_tree b_file 2 4 3 after_unlink calls lookup_b unlink_b (omega arith)
      (omega arith) 0 10 (9 ∷ [])

create-Created_example : Created small_tree c_file 3 0 after_create
create-Created_example = create-Created small_tree c_file small_tree-IsTree (omega arith) create_c

write_at-Written_example :
    (nodes' : Nodes) × (write_at small_tree 2 4 5 (7 ∷ 8 ∷ []) ≡ some (2, nodes'))
    × Written small_tree 2 4 node_b 5 (7 ∷ 8 ∷ []) nodes'
write_at-Written_example =
    write_at-Written small_tree 2 4 5 (7 ∷ 8 ∷ []) node_b live_b refl (omega arith)

abbrev after_write : Nodes
after_write =
    record { generation = 0; node = some (record { path = root; is_dir = true; contents = [] }) }
    ∷ record { generation = 0; node = some (record { path = a_dir; is_dir = true; contents = [] }) }
    ∷ record { generation = 4; node = some (record node_b { contents = 1 ∷ 7 ∷ 8 ∷ [] }) }
    ∷ []

write_b : write_at small_tree 2 4 1 (7 ∷ 8 ∷ []) ≡ some (2, after_write)
unfolding write_at
write_b = refl

read_at-write_at_example : (◌≡◌ {A = ℕ} 2 2) × (read_at after_write 2 4 1 2 ≡ 7 ∷ 8 ∷ [])
read_at-write_at_example =
    read_at-write_at small_tree 2 4 1 (7 ∷ 8 ∷ []) node_b live_b refl (omega arith) write_b
