-- ===== src/Fs/Vfs/History.antt =====
-- Whole histories of file system calls, and what `create` shows to the calls after it
-- (crates/kernel/src/fs/vfs.rs).
use native.Mathlib.Decide.{ℕ_discrete}
use mathlib.Core.Path.{ap₂}
use kazuos.Prelude.{
  ℕ, ◌%◌, ◌^◌, ◌<◌, ◌≤◌, ◌≡◌, refl, ◌≢◌, ap, sym, ◌∙◌, subst, inl, inr, true, false, none, some,
  List, [], ◌∷◌, arith, ◌==◌, ltb, if◌then◌else◌, Bool-cases, Option-cases, length, add64,
}
use kazuos.Fs.Error.{Result, ok}
use kazuos.Fs.Path.{FilePath}
use kazuos.Fs.Vfs.Table.{Node, Nodes, file_at, find, node_at, generation_at, put_node, lookup_ram}
use kazuos.Fs.Vfs.Access.{live, truncate, write_at, write_node}
use kazuos.Fs.Vfs.Edit.{place, fresh_node, check_make, make, create, mkdir}
use kazuos.Fs.Vfs.Find.{find-some, find-none, Puts-put_node, place-Placed}
use kazuos.Fs.Vfs.Tree.{IsTree, IsTree-update}
use kazuos.Fs.Vfs.Keeps.{make-IsTree, unlink-IsTree, rmdir-IsTree, Unit-result}
use kazuos.Fs.Vfs.Slots.{
  Call, creates, makes_dir, unlinks, removes_dir, truncates, writes, after_write, step, run,
  live-node_at,
}

put_node-IsTree :
    (nodes : Nodes) (i g : ℕ) (n m : Node)
    → live nodes i g ≡ some n
    → m.path ≡ n.path
    → m.is_dir ≡ n.is_dir
    → IsTree nodes
    → IsTree (put_node nodes i (some m))
put_node-IsTree nodes i g n m e p d t =
    let there = live-node_at nodes i g e in
    IsTree-update nodes _ i n m (Puts-put_node nodes i (some m) there) there p d t

truncate-IsTree : (nodes : Nodes) (i g : ℕ) → IsTree nodes → IsTree (truncate nodes i g)
unfolding truncate
truncate-IsTree nodes i g t = elim (Option-cases (live nodes i g)) [
  | inl e ↦ rw (e, truncate) t
  | inr (n, e) ↦
      rw (e, truncate)
        (elim (Bool-cases n.is_dir) [
          | inl d ↦ rw d t
          | inr f ↦ rw f (put_node-IsTree nodes i g n _ e refl (sym f) t)
        ])
]

write_at-IsTree :
    (nodes : Nodes) (i g offset : ℕ) (src : List ℕ)
    → IsTree nodes
    → IsTree (after_write nodes (write_at nodes i g offset src))
unfolding write_at
write_at-IsTree nodes i g offset src t = elim (Option-cases (live nodes i g)) [
  | inl e ↦ rw (e, write_at) t
  | inr (n, e) ↦ rw (e, write_at) (written n e)
]
  where
    written :
        (n : Node)
        → live nodes i g ≡ some n
        → IsTree (after_write nodes (write_node nodes i (some n) offset src))
    written n e = elim (Bool-cases n.is_dir) [
      | inl d ↦ rw (d, write_node) t
      | inr f ↦ elim (Bool-cases (ltb (add64 offset (length src)) offset)) [
        | inl wrapped ↦ rw (f, wrapped, write_node) t
        | inr fits ↦ rw (f, fits, write_node) (put_node-IsTree nodes i g n _ e refl (sym f) t)
      ]
    ]

step-IsTree : (nodes : Nodes) (c : Call) → IsTree nodes → IsTree (step nodes c)
unfolding step create mkdir
step-IsTree nodes (creates path) t = make-IsTree nodes path false t
step-IsTree nodes (makes_dir path) t = make-IsTree nodes path true t
step-IsTree nodes (unlinks path) t = unlink-IsTree nodes path t
step-IsTree nodes (removes_dir path) t = rmdir-IsTree nodes path t
step-IsTree nodes (truncates i g) t = truncate-IsTree nodes i g t
step-IsTree nodes (writes i g offset src) t = write_at-IsTree nodes i g offset src t

-- No history of creating, making, unlinking, removing, truncating and writing breaks the tree:
-- the root stays a directory, all paths stay valid and distinct, and the parent of every node
-- stays a directory of the table.
pub run-IsTree : (nodes : Nodes) (cs : List Call) → IsTree nodes → IsTree (run nodes cs)
unfolding run
run-IsTree nodes [] t = t
run-IsTree nodes (c ∷ cs) t = run-IsTree (step nodes c) cs (step-IsTree nodes c t)

-- In a tree `find` returns the one slot with the path.
pub find_unique :
    (nodes : Nodes) (k : ℕ) (n : Node)
    → IsTree nodes
    → node_at nodes k ≡ some n
    → find nodes n.path ≡ some k
find_unique nodes k n t at = elim (Option-cases (find nodes n.path)) [
  | inl missing ↦ absurd (find-none nodes n.path missing k n at refl)
  | inr (j, found) ↦
      let (m, there, same) = find-some nodes n.path found in
      found ∙ ap some (t.distinct j k m n there at same)
]

-- What `create` leaves behind.
pub record Created (nodes : Nodes) (path : FilePath) (i g : ℕ) (nodes' : Nodes) : Type 0 where
  pub tree : IsTree nodes'
  pub found : lookup_ram nodes' path ≡ ok (file_at i g 0)
  pub others : (p : FilePath) → p ≢ path → find nodes' p ≡ find nodes p

module _ (nodes : Nodes) (path : FilePath) (t : IsTree nodes) (small : length nodes < 2 ^ 32) where
  placed_find :
      (nodes' : Nodes) (id : ℕ)
      → ((j : ℕ)
          → node_at nodes' j ≡ (if id == j then some (fresh_node path false) else node_at nodes j))
      → node_at nodes id ≡ none
      → IsTree nodes'
      → (p : FilePath) → p ≢ path
      → find nodes' p ≡ find nodes p
  placed_find nodes' id puts empty t' p ne = elim (Option-cases (find nodes p)) [
    | inr (k, found) ↦
        let (n, at, same) = find-some nodes p found in
        let at' : node_at nodes' k ≡ some n = ground (arith, puts k, empty, ap (node_at nodes)) in
        ap (find nodes') (sym same) ∙ find_unique nodes' k n t' at' ∙ sym found
    | inl missing ↦ elim (Option-cases (find nodes' p)) [
      | inl missing' ↦ missing' ∙ sym missing
      | inr (k, found) ↦
          let (n, at, same) = find-some nodes' p found in absurd (old_only missing k n at same)
    ]
  ]
    where
      old_only : find nodes p ≡ none → (k : ℕ) (n : Node) → node_at nodes' k ≡ some n → n.path ≢ p
      old_only missing k n at = elim (ℕ_discrete id k) [
        | yes here ↦
            let e : fresh_node path false ≡ n = ground (arith, puts k) in
            λ same. ne (sym same ∙ sym (ap (λ (x : Node). x.path) e))
        | no there ↦ find-none nodes p missing k n (ground (arith, puts k))
      ]

-- A file that `create` makes is found under its path with the handle that `create` answered, and
-- is empty; every other path is found where it was, and the table stays a tree.
pub create-Created :
    (nodes : Nodes) (path : FilePath) {i g : ℕ} {nodes' : Nodes}
    → IsTree nodes
    → length nodes < 2 ^ 32
    → create nodes path ≡ (ok (i, g), nodes')
    → Created nodes path i g nodes'
unfolding create make lookup_ram
create-Created nodes path {i} {g} {nodes'} t small e = elim (Unit-result (check_make nodes path)) [
  | inr (f, bad) ↦ let e' = rw (bad, make) at e in ground arith
  | inl good ↦
      let w = place-Placed nodes (fresh_node path false) in
      let (handle, table) = parts (rw (good, make) at e) in
      let t' : IsTree nodes' =
        subst IsTree (ap (λ (r : Result (ℕ × ℕ) × Nodes). r.1) e)
          (make-IsTree nodes path false t) in
      let puts =
        subst
          (λ m.
            (j : ℕ)
            → node_at m j ≡ (if w.id == j then some (fresh_node path false) else node_at nodes j))
          table w.puts in
      let at : node_at nodes' w.id ≡ some (fresh_node path false) = ground (arith, puts w.id) in
      let found = find_unique nodes' w.id (fresh_node path false) t' at in
      let (same_id, same_generation) = answered w.id w.near (sym handle ∙ w.handle) in
      record {
        tree = t';
        found =
            rw (found, lookup_ram, at)
              (ap₂ (λ a b. ok (file_at a b 0)) same_id
                (ap (λ m. generation_at m w.id) (sym table) ∙ same_generation));
        others = placed_find nodes path t small nodes' w.id puts w.empty t';
      }
]
  where
    placed : (ℕ × ℕ) × Nodes
    placed = place nodes (fresh_node path false)

    parts :
        ◌≡◌ {A = Result (ℕ × ℕ) × Nodes} (ok placed.0, placed.1) (ok (i, g), nodes')
        → (placed.0 ≡ (i, g)) × (placed.1 ≡ nodes')
    parts e = (ground arith, ground arith)

    answered :
        (id : ℕ)
        → id ≤ length nodes
        → ◌≡◌ {A = ℕ × ℕ} (i, g) (id % 2 ^ 32, generation_at placed.1 id)
        → (id % 2 ^ 32 ≡ i) × (generation_at placed.1 id ≡ g)
    answered id near e = (ground arith, ground arith)
