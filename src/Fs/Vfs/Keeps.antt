-- ===== src/Fs/Vfs/Keeps.antt =====
-- `create`, `mkdir`, `unlink` and `rmdir` of crates/kernel/src/fs/vfs.rs keep the tree.
use kazuos.Prelude.{
  ℕ, zero, suc, ◌≡◌, refl, ◌≢◌, ap, sym, ◌∙◌, subst, ◌⊎◌, inl, inr, Bool, true, false, not, Option,
  none, some, [], ◌∷◌, arith, Bool-cases, Option-cases,
}
use kazuos.Fs.Error.{
  FsError, Result, ok, err, refuse_if, ◌>>=◌, not_a_file, not_a_directory, not_empty,
}
use kazuos.Fs.Path.{FilePath, root, bytes_eq, parent_of, validate_path, is_child}
use kazuos.Fs.Path.Laws.{bytes_eq→ne, is_child-parent_of, validate_path-IsAbsolute}
use kazuos.Fs.Vfs.Table.{Node, Nodes, find, node_at, unwrap_node, is_child_node}
use kazuos.Fs.Vfs.Edit.{
  is_some, fresh_node, check_make, check_parent, make, check_unlink, unlink, has_child, check_rmdir,
  rmdir,
}
use kazuos.Fs.Vfs.Find.{find-some, find-none, Puts-put_node, place-Placed}
use kazuos.Fs.Vfs.Tree.{HasDir, IsTree, IsTree-add, IsTree-remove}

-- The facts that `check_make` establishes.
pub record Makeable (nodes : Nodes) (path : FilePath) : Type 0 where
  pub valid : validate_path path ≡ ok tt
  pub not_root : path ≢ root
  pub fresh : find nodes path ≡ none
  pub parent : HasDir nodes (parent_of path)

check_parent-ok :
    (nodes : Nodes) (p : FilePath) (o : Option ℕ)
    → find nodes p ≡ o
    → check_parent nodes o ≡ ok tt
    → HasDir nodes p
check_parent-ok nodes p none e h = cc
check_parent-ok nodes p (some i) e h =
    let (n, at, same) = find-some nodes p e in (i, n, at, same, ground (arith, at))

is_some-false {ℓ} : {A : Type ℓ} (o : Option A) → is_some o ≡ false → o ≡ none
is_some-false none e = refl
is_some-false (some a) e = cc

pub Unit-result : (r : Result (Unit {0})) → (r ≡ ok tt) ⊎ ((e : FsError) × (r ≡ err e))
Unit-result (ok tt) = inl refl
Unit-result (err e) = inr (e, refl)

pub check_make-Makeable :
    (nodes : Nodes) (path : FilePath) → check_make nodes path ≡ ok tt → Makeable nodes path
unfolding check_make
check_make-Makeable nodes path e = elim (Unit-result (validate_path path)) [
  | inr (f, bad) ↦ ground arith
  | inl v ↦ elim (Bool-cases (bytes_eq path root)) [
    | inl top ↦ ground arith
    | inr below ↦ elim (Bool-cases (is_some (find nodes path))) [
      | inl there ↦ ground arith
      | inr free ↦ record {
        valid = v;
        not_root = bytes_eq→ne path root below;
        fresh = is_some-false _ free;
        parent =
            check_parent-ok nodes (parent_of path) (find nodes (parent_of path)) refl
              (rw (v, below, free, check_make) at e);
      }
    ]
  ]
]

-- `create` and `mkdir` keep the tree, whether or not they succeed.
pub make-IsTree :
    (nodes : Nodes) (path : FilePath) (is_dir : Bool)
    → IsTree nodes
    → IsTree (make nodes path is_dir).1
unfolding make
make-IsTree nodes path is_dir t = elim (Unit-result (check_make nodes path)) [
  | inr (e, bad) ↦ rw (bad, make) t
  | inl good ↦
      let c = check_make-Makeable nodes path good in
      let w = place-Placed nodes (fresh_node path is_dir) in
      rw (good, make)
        (IsTree-add nodes _ w.id (fresh_node path is_dir) w.puts w.empty t c.valid
          (find-none nodes path c.fresh) c.parent)
]

-- The node that a checked `unlink` or `rmdir` takes away.
pub record Removable (nodes : Nodes) (path : FilePath) (dir : Bool) (id : ℕ) : Type 0 where
  pub node : Node
  pub found : find nodes path ≡ some id
  pub there : node_at nodes id ≡ some node
  pub same_path : node.path ≡ path
  pub kind : node.is_dir ≡ dir

found_node :
    (nodes : Nodes) (path : FilePath) (dir : Bool) (id : ℕ)
    → find nodes path ≡ some id
    → (unwrap_node (node_at nodes id)).is_dir ≡ dir
    → Removable nodes path dir id
found_node nodes path dir id e d =
    let (n, at, same) = find-some nodes path e in
    record { node = n; found = e; there = at; same_path = same; kind = ground (arith, at) }

pub check_unlink-Removable :
    (nodes : Nodes) (path : FilePath) {id : ℕ}
    → check_unlink nodes path ≡ ok id
    → Removable nodes path false id
unfolding check_unlink
check_unlink-Removable nodes path {id} e = elim (Unit-result (validate_path path)) [
  | inr (f, bad) ↦ ground arith
  | inl v ↦ elim (Option-cases (find nodes path)) [
    | inl missing ↦ ground arith
    | inr (k, found) ↦
        let e' = rw (v, found, check_unlink) at e in
        subst (Removable nodes path false) (unlinked k e').0
          (found_node nodes path false k found (unlinked k e').1)
  ]
]
  where
    unlinked :
        (k : ℕ)
        → (refuse_if (unwrap_node (node_at nodes k)).is_dir not_a_file >>= λ _. ok k) ≡ ok id
        → (k ≡ id) × ((unwrap_node (node_at nodes k)).is_dir ≡ false)
    unlinked k e = (ground arith, ground arith)

-- The facts that `check_rmdir` establishes.
pub record Emptied (nodes : Nodes) (path : FilePath) (id : ℕ) : Type 0 where
  pub target : Removable nodes path true id
  pub not_root : path ≢ root
  pub childless : has_child path nodes ≡ false

pub check_rmdir-Emptied :
    (nodes : Nodes) (path : FilePath) {id : ℕ}
    → check_rmdir nodes path ≡ ok id
    → Emptied nodes path id
unfolding check_rmdir
check_rmdir-Emptied nodes path {id} e = elim (Unit-result (validate_path path)) [
  | inr (f, bad) ↦ ground arith
  | inl v ↦ elim (Bool-cases (bytes_eq path root)) [
    | inl top ↦ ground arith
    | inr below ↦ elim (Option-cases (find nodes path)) [
      | inl missing ↦ ground arith
      | inr (k, found) ↦
          let (same, d, c) = emptied k (rw (v, below, found, check_rmdir) at e) in
          record {
            target = subst (Removable nodes path true) same (found_node nodes path true k found d);
            not_root = bytes_eq→ne path root below;
            childless = c;
          }
    ]
  ]
]
  where
    emptied :
        (k : ℕ)
        → (refuse_if (not (unwrap_node (node_at nodes k)).is_dir) not_a_directory >>= λ _.
            refuse_if (has_child path nodes) not_empty >>= λ _. ok k)
          ≡ ok id
        → (k ≡ id)
          × ((unwrap_node (node_at nodes k)).is_dir ≡ true)
          × (has_child path nodes ≡ false)
    emptied k e = (ground arith, ground arith, ground arith)

has_child-false :
    (path : FilePath) (nodes : Nodes)
    → has_child path nodes ≡ false
    → (j : ℕ) (n : Node) → node_at nodes j ≡ some n
    → is_child path n.path ≡ false
unfolding has_child
has_child-false path [] h j n at = cc
has_child-false path (s ∷ nodes) h zero n at = ground (arith, ap (is_child_node path) at)
has_child-false path (s ∷ nodes) h (suc j) n at = has_child-false path nodes (ground arith) j n at

pub Result-cases : (r : Result ℕ) → ((e : FsError) × (r ≡ err e)) ⊎ ((i : ℕ) × (r ≡ ok i))
Result-cases (err e) = inl (e, refl)
Result-cases (ok i) = inr (i, refl)

-- `unlink` keeps the tree: what it takes away is a file, and no node has a file as its parent.
pub unlink-IsTree : (nodes : Nodes) (path : FilePath) → IsTree nodes → IsTree (unlink nodes path).1
unfolding unlink
unlink-IsTree nodes path t = elim (Result-cases (check_unlink nodes path)) [
  | inl (e, bad) ↦ rw (bad, unlink) t
  | inr (id, good) ↦
      let r = check_unlink-Removable nodes path good in
      rw (good, unlink)
        (IsTree-remove nodes _ id r.node (Puts-put_node nodes id none r.there) r.there t
          (λ d. ground (arith, r.kind)) (λ d. ground (arith, r.kind)))
]

-- `rmdir` keeps the tree: it takes away no directory that still is the parent of a node.
pub rmdir-IsTree : (nodes : Nodes) (path : FilePath) → IsTree nodes → IsTree (rmdir nodes path).1
unfolding rmdir
rmdir-IsTree nodes path t = elim (Result-cases (check_rmdir nodes path)) [
  | inl (e, bad) ↦ rw (bad, rmdir) t
  | inr (id, good) ↦
      let c = check_rmdir-Emptied nodes path good in
      let r = c.target in
      rw (good, rmdir)
        (IsTree-remove nodes _ id r.node (Puts-put_node nodes id none r.there) r.there t
          (λ d e. c.not_root (sym r.same_path ∙ e))
          (λ d j n at below e. ground (
            arith,
            has_child-false path nodes c.childless j n at,
            is_child-parent_of n.path (validate_path-IsAbsolute (t.valid j n at)) below,
            ap (λ p. is_child p n.path) (sym r.same_path ∙ e),
          )))
]
