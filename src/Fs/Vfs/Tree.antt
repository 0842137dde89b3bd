-- ===== src/Fs/Vfs/Tree.antt =====
-- The slot table of crates/kernel/src/fs/vfs.rs as a tree of paths: what `make`, `unlink` and
-- `rmdir` keep.
use kazuos.Prelude.{ℕ, ◌≡◌, refl, ◌≢◌, ap, sym, ◌∙◌, subst, ◌⊎◌, inl, inr, true, none, some, arith}
use native.Mathlib.Decide.{ℕ_discrete}
use kazuos.Fs.Error.{ok}
use kazuos.Fs.Path.{FilePath, root, parent_of, validate_path}
use kazuos.Fs.Vfs.Table.{Node, Nodes, node_at}
use kazuos.Fs.Vfs.Find.{Puts}

-- A directory with the path `p` is in the table.
abbrev pub HasDir : Nodes → FilePath → Type 0
HasDir nodes p =
    (i : ℕ) × (n : Node) × (node_at nodes i ≡ some n) × (n.path ≡ p) × (n.is_dir ≡ true)

-- The root is a directory; paths are valid and distinct; the parent of every other node is a
-- directory of the table.
pub record IsTree (nodes : Nodes) : Type 0 where
  pub rooted : HasDir nodes root
  pub valid : (i : ℕ) (n : Node) → node_at nodes i ≡ some n → validate_path n.path ≡ ok tt
  pub distinct :
      (i j : ℕ) (n m : Node)
      → node_at nodes i ≡ some n
      → node_at nodes j ≡ some m
      → n.path ≡ m.path
      → i ≡ j
  pub closed :
      (i : ℕ) (n : Node)
      → node_at nodes i ≡ some n
      → n.path ≢ root
      → HasDir nodes (parent_of n.path)

some_eq : {n m : Node} → some n ≡ some m → n ≡ m
some_eq e = ground arith

module _ (nodes nodes' : Nodes) (i : ℕ) (m : Node) (puts : Puts nodes i (some m) nodes')
    (empty : node_at nodes i ≡ none) where
  HasDir-add : {p : FilePath} → HasDir nodes p → HasDir nodes' p
  HasDir-add (k, n, at, same, d) =
      (k, n, ground (arith, puts k, empty, ap (node_at nodes)), same, d)

  -- A node of the new table is the new one or was there before.
  added :
      (j : ℕ) (n : Node)
      → node_at nodes' j ≡ some n
      → ((i ≡ j) × (m ≡ n)) ⊎ (node_at nodes j ≡ some n)
  added j n at = elim (ℕ_discrete i j) [
    | yes here ↦ inl (here, ground (arith, puts j))
    | no there ↦ inr (ground (arith, puts j))
  ]

  pub IsTree-add :
      IsTree nodes
      → validate_path m.path ≡ ok tt
      → ((j : ℕ) (n : Node) → node_at nodes j ≡ some n → n.path ≢ m.path)
      → HasDir nodes (parent_of m.path)
      → IsTree nodes'
  IsTree-add t v fresh parent = record {
    rooted = HasDir-add t.rooted;
    valid = λ j n at. elim (added j n at) [
      | inl (here, same) ↦ subst (λ k. validate_path k.path ≡ ok tt) same v
      | inr old ↦ t.valid j n old
    ];
    distinct = λ j k n l at at' same. elim (added j n at) [
      | inl (here, e) ↦ elim (added k l at') [
        | inl (here', e') ↦ sym here ∙ here'
        | inr old' ↦ absurd (fresh k l old' (sym same ∙ sym (ap (λ (x : Node). x.path) e)))
      ]
      | inr old ↦ elim (added k l at') [
        | inl (here', e') ↦ absurd (fresh j n old (same ∙ sym (ap (λ (x : Node). x.path) e')))
        | inr old' ↦ t.distinct j k n l old old' same
      ]
    ];
    closed = λ j n at below. elim (added j n at) [
      | inl (here, same) ↦
          HasDir-add (subst (λ (x : Node). HasDir nodes (parent_of x.path)) same parent)
      | inr old ↦ HasDir-add (t.closed j n old below)
    ];
  }

module _ (nodes nodes' : Nodes) (i : ℕ) (m : Node) (puts : Puts nodes i none nodes')
    (there : node_at nodes i ≡ some m) where
  kept : (j : ℕ) (n : Node) → node_at nodes' j ≡ some n → node_at nodes j ≡ some n
  kept j n at = ground (arith, puts j)

  HasDir-remove :
      {p : FilePath} → (m.path ≡ p → m.is_dir ≡ true → ⊥) → HasDir nodes p → HasDir nodes' p
  HasDir-remove spare (k, n, at, same, d) = elim (ℕ_discrete i k) [
    | yes here ↦
        let e : m ≡ n = some_eq (sym there ∙ ap (node_at nodes) here ∙ at) in
        absurd (spare (ap (λ (x : Node). x.path) e ∙ same) (ap (λ (x : Node). x.is_dir) e ∙ d))
    | no other ↦ (k, n, ground (arith, puts k), same, d)
  ]

  pub IsTree-remove :
      IsTree nodes
      → (m.is_dir ≡ true → m.path ≢ root)
      → (m.is_dir ≡ true
          → (j : ℕ) (n : Node) → node_at nodes j ≡ some n
          → n.path ≢ root
          → m.path ≢ parent_of n.path)
      → IsTree nodes'
  IsTree-remove t not_root childless = record {
    rooted = HasDir-remove (λ e d. not_root d e) t.rooted;
    valid = λ j n at. t.valid j n (kept j n at);
    distinct = λ j k n l at at'. t.distinct j k n l (kept j n at) (kept k l at');
    closed = λ j n at below.
        let old = kept j n at in
        HasDir-remove (λ e d. childless d j n old below e) (t.closed j n old below);
  }

-- A write to a file changes neither its path nor its kind, so the tree stays.
module _ (nodes nodes' : Nodes) (i : ℕ) (n m : Node) (puts : Puts nodes i (some m) nodes')
    (there : node_at nodes i ≡ some n) (same_path : m.path ≡ n.path)
    (same_kind : m.is_dir ≡ n.is_dir) where
  -- A node of the new table has the path and the kind of the old one in its slot.
  updated :
      (j : ℕ) (l : Node)
      → node_at nodes' j ≡ some l
      → (k : Node) × (node_at nodes j ≡ some k) × (l.path ≡ k.path) × (l.is_dir ≡ k.is_dir)
  updated j l at = elim (ℕ_discrete i j) [
    | yes here ↦
        let e : m ≡ l = ground (arith, puts j) in
        (
          n,
          ap (node_at nodes) (sym here) ∙ there,
          sym (ap (λ (x : Node). x.path) e) ∙ same_path,
          sym (ap (λ (x : Node). x.is_dir) e) ∙ same_kind,
        )
    | no other ↦ (l, ground (arith, puts j), refl, refl)
  ]

  HasDir-update : (p : FilePath) → HasDir nodes p → HasDir nodes' p
  HasDir-update p (k, l, at, same, d) = elim (ℕ_discrete i k) [
    | yes here ↦
        let e : n ≡ l = some_eq (sym there ∙ ap (node_at nodes) here ∙ at) in
        (
          k,
          m,
          ground (arith, puts k),
          same_path ∙ ap (λ (x : Node). x.path) e ∙ same,
          same_kind ∙ ap (λ (x : Node). x.is_dir) e ∙ d,
        )
    | no other ↦ (k, l, ground (arith, puts k), same, d)
  ]

  pub IsTree-update : IsTree nodes → IsTree nodes'
  IsTree-update t = record {
    rooted = HasDir-update root t.rooted;
    valid = λ j l at.
        let (k, old, p, d) = updated j l at in
        subst (λ q. validate_path q ≡ ok tt) (sym p) (t.valid j k old);
    distinct = λ j j' l l' at at' same.
        let (k, old, p, d) = updated j l at in
        let (k', old', p', d') = updated j' l' at' in
        t.distinct j j' k k' old old' (sym p ∙ same ∙ p');
    closed = λ j l at below.
        let (k, old, p, d) = updated j l at in
        HasDir-update _
          (subst (λ q. HasDir nodes (parent_of q)) (sym p) (t.closed j k old (λ e. below (p ∙ e))));
  }
