-- ===== src/Fs/Vfs/Find.antt =====
-- What `find` answers, and how the writes to the slot table of crates/kernel/src/fs/vfs.rs show
-- through `nodes[i].node`.
use kazuos.Prelude.{
  ℕ, zero, suc, ◌+◌, ◌%◌, ◌^◌, ◌<◌, ◌≤◌, ◌≡◌, refl, ◌≢◌, ap, sym, subst, inl, inr, true, Option,
  none, some, [], ◌∷◌, ◌++◌, arith, length, get_elem?, set, ◌==◌, if◌then◌else◌, Bool-cases,
  Option-cases, get_elem?-set_self, get_elem?-set_ne, get_elem?-lt-length,
}
use native.Mathlib.Decide.{ℕ_discrete}
use kazuos.Fs.Path.{FilePath, bytes_eq}
use kazuos.Fs.Path.Laws.{bytes_eq→eq, bytes_eq_refl}
use kazuos.Fs.Vfs.Table.{Node, Slot, Nodes, has_path, shift, find, node_at, put_node, generation_at}
use kazuos.Fs.Vfs.Edit.{find_free, place}

pub has_path→eq :
    (o : Option Node) (path : FilePath)
    → has_path o path ≡ true
    → (n : Node) × (o ≡ some n) × (n.path ≡ path)
has_path→eq none path e = cc
has_path→eq (some n) path e = (n, refl, bytes_eq→eq n.path path e)

shift-some : (o : Option ℕ) {i : ℕ} → shift o ≡ some i → (k : ℕ) × (o ≡ some k) × (i ≡ suc k)
shift-some none e = cc
shift-some (some k) e = (k, refl, ground arith)

shift-none : (o : Option ℕ) → shift o ≡ none → o ≡ none
shift-none none e = refl
shift-none (some k) e = cc

-- `find` returns the index of a node with the path, so the `unwrap` after it does not panic.
pub find-some :
    (nodes : Nodes) (path : FilePath) {i : ℕ}
    → find nodes path ≡ some i
    → (n : Node) × (node_at nodes i ≡ some n) × (n.path ≡ path)
unfolding find
find-some [] path e = cc
find-some (s ∷ nodes) path {i} e = elim (Bool-cases (has_path s.node path)) [
  | inl here ↦
      let (n, at, same) = has_path→eq s.node path here in
      let first : zero ≡ i = ground arith in
      subst (λ k. (n : Node) × (node_at (s ∷ nodes) k ≡ some n) × (n.path ≡ path)) first
        (n, at, same)
  | inr there ↦
      let (k, later, next) = shift-some (find nodes path) {i = i} (ground arith) in
      subst (λ k. (n : Node) × (node_at (s ∷ nodes) k ≡ some n) × (n.path ≡ path)) (sym next)
        (find-some nodes path later)
]

pub find-none :
    (nodes : Nodes) (path : FilePath)
    → find nodes path ≡ none
    → (i : ℕ) (n : Node) → node_at nodes i ≡ some n
    → n.path ≢ path
unfolding find
find-none [] path e i n at same = cc
find-none (s ∷ nodes) path e zero n at same = ground (
  arith,
  bytes_eq_refl path,
  ap (λ (o : Option Node). has_path o path) at,
  ap (λ p. bytes_eq p path) same,
)
find-none (s ∷ nodes) path e (suc i) n at same = elim (Bool-cases (has_path s.node path)) [
  | inl here ↦ ground arith
  | inr there ↦ find-none nodes path (shift-none _ (ground arith)) i n at same
]

-- The table after slot `i` was given the node `v`.
abbrev pub Puts : Nodes → ℕ → Option Node → Nodes → Type 0
Puts nodes i v nodes' = (j : ℕ) → node_at nodes' j ≡ (if i == j then v else node_at nodes j)

Puts-set :
    (nodes : Nodes) (i : ℕ) (s : Slot) → i < length nodes → Puts nodes i s.node (set nodes i s)
Puts-set nodes i s lt j = elim (ℕ_discrete i j) [
  | yes same ↦ rw (← same, get_elem?-set_self nodes i s lt) (ground arith)
  | no other ↦ rw (get_elem?-set_ne nodes i j s other) (ground arith)
]

Puts-append : (nodes : Nodes) (s : Slot) → Puts nodes (length nodes) s.node (nodes ++ s ∷ [])
Puts-append [] s zero = refl
Puts-append [] s (suc j) = ground arith
Puts-append (t ∷ nodes) s zero = ground arith
Puts-append (t ∷ nodes) s (suc j) = ground (arith, Puts-append nodes s j)

pub node_at-lt :
    (nodes : Nodes) (i : ℕ) {n : Node}
    → node_at nodes i ≡ some n
    → (s : Slot) × (get_elem? nodes i ≡ some s) × (i < length nodes)
node_at-lt nodes i at = elim (Option-cases (get_elem? nodes i)) [
  | inl e ↦ ground arith
  | inr (s, e) ↦ (s, e, get_elem?-lt-length nodes i e)
]

pub Puts-put_node :
    (nodes : Nodes) (i : ℕ) {n : Node} (v : Option Node)
    → node_at nodes i ≡ some n
    → Puts nodes i v (put_node nodes i v)
Puts-put_node nodes i v at =
    let (s, e, lt) = node_at-lt nodes i at in
    rw (e, put_node) (Puts-set nodes i (record s { node = v }) lt)

pub find_free-some :
    (nodes : Nodes) {i : ℕ}
    → find_free nodes ≡ some i
    → (s : Slot) × (get_elem? nodes i ≡ some s) × (s.node ≡ none)
unfolding find_free
find_free-some [] e = cc
find_free-some (s ∷ nodes) {i} e = elim (Option-cases s.node) [
  | inl free ↦
      let first : zero ≡ i = ground arith in
      subst (λ k. (t : Slot) × (get_elem? (s ∷ nodes) k ≡ some t) × (t.node ≡ none)) first
        (s, refl, free)
  | inr (n, used) ↦
      let (k, later, next) = shift-some (find_free nodes) {i = i} (ground arith) in
      subst (λ k. (t : Slot) × (get_elem? (s ∷ nodes) k ≡ some t) × (t.node ≡ none)) (sym next)
        (find_free-some nodes later)
]

generation_at-append :
    (nodes : Nodes) (s : Slot) → generation_at (nodes ++ s ∷ []) (length nodes) ≡ s.generation
generation_at-append [] s = refl
generation_at-append (t ∷ nodes) s = generation_at-append nodes s

-- Where `place` put a node: a slot that held none, whose index and generation it answers.
pub record Placed (nodes : Nodes) (n : Node) (r : (ℕ × ℕ) × Nodes) : Type 0 where
  pub id : ℕ
  pub empty : node_at nodes id ≡ none
  pub puts : Puts nodes id (some n) r.1
  pub handle : r.0 ≡ (id % 2 ^ 32, generation_at r.1 id)
  pub near : id ≤ length nodes

pub place-Placed : (nodes : Nodes) (n : Node) → Placed nodes n (place nodes n)
unfolding place
place-Placed nodes n = elim (Option-cases (find_free nodes)) [
  | inl e ↦
      rw (e, place)
        (record {
          id = length nodes;
          empty = past nodes;
          puts = Puts-append nodes _;
          handle =
              ground (arith, generation_at-append nodes (record { generation = 0; node = some n }));
          near = omega arith;
        })
  | inr (i, e) ↦
      let (s, at, free) = find_free-some nodes e in
      rw (e, place)
        (record {
          id = i;
          empty = rw at free;
          puts = Puts-set nodes i _ (get_elem?-lt-length nodes i at);
          handle =
              ground (arith, get_elem?-set_self nodes i (fresh i) (get_elem?-lt-length nodes i at));
          near = omega (arith, get_elem?-lt-length nodes i at);
        })
]
  where
    past : (nodes : Nodes) → node_at nodes (length nodes) ≡ none
    past [] = refl
    past (s ∷ nodes) = past nodes

    fresh : ℕ → Slot
    fresh i = record { generation = (generation_at nodes i + 1) % 2 ^ 32; node = some n }
