-- ===== src/Fs/Vfs/Slots.antt =====
-- What a call of crates/kernel/src/fs/vfs.rs does to the single slots of the table.
use kazuos.Prelude.{
  ℕ, zero, suc, ◌+◌, ◌%◌, ◌^◌, ◌≡◌, refl, ap, sym, ◌∙◌, subst, ◌⊎◌, inl, inr, Bool, true, false,
  Option, none, some, List, [], ◌∷◌, ◌++◌, arith, Bool-cases, Option-cases, length, get_elem?, set,
  ltb, add64, get_elem?-set_self, get_elem?-set_ne, get_elem?-lt-length,
}
use native.Mathlib.Decide.{ℕ_discrete}
use kazuos.Fs.Error.{Result, ok, err}
use kazuos.Fs.Path.{FilePath}
use kazuos.Fs.Vfs.Table.{Node, Slot, Nodes, node_at, put_node, generation_at}
use kazuos.Fs.Vfs.Access.{live, truncate, write_at, write_node}
use kazuos.Fs.Vfs.Edit.{
  place, fresh_node, check_make, make, create, mkdir, check_unlink, unlink, check_rmdir, rmdir,
  find_free, remove_checked,
}
use kazuos.Fs.Vfs.Find.{find_free-some, node_at-lt}
use kazuos.Fs.Vfs.Keeps.{check_unlink-Removable, check_rmdir-Emptied, Unit-result}

-- What one operation may do to a slot: change its node but not fill a tombstone, or give the next
-- generation to a new node.
abbrev pub Evolves : Slot → Slot → Type 0
Evolves s t =
    ((t.generation ≡ s.generation) × (s.node ≡ none → t.node ≡ none))
    ⊎ (t.generation ≡ (s.generation + 1) % 2 ^ 32)

abbrev pub KeepsSlots : Nodes → Nodes → Type 0
KeepsSlots nodes nodes' =
    (i : ℕ) (s : Slot)
    → get_elem? nodes i ≡ some s
    → (t : Slot) × (get_elem? nodes' i ≡ some t) × Evolves s t

pub KeepsSlots-same : (nodes : Nodes) → KeepsSlots nodes nodes
KeepsSlots-same nodes i s e = (s, e, inl (refl, λ h. h))

pub some_slot : {s t : Slot} → some s ≡ some t → s ≡ t
some_slot e = ground arith

KeepsSlots-set :
    (nodes : Nodes) (id : ℕ) (s u : Slot)
    → get_elem? nodes id ≡ some s
    → Evolves s u
    → KeepsSlots nodes (set nodes id u)
KeepsSlots-set nodes id s u at ev i t e = elim (ℕ_discrete id i) [
  | yes here ↦
      let same : s ≡ t = some_slot (sym at ∙ ap (get_elem? nodes) here ∙ e) in
      (
        u,
        rw (← here) (get_elem?-set_self nodes id u (get_elem?-lt-length nodes id at)),
        subst (λ x. Evolves x u) same ev,
      )
  | no there ↦ (t, get_elem?-set_ne nodes id i u there ∙ e, inl (refl, λ h. h))
]

KeepsSlots-put_node :
    (nodes : Nodes) (id : ℕ) (n : Node) (v : Option Node)
    → node_at nodes id ≡ some n
    → KeepsSlots nodes (put_node nodes id v)
KeepsSlots-put_node nodes id n v at =
    let (s, e, lt) = node_at-lt nodes id at in
    rw (e, put_node)
      (KeepsSlots-set nodes id s (record s { node = v }) e
        (inl (refl, λ free. ground (arith, filled s e))))
  where
    filled : (s : Slot) → get_elem? nodes id ≡ some s → s.node ≡ some n
    filled s e = ground (arith, at)

pub get_elem?-append :
    (nodes : Nodes) (u : Slot) (i : ℕ) {s : Slot}
    → get_elem? nodes i ≡ some s
    → get_elem? (nodes ++ u ∷ []) i ≡ some s
get_elem?-append [] u i e = cc
get_elem?-append (x ∷ nodes) u zero e = e
get_elem?-append (x ∷ nodes) u (suc i) e = get_elem?-append nodes u i e

KeepsSlots-place : (nodes : Nodes) (n : Node) → KeepsSlots nodes (place nodes n).1
unfolding place
KeepsSlots-place nodes n = elim (Option-cases (find_free nodes)) [
  | inl e ↦ rw (e, place) (λ i s at. (s, get_elem?-append nodes _ i at, inl (refl, λ h. h)))
  | inr (i, e) ↦
      let (s, at, free) = find_free-some nodes e in
      rw (e, place)
        (KeepsSlots-set nodes i s _ at (inr (ap (λ (g : ℕ). (g + 1) % 2 ^ 32) (next s i at))))
]
  where
    next : (s : Slot) (i : ℕ) → get_elem? nodes i ≡ some s → generation_at nodes i ≡ s.generation
    next s i at = ground (arith, at)

pub KeepsSlots-remove_checked :
    (nodes : Nodes) (r : Result ℕ)
    → ((id : ℕ) → r ≡ ok id → (n : Node) × (node_at nodes id ≡ some n))
    → KeepsSlots nodes (remove_checked nodes r).1
KeepsSlots-remove_checked nodes (err e) h = KeepsSlots-same nodes
KeepsSlots-remove_checked nodes (ok id) h =
    let (n, at) = h id refl in KeepsSlots-put_node nodes id n none at

KeepsSlots-make :
    (nodes : Nodes) (path : FilePath) (d : Bool) → KeepsSlots nodes (make nodes path d).1
unfolding make
KeepsSlots-make nodes path d = elim (Unit-result (check_make nodes path)) [
  | inr (e, bad) ↦ rw (bad, make) (KeepsSlots-same nodes)
  | inl good ↦ rw (good, make) (KeepsSlots-place nodes (fresh_node path d))
]

pub live-node_at :
    (nodes : Nodes) (i g : ℕ) {n : Node} → live nodes i g ≡ some n → node_at nodes i ≡ some n
unfolding live
live-node_at nodes i g e = elim (Option-cases (get_elem? nodes i)) [
  | inl none_there ↦ ground arith
  | inr (s, at) ↦ ground arith
]

KeepsSlots-truncate : (nodes : Nodes) (i g : ℕ) → KeepsSlots nodes (truncate nodes i g)
unfolding truncate
KeepsSlots-truncate nodes i g = elim (Option-cases (live nodes i g)) [
  | inl e ↦ rw (e, truncate) (KeepsSlots-same nodes)
  | inr (n, e) ↦
      rw (e, truncate)
        (elim (Bool-cases n.is_dir) [
          | inl d ↦ rw d (KeepsSlots-same nodes)
          | inr f ↦ rw f (KeepsSlots-put_node nodes i n _ (live-node_at nodes i g e))
        ])
]

-- A call of the file system. Where `write_at` panics, the kernel stops; the table stays.
pub data Call : Type 0 where
  creates makes_dir unlinks removes_dir : FilePath → Call
  truncates : ℕ → ℕ → Call
  writes : ℕ → ℕ → ℕ → List ℕ → Call

abbrev pub after_write : Nodes → Option (ℕ × Nodes) → Nodes
after_write nodes none = nodes
after_write nodes (some (count, nodes')) = nodes'

unfoldable pub step : Nodes → Call → Nodes
step nodes (creates path) = (create nodes path).1
step nodes (makes_dir path) = (mkdir nodes path).1
step nodes (unlinks path) = (unlink nodes path).1
step nodes (removes_dir path) = (rmdir nodes path).1
step nodes (truncates i g) = truncate nodes i g
step nodes (writes i g offset src) = after_write nodes (write_at nodes i g offset src)

unfoldable pub run : Nodes → List Call → Nodes
unfolding step
run nodes [] = nodes
run nodes (c ∷ cs) = run (step nodes c) cs

KeepsSlots-write_at :
    (nodes : Nodes) (i g offset : ℕ) (src : List ℕ)
    → KeepsSlots nodes (after_write nodes (write_at nodes i g offset src))
unfolding write_at
KeepsSlots-write_at nodes i g offset src = elim (Option-cases (live nodes i g)) [
  | inl e ↦ rw (e, write_at) (KeepsSlots-same nodes)
  | inr (n, e) ↦ rw (e, write_at) (written n (live-node_at nodes i g e))
]
  where
    written :
        (n : Node)
        → node_at nodes i ≡ some n
        → KeepsSlots nodes (after_write nodes (write_node nodes i (some n) offset src))
    written n at = elim (Bool-cases n.is_dir) [
      | inl d ↦ rw (d, write_node) (KeepsSlots-same nodes)
      | inr f ↦ elim (Bool-cases (ltb (add64 offset (length src)) offset)) [
        | inl wrapped ↦ rw (f, wrapped, write_node) (KeepsSlots-same nodes)
        | inr fits ↦ rw (f, fits, write_node) (KeepsSlots-put_node nodes i n _ at)
      ]
    ]

pub step-KeepsSlots : (nodes : Nodes) (c : Call) → KeepsSlots nodes (step nodes c)
unfolding step create mkdir unlink rmdir
step-KeepsSlots nodes (creates path) = KeepsSlots-make nodes path false
step-KeepsSlots nodes (makes_dir path) = KeepsSlots-make nodes path true
step-KeepsSlots nodes (unlinks path) =
    KeepsSlots-remove_checked nodes (check_unlink nodes path)
      λ id e. let r = check_unlink-Removable nodes path e in (r.node, r.there)
step-KeepsSlots nodes (removes_dir path) =
    KeepsSlots-remove_checked nodes (check_rmdir nodes path)
      λ id e. let r = (check_rmdir-Emptied nodes path e).target in (r.node, r.there)
step-KeepsSlots nodes (truncates i g) = KeepsSlots-truncate nodes i g
step-KeepsSlots nodes (writes i g offset src) = KeepsSlots-write_at nodes i g offset src
