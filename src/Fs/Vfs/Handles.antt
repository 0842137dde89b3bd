-- ===== src/Fs/Vfs/Handles.antt =====
-- Open files as `(node, generation)` handles over the slot table of crates/kernel/src/fs/vfs.rs:
-- a handle of an unlinked file never reaches a file that is created later.
use kazuos.Prelude.{
  ℕ, suc, ◌+◌, ◌%◌, ◌^◌, ◌<◌, ◌≤◌, ◌≡◌, refl, ap, sym, ◌∙◌, subst, ◌⊎◌, inl, inr, none, some, List,
  [], ◌∷◌, arith, if◌then◌else◌, Bool-cases, Option-cases, length, get_elem?, get_elem?-set_self,
}
use native.Mathlib.Nat.{mod-eq_of_lt}
use kazuos.Fs.Error.{Result, ok}
use kazuos.Fs.Path.{FilePath}
use kazuos.Fs.Vfs.Table.{
  Slot, Nodes, file_at, dir, find, node_at, unwrap_node, put_node, generation_at, lookup_ram,
}
use kazuos.Fs.Vfs.Access.{live, read_at, write_at}
use kazuos.Fs.Vfs.Edit.{check_unlink, unlink}
use kazuos.Fs.Vfs.Find.{node_at-lt}
use kazuos.Fs.Vfs.Keeps.{check_unlink-Removable, Result-cases}
use kazuos.Fs.Vfs.Slots.{Evolves, step-KeepsSlots, Call, step, run}

-- The handle `(i, g)` is dead: its slot is a tombstone of generation `g` or has a later
-- generation, and `budget` more reuses do not wrap the counter.
abbrev IsStale : Nodes → ℕ → ℕ → ℕ → Type 0
IsStale nodes i g budget =
    (s : Slot) × (get_elem? nodes i ≡ some s)
    × (((s.generation ≡ g) × (s.node ≡ none)) ⊎ (g < s.generation))
    × (s.generation + budget < 2 ^ 32)

step-IsStale :
    (nodes : Nodes) (c : Call) (i g budget : ℕ)
    → IsStale nodes i g (suc budget)
    → IsStale (step nodes c) i g budget
step-IsStale nodes c i g budget (s, at, dead, room) =
    let (t, at', ev) = step-KeepsSlots nodes c i s at in
    (t, at', evolve s t dead ev room, bound s t ev room)
  where
    evolve :
        (s t : Slot)
        → ((s.generation ≡ g) × (s.node ≡ none)) ⊎ (g < s.generation)
        → Evolves s t
        → s.generation + suc budget < 2 ^ 32
        → ((t.generation ≡ g) × (t.node ≡ none)) ⊎ (g < t.generation)
    evolve s t (inl (e, free)) (inl (same, stays)) room = inl (same ∙ e, stays free)
    evolve s t (inr later) (inl (same, stays)) room = inr (omega arith)
    evolve s t (inl (e, free)) (inr next) room = inr (omega arith)
    evolve s t (inr later) (inr next) room = inr (omega arith)

    bound :
        (s t : Slot)
        → Evolves s t
        → s.generation + suc budget < 2 ^ 32
        → t.generation + budget < 2 ^ 32
    bound s t (inl (same, stays)) room = omega arith
    bound s t (inr next) room = omega arith

run-IsStale :
    (nodes : Nodes) (cs : List Call) (i g : ℕ)
    → IsStale nodes i g (length cs)
    → live (run nodes cs) i g ≡ none
unfolding run live
run-IsStale nodes [] i g (s, at, dead, room) = ground (arith, at)
run-IsStale nodes (c ∷ cs) i g stale =
    run-IsStale (step nodes c) cs i g (step-IsStale nodes c i g (length cs) stale)

lookup_ram-file :
    (nodes : Nodes) (path : FilePath) {i g len : ℕ}
    → lookup_ram nodes path ≡ ok (file_at i g len)
    → (id : ℕ) × (find nodes path ≡ some id) × (i ≡ id % 2 ^ 32) × (g ≡ generation_at nodes id)
unfolding lookup_ram
lookup_ram-file nodes path {i} {g} {len} e = elim (Option-cases (find nodes path)) [
  | inl missing ↦ let e' = rw (missing, lookup_ram) at e in ground arith
  | inr (id, found) ↦ let (a, b) = named id (rw (found, lookup_ram) at e) in (id, found, a, b)
]
  where
    named :
        (id : ℕ)
        → ok (
            if (unwrap_node (node_at nodes id)).is_dir
            then dir
            else file_at
                (id % 2 ^ 32)
                (generation_at nodes id)
                (length (unwrap_node (node_at nodes id)).contents))
          ≡ ok (file_at i g len)
        → (i ≡ id % 2 ^ 32) × (g ≡ generation_at nodes id)
    named id e = elim (Bool-cases (unwrap_node (node_at nodes id)).is_dir) [
      | inl d ↦ ground arith
      | inr f ↦ (ground arith, ground arith)
    ]

unlink-tombstone :
    (nodes : Nodes) (path : FilePath) (id : ℕ) {nodes' : Nodes}
    → find nodes path ≡ some id
    → unlink nodes path ≡ (ok tt, nodes')
    → (s : Slot) × (get_elem? nodes' id ≡ some s)
      × (s.generation ≡ generation_at nodes id)
      × (s.node ≡ none)
      × (id < length nodes)
unfolding unlink
unlink-tombstone nodes path id {nodes'} found e = elim (Result-cases (check_unlink nodes path)) [
  | inl (f, bad) ↦ let e' = rw (bad, unlink) at e in ground arith
  | inr (k, good) ↦
      let r = check_unlink-Removable nodes path good in
      let same : k ≡ id = some_index (sym r.found ∙ found) in
      let (s, at, lt) = node_at-lt nodes id (ap (node_at nodes) (sym same) ∙ r.there) in
      let done : put_node nodes id none ≡ nodes' =
        subst (λ j. put_node nodes j none ≡ nodes') same (put_of k (rw (good, unlink) at e)) in
      (
        record s { node = none },
        rw (← done, at, put_node) (get_elem?-set_self nodes id _ lt),
        ground (arith, at),
        refl,
        lt,
      )
]
  where
    some_index : {a b : ℕ} → some a ≡ some b → a ≡ b
    some_index e = ground arith

    put_of :
        (k : ℕ)
        → ◌≡◌ {A = Result (Unit {0}) × Nodes} (ok tt, put_node nodes k none) (ok tt, nodes')
        → put_node nodes k none ≡ nodes'
    put_of k e = ap (λ (p : Result (Unit {0}) × Nodes). p.1) e

-- After `unlink` the handle that an open file descriptor still holds reads nothing and writes
-- nothing, whatever is created in the freed slot afterwards; the generation counter is 32 bits
-- wide, so this is for histories that do not take it round.
pub unlinked_handle_dead :
    (nodes : Nodes) (path : FilePath) (i g len : ℕ) (nodes' : Nodes) (cs : List Call)
    → lookup_ram nodes path ≡ ok (file_at i g len)
    → unlink nodes path ≡ (ok tt, nodes')
    → length nodes ≤ 2 ^ 32
    → g + length cs < 2 ^ 32
    → (offset n : ℕ) (src : List ℕ)
    → (read_at (run nodes' cs) i g offset n ≡ [])
      × (write_at (run nodes' cs) i g offset src ≡ some (0, run nodes' cs))
unfolding read_at write_at
unlinked_handle_dead nodes path i g len nodes' cs opened gone small room offset n src =
    let (id, found, at, gen) = lookup_ram-file nodes path opened in
    let (s, slot, kept, free, lt) = unlink-tombstone nodes path id found gone in
    let same : i ≡ id = omega (arith, mod-eq_of_lt {n = id} {m = 2 ^ 32} (omega arith)) in
    let dead : live (run nodes' cs) i g ≡ none =
      run-IsStale nodes' cs i g
        (s, ap (get_elem? nodes') same ∙ slot, inl (kept ∙ sym gen, free), omega arith) in
    (rw (dead, read_at), rw (dead, write_at))
