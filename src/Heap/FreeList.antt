-- ===== src/Heap/FreeList.antt =====
-- The free list of crates/kernel/src/memory/allocator.rs as a set of bytes.
use kazuos.Prelude.{
  ℕ, ◌+◌, ◌-◌, ◌≤◌, false, ◌&&◌, Option, none, some, List, [], ◌∷◌, ◌==◌, ltb, leb, if◌then◌else◌,
  ◌≡◌, refl, ap, arith, Bool-cases, inl, inr, ==_iff, leb→le,
}
use kazuos.Heap.{
  Node, node_size, link, join_prev, insert_after, insert_sorted, insert_nolock, first_fit, carve,
  take_raw,
}

-- 1 if the byte `x` lies in the block, else 0.
unfoldable pub cover : ℕ → ℕ → ℕ → ℕ
cover addr size x = if leb addr x && ltb x (addr + size) then 1 else 0

-- How many nodes the byte lies in.
unfoldable pub free_weight : List Node → ℕ → ℕ
free_weight [] x = 0
free_weight (n ∷ nodes) x = cover n.addr n.size x + free_weight nodes x

pub cover-add : (a s t x : ℕ) → cover a (s + t) x ≡ cover a s x + cover (a + s) t x
unfolding cover
cover-add a s t x = ground arith

free_weight_nil : (x : ℕ) → free_weight [] x ≡ 0
unfolding free_weight
free_weight_nil x = refl

free_weight-cons :
    (n : Node) (nodes : List Node) (x : ℕ)
    → free_weight (n ∷ nodes) x ≡ cover n.addr n.size x + free_weight nodes x
unfolding free_weight
free_weight-cons n nodes x = refl

module _ (addr size x : ℕ) where
  link-weight :
      (nodes : List Node)
      → free_weight (link addr size nodes) x ≡ cover addr size x + free_weight nodes x
  unfolding free_weight
  link-weight [] = refl
  link-weight (cur ∷ nodes) = elim (Bool-cases (addr + size == cur.addr)) [
    | inl e ↦
        let touch = (==_iff (addr + size) cur.addr).0 e in
        rw e (omega (arith, cover-add addr size cur.size x, ap (λ a. cover a cur.size x) touch))
    | inr e ↦ rw e refl
  ]

join_prev-weight :
    (prev : Node) (nodes : List Node) (x : ℕ)
    → free_weight (join_prev prev nodes) x ≡ cover prev.addr prev.size x + free_weight nodes x
unfolding free_weight
join_prev-weight prev [] x = refl
join_prev-weight prev (node ∷ nodes) x = elim (Bool-cases (prev.addr + prev.size == node.addr)) [
  | inl e ↦
      let touch = (==_iff (prev.addr + prev.size) node.addr).0 e in
      rw e (
        omega
          (arith, cover-add prev.addr prev.size node.size x, ap (λ a. cover a node.size x) touch))
  | inr e ↦ rw e refl
]

module _ (addr size x : ℕ) where
  insert_after-weight :
      (prev : Node) (nodes : List Node)
      → free_weight (insert_after addr size prev nodes) x
        ≡ cover addr size x + (cover prev.addr prev.size x + free_weight nodes x)
  unfolding insert_after
  insert_after-weight prev [] = omega (
    arith,
    join_prev-weight prev (link addr size []) x,
    link-weight addr size x [],
    free_weight_nil x,
  )
  insert_after-weight prev (cur ∷ nodes) = elim (Bool-cases (ltb cur.addr addr)) [
    | inl e ↦ rw e (
        omega (
          arith,
          free_weight-cons prev (insert_after addr size cur nodes) x,
          free_weight-cons cur nodes x,
          insert_after-weight cur nodes,
        ))
    | inr e ↦ rw e (
        omega (
          arith,
          join_prev-weight prev (link addr size (cur ∷ nodes)) x,
          link-weight addr size x (cur ∷ nodes),
        ))
  ]

  insert_sorted-weight :
      (nodes : List Node)
      → free_weight (insert_sorted addr size nodes) x ≡ cover addr size x + free_weight nodes x
  insert_sorted-weight [] = link-weight addr size x []
  insert_sorted-weight (cur ∷ nodes) = elim (Bool-cases (ltb cur.addr addr)) [
    | inl e ↦ rw e (omega (arith, insert_after-weight cur nodes, free_weight-cons cur nodes x))
    | inr e ↦ rw e (link-weight addr size x (cur ∷ nodes))
  ]

  -- A block that is given back makes exactly its bytes free.
  pub insert_nolock-weight :
      (nodes : List Node)
      → node_size ≤ size
      → free_weight (insert_nolock addr size nodes) x ≡ cover addr size x + free_weight nodes x
  unfolding insert_nolock
  insert_nolock-weight nodes h =
      let e : ltb size node_size ≡ false = ground arith in rw e (insert_sorted-weight nodes)

-- What `first_fit` answers is one of the nodes, and large enough.
abbrev pub Fits : ℕ → List Node → Option (Node × List Node) → Type 0
Fits need nodes none = Unit {0}
Fits need nodes (some (found, others)) =
    (need ≤ found.size)
    × ((x : ℕ) → free_weight nodes x ≡ cover found.addr found.size x + free_weight others x)

skip-Fits :
    (need : ℕ) (cur : Node) (nodes : List Node) (r : Option (Node × List Node))
    → Fits need nodes r
    → Fits need
        (cur ∷ nodes)
        (elim r [ none ↦ none | some (found, others) ↦ some (found, cur ∷ others) ])
unfolding free_weight
skip-Fits need cur nodes none h = tt
skip-Fits need cur nodes (some (found, others)) h = (h.0, λ x. omega (arith, h.1 x))

first_fit-Fits : (need : ℕ) (nodes : List Node) → Fits need nodes (first_fit need nodes)
unfolding first_fit
first_fit-Fits need [] = tt
first_fit-Fits need (cur ∷ nodes) = elim (Bool-cases (leb need cur.size)) [
  | inl e ↦ rw e (leb→le need cur.size e, λ x. free_weight-cons cur nodes x)
  | inr e ↦ rw e (skip-Fits need cur nodes (first_fit need nodes) (first_fit-Fits need nodes))
]

-- A block that is taken is large enough, and exactly its bytes stop being free.
abbrev pub Taken : ℕ → List Node → Option (ℕ × ℕ) × List Node → Type 0
Taken need nodes (none, nodes') = (x : ℕ) → free_weight nodes' x ≡ free_weight nodes x
Taken need nodes (some (addr, kept), nodes') =
    (need ≤ kept) × ((x : ℕ) → free_weight nodes x ≡ cover addr kept x + free_weight nodes' x)

carve-Taken :
    (need : ℕ) (nodes : List Node) (r : Option (Node × List Node))
    → Fits need nodes r
    → Taken need nodes (carve need nodes r)
carve-Taken need nodes none h = λ x. refl
carve-Taken need nodes (some (found, others)) h =
    elim (Bool-cases (leb node_size (found.size - need))) [
      | inl e ↦
          let room = leb→le node_size (found.size - need) e in
          let size : found.size ≡ need + (found.size - need) = omega (arith, h.0) in
          rw e (
            omega arith,
            λ x. omega (
              arith,
              h.1 x,
              ap (λ s. cover found.addr s x) size,
              cover-add found.addr need (found.size - need) x,
              insert_nolock-weight (found.addr + need) (found.size - need) x others room,
            ),
          )
      | inr e ↦ rw e h
    ]

pub take_raw-Taken : (need : ℕ) (nodes : List Node) → Taken need nodes (take_raw need nodes)
unfolding take_raw
take_raw-Taken need nodes =
    carve-Taken need nodes (first_fit need nodes) (first_fit-Fits need nodes)
