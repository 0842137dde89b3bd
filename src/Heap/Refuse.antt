-- ===== src/Heap/Refuse.antt =====
-- When `alloc` of crates/kernel/src/memory/allocator.rs answers a null pointer.
use kazuos.Prelude.{
  ℕ, zero, suc, ◌-◌, ◌≤◌, ◌<◌, if◌then◌else◌, Bool, true, false, Option, none, some, List, [], ◌∷◌,
  ◌≡◌, ◌⊎◌, refl, sym, ◌∙◌, ap, arith, All, Bool-cases, inl, inr, leb, leb→le, length, get_or,
}
use kazuos.Heap.{
  Node, node_size, empty_cache, Heap, class_sizes, position, class_for, first_fit, carve, take_raw,
  from_pool, finish_alloc, pop_class, alloc_class,
}

-- The smallest of the six classes that has room for `need` bytes; and `need` above them all.
abbrev pub IsClassOf : ℕ → ℕ → Type 0
IsClassOf need ci =
    (ci < length class_sizes)
    × (need ≤ get_or class_sizes ci 0)
    × ((j : ℕ) → j < ci → get_or class_sizes j 0 < need)

abbrev pub IsLarge : ℕ → Type 0
IsLarge need = (j : ℕ) → j < length class_sizes → get_or class_sizes j 0 < need

abbrev pub stack_of : ℕ → ℕ → Heap → List ℕ
stack_of cpu ci heap = get_or (get_or heap.caches cpu empty_cache).heads ci []

-- There is nothing to give: no free node is large enough, for a small block not even for its class,
-- the stack of which is empty on this CPU.
abbrev pub IsShort : ℕ → ℕ → Heap → Type 0
IsShort cpu need heap =
    (IsLarge need × All (λ n. n.size < need) heap.nodes)
    ⊎ ((ci : ℕ) × IsClassOf need ci
        × (stack_of cpu ci heap ≡ [])
        × All (λ n. n.size < get_or class_sizes ci 0) heap.nodes)

-- A null pointer is answered only then, and the heap is as it was.
abbrev pub RefusesOnly : ℕ → ℕ → Heap → Option ℕ × Heap → Type 0
RefusesOnly cpu need heap (none, heap') = (heap' ≡ heap) × IsShort cpu need heap
RefusesOnly cpu need heap (some user, heap') = Unit {0}

not_enough : (need size : ℕ) → leb need size ≡ false → size < need
not_enough need size e = ground arith

-- A class is the first that passes the test.
abbrev IsFirst : (ℕ → Bool) → List ℕ → Option ℕ → Type 0
IsFirst p sizes none = (j : ℕ) → j < length sizes → p (get_or sizes j 0) ≡ false
IsFirst p sizes (some i) =
    (i < length sizes)
    × (p (get_or sizes i 0) ≡ true)
    × ((j : ℕ) → j < i → p (get_or sizes j 0) ≡ false)

position-IsFirst : (p : ℕ → Bool) (sizes : List ℕ) → IsFirst p sizes (position p sizes)
unfolding position
position-IsFirst p [] = λ j l. absurd (omega (arith, l))
position-IsFirst p (c ∷ sizes) = elim (Bool-cases (p c)) [
  | inl e ↦ rw e (omega arith, e, λ j l. absurd (omega (arith, l)))
  | inr e ↦ rw e (skip e (position p sizes) (position-IsFirst p sizes))
]
  where
    below :
        (n j : ℕ)
        → p c ≡ false
        → ((k : ℕ) → k < n → p (get_or sizes k 0) ≡ false)
        → j < suc n
        → p (get_or (c ∷ sizes) j 0) ≡ false
    below n zero e h l = e
    below n (suc j) e h l = h j (omega (arith, l))

    skip :
        p c ≡ false
        → (o : Option ℕ) → IsFirst p sizes o
        → IsFirst p (c ∷ sizes) (elim o [ none ↦ none | some i ↦ some (suc i) ])
    skip e none h = λ j l. below (length sizes) j e h l
    skip e (some i) h = (omega (arith, h.0), h.1, λ j l. below i j e h.2 l)

-- No node fits.
first_fit-none :
    (need : ℕ) (nodes : List Node) → first_fit need nodes ≡ none → All (λ n. n.size < need) nodes
unfolding first_fit
first_fit-none need [] e = tt
first_fit-none need (cur ∷ nodes) e = elim (Bool-cases (leb need cur.size)) [
  | inl b ↦ absurd (some_none (sym (ap (λ t. if t then some (cur, nodes) else later) b) ∙ e))
  | inr b ↦ (
    not_enough need cur.size b,
    first_fit-none need nodes (
        none_later (first_fit need nodes)
          (sym (ap (λ t. if t then some (cur, nodes) else later) b) ∙ e)),
  )
]
  where
    later : Option (Node × List Node)
    later = elim (first_fit need nodes) [
      | none ↦ none
      | some (found, others) ↦ some (found, cur ∷ others)
    ]

    some_none : {A : Type 0} {a : A} → some a ≡ none → ⊥
    some_none q = absurd cc

    none_later :
        (o : Option (Node × List Node))
        → elim o as (λ k. Option (Node × List Node)) [
          | none ↦ none
          | some (found, others) ↦ some (found, cur ∷ others)
        ]
          ≡ none
        → o ≡ none
    none_later none q = refl
    none_later (some r) q = absurd (some_none q)

-- The pool refuses only if no node is large enough.
module _ (cpu need asked align : ℕ) (heap : Heap)
    (short : All (λ n. n.size < asked) heap.nodes → IsShort cpu need heap) where
  carve-RefusesOnly :
      (o : Option (Node × List Node))
      → first_fit asked heap.nodes ≡ o
      → RefusesOnly cpu need heap (from_pool align heap (carve asked heap.nodes o))
  unfolding finish_alloc
  carve-RefusesOnly none e = (refl, short (first_fit-none asked heap.nodes e))
  carve-RefusesOnly (some (found, others)) e =
      elim (Bool-cases (leb node_size (found.size - asked))) [ inl b ↦ rw b tt | inr b ↦ rw b tt ]

  pool-RefusesOnly : RefusesOnly cpu need heap (from_pool align heap (take_raw asked heap.nodes))
  unfolding take_raw
  pool-RefusesOnly = carve-RefusesOnly (first_fit asked heap.nodes) refl

module _ (cpu need align : ℕ) (heap : Heap) where
  pop_class-RefusesOnly :
      (ci : ℕ) (head : List ℕ)
      → IsClassOf need ci
      → stack_of cpu ci heap ≡ head
      → RefusesOnly cpu need heap (
          pop_class cpu
            (get_or heap.caches cpu empty_cache)
            ci
            (get_or class_sizes ci 0)
            align
            heap
            head)
  unfolding finish_alloc
  pop_class-RefusesOnly ci [] c e =
      pool-RefusesOnly cpu need (get_or class_sizes ci 0) align heap (λ s. inr (ci, c, e, s))
  pop_class-RefusesOnly ci (addr ∷ head) c e = tt

  alloc_class-RefusesOnly :
      (o : Option ℕ)
      → IsFirst (λ c. leb need c) class_sizes o
      → RefusesOnly cpu need heap (alloc_class cpu need align heap o)
  alloc_class-RefusesOnly none f =
      pool-RefusesOnly cpu need need align heap
        (λ s. inl ((λ j l. not_enough need (get_or class_sizes j 0) (f j l)), s))
  alloc_class-RefusesOnly (some ci) f =
      pop_class-RefusesOnly ci (stack_of cpu ci heap)
        (
          f.0,
          leb→le need (get_or class_sizes ci 0) f.1,
          λ j l. not_enough need (get_or class_sizes j 0) (f.2 j l),
        )
        refl

pub class_for-RefusesOnly :
    (cpu need align : ℕ) (heap : Heap)
    → RefusesOnly cpu need heap (alloc_class cpu need align heap (class_for need))
unfolding class_for
class_for-RefusesOnly cpu need align heap =
    alloc_class-RefusesOnly cpu need align heap (position (λ c. leb need c) class_sizes)
      (position-IsFirst (λ c. leb need c) class_sizes)
