-- ===== src/Heap/Weight.antt =====
-- The bytes that the heap of crates/kernel/src/memory/allocator.rs keeps, in its free list and in
-- the stacks of the CPUs, and what it means for the stacks to be in order.
use kazuos.Prelude.{
  ℕ, zero, suc, ◌+◌, ◌≤◌, ◌<◌, Bool, true, Option, none, some, List, [], ◌∷◌, ◌==◌, ◌≡◌, ◌≢◌, refl,
  ◌∙◌, subst, arith, Bool-cases, inl, inr, ==_iff, true-false, length, get_or, set, All, All-set,
  get_or-All, get_or-set_self, get_or-set_ne, length-set,
}
use kazuos.Heap.{
  Cache, empty_cache, Heap, max_cpus, class_sizes, cache_cap, position, set_class, put_cache,
}
use kazuos.Heap.FreeList.{cover, free_weight}

-- A stack of blocks of one size.
unfoldable pub stack_weight : ℕ → List ℕ → ℕ → ℕ
stack_weight cs [] x = 0
stack_weight cs (addr ∷ head) x = cover addr cs x + stack_weight cs head x

unfoldable pub classes_weight : List ℕ → List (List ℕ) → ℕ → ℕ
classes_weight [] heads x = 0
classes_weight (cs ∷ sizes) [] x = 0
classes_weight (cs ∷ sizes) (head ∷ heads) x = stack_weight cs head x + classes_weight sizes heads x

unfoldable pub caches_weight : List Cache → ℕ → ℕ
caches_weight [] x = 0
caches_weight (c ∷ caches) x = classes_weight class_sizes c.heads x + caches_weight caches x

-- In how many of the blocks that the heap keeps the byte lies.
abbrev pub heap_weight : Heap → ℕ → ℕ
heap_weight heap x = free_weight heap.nodes x + caches_weight heap.caches x

pub stack_weight-cons :
    (cs addr : ℕ) (head : List ℕ) (x : ℕ)
    → stack_weight cs (addr ∷ head) x ≡ cover addr cs x + stack_weight cs head x
unfolding stack_weight
stack_weight-cons cs addr head x = refl

classes_weight-set :
    (sizes : List ℕ) (heads : List (List ℕ)) (ci : ℕ) (head : List ℕ) (x : ℕ)
    → ci < length sizes
    → ci < length heads
    → classes_weight sizes (set heads ci head) x
        + stack_weight (get_or sizes ci 0) (get_or heads ci []) x
      ≡ classes_weight sizes heads x + stack_weight (get_or sizes ci 0) head x
unfolding classes_weight
classes_weight-set [] heads ci head x l h = absurd (omega arith)
classes_weight-set (cs ∷ sizes) [] ci head x l h = absurd (omega arith)
classes_weight-set (cs ∷ sizes) (old ∷ heads) zero head x l h = omega arith
classes_weight-set (cs ∷ sizes) (old ∷ heads) (suc ci) head x l h =
    omega (arith, classes_weight-set sizes heads ci head x (omega arith) (omega arith))

caches_weight-set :
    (caches : List Cache) (cpu : ℕ) (c : Cache) (x : ℕ)
    → cpu < length caches
    → caches_weight (set caches cpu c) x
        + classes_weight class_sizes (get_or caches cpu empty_cache).heads x
      ≡ caches_weight caches x + classes_weight class_sizes c.heads x
unfolding caches_weight
caches_weight-set [] cpu c x l = absurd (omega arith)
caches_weight-set (old ∷ caches) zero c x l = omega arith
caches_weight-set (old ∷ caches) (suc cpu) c x l =
    omega (arith, caches_weight-set caches cpu c x (omega arith))

-- Each count is the height of its stack, and within the limit.
abbrev pub Counted : Cache → ℕ → Type 0
Counted c ci =
    (get_or c.counts ci 0 ≡ length (get_or c.heads ci [])) × (get_or c.counts ci 0 ≤ cache_cap)

pub record IsCache (c : Cache) : Type 0 where
  pub six_heads : length c.heads ≡ length class_sizes
  pub six_counts : length c.counts ≡ length class_sizes
  pub counted : (ci : ℕ) → Counted c ci

pub record AreCaches (caches : List Cache) : Type 0 where
  pub sixteen : length caches ≡ max_cpus
  pub each : All IsCache caches

empty_cache-Counted : (ci : ℕ) → Counted empty_cache ci
empty_cache-Counted zero = omega arith
empty_cache-Counted (suc zero) = omega arith
empty_cache-Counted (suc (suc zero)) = omega arith
empty_cache-Counted (suc (suc (suc zero))) = omega arith
empty_cache-Counted (suc (suc (suc (suc zero)))) = omega arith
empty_cache-Counted (suc (suc (suc (suc (suc zero))))) = omega arith
empty_cache-Counted (suc (suc (suc (suc (suc (suc ci)))))) = omega arith

pub empty_cache-IsCache : IsCache empty_cache
empty_cache-IsCache = record { six_heads = refl; six_counts = refl; counted = empty_cache-Counted }

pub get_or-IsCache :
    (caches : List Cache) (cpu : ℕ) → AreCaches caches → IsCache (get_or caches cpu empty_cache)
get_or-IsCache caches cpu a = get_or-All IsCache caches cpu empty_cache a.each empty_cache-IsCache

pub set_class-IsCache :
    (c : Cache) (ci : ℕ) (head : List ℕ) (count : ℕ)
    → ci < length class_sizes
    → IsCache c
    → count ≡ length head
    → count ≤ cache_cap
    → IsCache (set_class c ci head count)
set_class-IsCache c ci head count l v e cap_le = record {
  six_heads = length-set c.heads ci head ∙ v.six_heads;
  six_counts = length-set c.counts ci count ∙ v.six_counts;
  counted = λ j. elim (Bool-cases (ci == j)) [
    | inl same ↦
        subst (λ k. Counted (set_class c ci head count) k) ((==_iff ci j).0 same)
          (rw
            (
              get_or-set_self c.counts ci count 0 (omega (arith, v.six_counts)),
              get_or-set_self c.heads ci head [] (omega (arith, v.six_heads)),
            )
            (e, cap_le))
    | inr other ↦
        let apart : ci ≢ j = λ q. true-false ((==_iff ci j).1 q) other in
        rw (get_or-set_ne c.counts ci j count 0 apart, get_or-set_ne c.heads ci j head [] apart)
          (v.counted j)
  ];
}

-- A cache whose stack of one class is replaced: what that changes.
pub put_class-weight :
    (heap : Heap) (cpu ci : ℕ) (head : List ℕ) (count x : ℕ)
    → cpu < max_cpus
    → ci < length class_sizes
    → AreCaches heap.caches
    → let c = get_or heap.caches cpu empty_cache in
      heap_weight (put_cache cpu (set_class c ci head count) heap) x
        + stack_weight (get_or class_sizes ci 0) (get_or c.heads ci []) x
      ≡ heap_weight heap x + stack_weight (get_or class_sizes ci 0) head x
put_class-weight heap cpu ci head count x lc li a =
    let c = get_or heap.caches cpu empty_cache in
    let v = get_or-IsCache heap.caches cpu a in
    omega (
      arith,
      a.sixteen,
      v.six_heads,
      caches_weight-set heap.caches cpu (set_class c ci head count) x (omega (arith, a.sixteen)),
      classes_weight-set class_sizes c.heads ci head x li (omega (arith, v.six_heads)),
    )

pub put_class-AreCaches :
    (heap : Heap) (cpu ci : ℕ) (head : List ℕ) (count : ℕ)
    → ci < length class_sizes
    → AreCaches heap.caches
    → count ≡ length head
    → count ≤ cache_cap
    → AreCaches (set heap.caches cpu (set_class (get_or heap.caches cpu empty_cache) ci head count))
put_class-AreCaches heap cpu ci head count li a e cap_le = record {
  sixteen = length-set heap.caches cpu _ ∙ a.sixteen;
  each =
      All-set IsCache heap.caches cpu _ a.each
        (set_class-IsCache _ ci head count li (get_or-IsCache heap.caches cpu a) e cap_le);
}

-- The class that is found is one of the six, and its size passes the test.
abbrev pub Found : (ℕ → Bool) → List ℕ → Option ℕ → Type 0
Found p sizes none = Unit {0}
Found p sizes (some i) = (i < length sizes) × (p (get_or sizes i 0) ≡ true)

pub position-Found : (p : ℕ → Bool) (sizes : List ℕ) → Found p sizes (position p sizes)
unfolding position
position-Found p [] = tt
position-Found p (c ∷ sizes) = elim (Bool-cases (p c)) [
  | inl e ↦ rw e (omega arith, e)
  | inr e ↦ rw e (skip (position p sizes) (position-Found p sizes))
]
  where
    skip :
        (o : Option ℕ)
        → Found p sizes o
        → Found p (c ∷ sizes) (elim o [ none ↦ none | some i ↦ some (suc i) ])
    skip none h = tt
    skip (some i) h = (omega (arith, h.0), h.1)
