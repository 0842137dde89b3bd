-- ===== src/Heap/Calls.antt =====
-- What `alloc` and `dealloc` of crates/kernel/src/memory/allocator.rs do to the bytes of the heap.
use Prim.Native.Nat.{◌*◌}
use native.Mathlib.Nat.{mod-lt, mul-mod_right, div-add-mod}
use kazuos.Prelude.{
  ℕ, ◌+◌, ◌-◌, ◌/◌, ◌%◌, ◌≤◌, ◌<◌, Option, none, some, List, [], ◌∷◌, ◌==◌, ltb, leb, ◌≡◌, refl, ap,
  arith, Bool-cases, inl, inr, leb→le, length, get_or, ==_iff,
}
use kazuos.Heap.{
  Node, empty_cache, Heap, max_cpus, class_sizes, cache_cap, node_size, header_size, align_up,
  class_for, exact_class, cpu_index, write_header, finish_alloc, from_pool, set_class, put_cache,
  pop_class, alloc_class, align_of, need_of, alloc, give_raw, free_class, dealloc,
}
use kazuos.Heap.Refuse.{RefusesOnly, class_for-RefusesOnly}
use kazuos.Heap.FreeList.{cover, insert_nolock-weight, Taken, take_raw-Taken}
use kazuos.Heap.Weight.{
  stack_weight, stack_weight-cons, heap_weight, AreCaches, get_or-IsCache, put_class-weight,
  put_class-AreCaches, Found, position-Found,
}

-- The next multiple of `align`.
pub align_up_bounds :
    (v align : ℕ) → 0 < align → (v ≤ align_up v align) × (align_up v align < v + align)
unfolding align_up
align_up_bounds v align h = let w = v + align - 1 in (omega (arith, mod-lt w h), omega arith)

pub align_up-mod : (v align : ℕ) → align_up v align % align ≡ 0
unfolding align_up
align_up-mod v align =
    let w = v + align - 1 in
    let e : w - w % align ≡ align * (w / align) = omega (arith, div-add-mod w align) in
    rw e (mul-mod_right align (w / align))

-- A block of `kept` bytes has room for the header, the alignment and the payload.
abbrev pub HasRoom : ℕ → ℕ → ℕ → Type 0
HasRoom size align kept = header_size + size + align ≤ kept

pub need_of-HasRoom :
    (size layout_align : ℕ) → HasRoom size (align_of layout_align) (need_of size layout_align)
unfolding need_of
need_of-HasRoom size layout_align =
    (align_up_bounds (header_size + size + align_of layout_align) 8 (omega arith)).0

-- What an allocation answers. A null pointer: all headers stay, and the heap has the bytes that it
-- had. A pointer: it is aligned, its header names a block that the heap no longer keeps, and the
-- payload lies in that block, after the header. All other headers stay. The stacks stay in order.
abbrev pub Allocates : ℕ → ℕ → Heap → Option ℕ × Heap → Type 0
Allocates size align heap (none, heap') =
    (heap'.headers ≡ heap.headers)
    × AreCaches heap'.caches
    × ((x : ℕ) → heap_weight heap' x ≡ heap_weight heap x)
Allocates size align heap (some user, heap') =
    (addr : ℕ) × (kept : ℕ) × (heap'.headers ≡ write_header user (addr, kept) heap.headers)
    × (user % align ≡ 0)
    × (addr + header_size ≤ user)
    × (user + size < addr + kept)
    × AreCaches heap'.caches
    × ((x : ℕ) → heap_weight heap x ≡ cover addr kept x + heap_weight heap' x)

module _ (size align : ℕ) (positive : 0 < align) where
  finish_alloc-Allocates :
      (addr kept : ℕ) (heap mid : Heap)
      → HasRoom size align kept
      → AreCaches mid.caches
      → mid.headers ≡ heap.headers
      → ((x : ℕ) → heap_weight heap x ≡ cover addr kept x + heap_weight mid x)
      → Allocates size align heap (finish_alloc addr kept align mid)
  unfolding finish_alloc
  finish_alloc-Allocates addr kept heap mid room a same w =
      let b = align_up_bounds (addr + header_size) align positive in
      (
        addr,
        kept,
        ap (λ h. write_header (align_up (addr + header_size) align) (addr, kept) h) same,
        align_up-mod (addr + header_size) align,
        b.0,
        omega (arith, b.1),
        a,
        w,
      )

  from_pool-Allocates :
      (need : ℕ) (heap : Heap) (r : Option (ℕ × ℕ) × List Node)
      → HasRoom size align need
      → AreCaches heap.caches
      → Taken need heap.nodes r
      → Allocates size align heap (from_pool align heap r)
  from_pool-Allocates need heap (none, nodes) room a t = (refl, a, λ x. omega (arith, t x))
  from_pool-Allocates need heap (some (addr, kept), nodes) room a t =
      finish_alloc-Allocates addr kept heap (record heap { nodes = nodes }) (omega (arith, t.0)) a
        refl (λ x. omega (arith, t.1 x))

  pop_class-Allocates :
      (cpu ci : ℕ) (heap : Heap) (head : List ℕ)
      → cpu < max_cpus
      → ci < length class_sizes
      → HasRoom size align (get_or class_sizes ci 0)
      → AreCaches heap.caches
      → get_or (get_or heap.caches cpu empty_cache).heads ci [] ≡ head
      → Allocates size align heap (
          pop_class cpu
            (get_or heap.caches cpu empty_cache)
            ci
            (get_or class_sizes ci 0)
            align
            heap
            head)
  pop_class-Allocates cpu ci heap [] lc li room a e =
      from_pool-Allocates (get_or class_sizes ci 0) heap _ room a
        (take_raw-Taken (get_or class_sizes ci 0) heap.nodes)
  pop_class-Allocates cpu ci heap (addr ∷ head) lc li room a e =
      let c = get_or heap.caches cpu empty_cache in
      let k = (get_or-IsCache heap.caches cpu a).counted ci in
      let height = ap length e in
      finish_alloc-Allocates addr (get_or class_sizes ci 0) heap
        (put_cache cpu (set_class c ci head (get_or c.counts ci 0 - 1)) heap) room
        (put_class-AreCaches heap cpu ci head (get_or c.counts ci 0 - 1) li a
          (omega (arith, k.0, height)) (omega (arith, k.1)))
        refl
        λ x. omega (
          arith,
          put_class-weight heap cpu ci head (get_or c.counts ci 0 - 1) x lc li a,
          ap (λ h. stack_weight (get_or class_sizes ci 0) h x) e,
          stack_weight-cons (get_or class_sizes ci 0) addr head x,
        )

  alloc_class-Allocates :
      (cpu need : ℕ) (heap : Heap) (o : Option ℕ)
      → cpu < max_cpus
      → HasRoom size align need
      → AreCaches heap.caches
      → Found (λ c. leb need c) class_sizes o
      → Allocates size align heap (alloc_class cpu need align heap o)
  alloc_class-Allocates cpu need heap none lc room a f =
      from_pool-Allocates need heap _ room a (take_raw-Taken need heap.nodes)
  alloc_class-Allocates cpu need heap (some ci) lc room a f =
      pop_class-Allocates cpu ci heap _ lc f.0
        (omega (arith, leb→le need (get_or class_sizes ci 0) f.1)) a refl

class_for-Found : (need : ℕ) → Found (λ c. leb need c) class_sizes (class_for need)
unfolding class_for
class_for-Found need = position-Found (λ c. leb need c) class_sizes

pub cpu_index-lt : (i : ℕ) → cpu_index i < max_cpus
unfolding cpu_index
cpu_index-lt i = ground arith

-- `alloc` answers an aligned pointer into a block that it takes out of the heap and that has room
-- for the header, the alignment and the payload. It answers null, and leaves the heap as it was,
-- only if no free node is large enough, for a small block not even for the smallest class that has
-- room for it, and the stack of that class is empty on the CPU. What it looks for is at most
-- 7 bytes more than the header, the payload and the alignment.
pub alloc-Allocates :
    (cpu size layout_align : ℕ) (heap : Heap)
    → AreCaches heap.caches
    → let align = align_of layout_align in
      let need = need_of size layout_align in
      let answer = alloc cpu size layout_align heap in
      Allocates size align heap answer
      × RefusesOnly (cpu_index cpu) need heap answer
      × (need < header_size + size + align + 8)
unfolding alloc need_of
alloc-Allocates cpu size layout_align heap a =
    let align = align_of layout_align in
    let need = need_of size layout_align in
    (
      alloc_class-Allocates size align (omega arith) (cpu_index cpu) need heap (class_for need)
          (cpu_index-lt cpu) (need_of-HasRoom size layout_align) a (class_for-Found need),
      class_for-RefusesOnly (cpu_index cpu) need align heap,
      (align_up_bounds (header_size + size + align) 8 (omega arith)).1,
    )

-- What `dealloc` does with the block of a header: exactly its bytes are the heap's again.
abbrev pub Returns : ℕ → ℕ → Heap → Heap → Type 0
Returns addr size heap heap' =
    (heap'.headers ≡ heap.headers)
    × AreCaches heap'.caches
    × ((x : ℕ) → heap_weight heap' x ≡ cover addr size x + heap_weight heap x)

module _ (addr size : ℕ) (heap : Heap) (large : node_size ≤ size) (a : AreCaches heap.caches) where
  give_raw-Returns : Returns addr size heap (give_raw addr size heap)
  give_raw-Returns =
      (refl, a, λ x. omega (arith, insert_nolock-weight addr size x heap.nodes large))

  free_class-Returns :
      (cpu : ℕ) (o : Option ℕ)
      → cpu < max_cpus
      → Found (λ c. c == size) class_sizes o
      → Returns addr size heap (free_class cpu addr size heap o)
  free_class-Returns cpu none lc f = give_raw-Returns
  free_class-Returns cpu (some ci) lc f =
      let c = get_or heap.caches cpu empty_cache in
      let k = (get_or-IsCache heap.caches cpu a).counted ci in
      let same = (==_iff (get_or class_sizes ci 0) size).0 f.1 in
      elim (Bool-cases (ltb (get_or c.counts ci 0) cache_cap)) [
        | inl e ↦ rw e (
          refl,
          put_class-AreCaches heap cpu ci (addr ∷ get_or c.heads ci []) (get_or c.counts ci 0 + 1)
              f.0 a (omega (arith, k.0)) (ground arith),
          λ x. omega (
            arith,
            put_class-weight heap cpu ci (addr ∷ get_or c.heads ci []) (get_or c.counts ci 0 + 1) x
                lc f.0 a,
            stack_weight-cons (get_or class_sizes ci 0) addr (get_or c.heads ci []) x,
            ap (λ s. cover addr s x) same,
          ),
        )
        | inr e ↦ rw e give_raw-Returns
      ]

-- `dealloc` gives exactly the block of the pointer's header back, to the stack of the CPU or to
-- the free list.
pub dealloc-Returns :
    (cpu ptr : ℕ) (heap : Heap)
    → AreCaches heap.caches
    → node_size ≤ (heap.headers ptr).1
    → Returns (heap.headers ptr).0 (heap.headers ptr).1 heap (dealloc cpu ptr heap)
unfolding dealloc exact_class
dealloc-Returns cpu ptr heap a large =
    free_class-Returns (heap.headers ptr).0 (heap.headers ptr).1 heap large a (cpu_index cpu) _
      (cpu_index-lt cpu) (position-Found (λ c. c == (heap.headers ptr).1) class_sizes)
