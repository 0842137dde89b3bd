-- ===== src/Heap/Safety.antt =====
-- No byte of the heap of crates/kernel/src/memory/allocator.rs is handed out twice, and none is
-- lost.
use kazuos.Prelude.{
  ℕ, ◌+◌, ◌≤◌, ◌<◌, Option, none, some, List, [], ◌∷◌, ◌≡◌, refl, sym, ◌∙◌, ap, subst, arith, All,
  get_elem?,
}
use kazuos.Heap.{Heap, header_size, alloc, dealloc, align_of}
use kazuos.Heap.FreeList.{cover}
use kazuos.Heap.Weight.{heap_weight, AreCaches}
use kazuos.Heap.Calls.{Allocates, alloc-Allocates, dealloc-Returns}
use kazuos.Heap.Clients.{
  Payload, World, Request, allocate, release, remove_at, keep, give_up, step, run, block_weight,
  payload_weight, weight, IsHeld, IsSound, cover_inside, cover_mono, apart, write_header_self,
  block_weight-write, IsHeld-write, remove_at-IsHeld, get_elem?-IsHeld, remove_at-weight,
}

-- What every call keeps: soundness, and the weight of each byte.
abbrev pub Keeps : World → World → Type 0
Keeps w w' = IsSound w' × ((x : ℕ) → weight w' x ≡ weight w x)

sound_after :
    (w w' : World)
    → IsSound w
    → AreCaches w'.heap.caches
    → All (IsHeld w'.heap.headers) w'.live
    → ((x : ℕ) → weight w' x ≡ weight w x)
    → Keeps w w'
sound_after w w' v a held same =
    (record { caches = a; held = held; single = λ x. omega (arith, same x, v.single x) }, same)

keep-Keeps :
    (w : World) (size align : ℕ) (r : Option ℕ × Heap)
    → IsSound w
    → Allocates size align w.heap r
    → Keeps w (keep size w.live r)
unfolding block_weight
keep-Keeps w size align (none, heap) v (same, a, k) =
    sound_after w (record { heap = heap; live = w.live }) v a
      (subst (λ h. All (IsHeld h) w.live) (sym same) v.held)
      λ x. omega (arith, k x, ap (λ h. block_weight h w.live x) same)
keep-Keeps w size align (some user, heap) v (addr, kept, headers, m, low, high, a, k) =
    let inside = cover_inside addr kept user (omega arith) (omega arith) in
    let clear : block_weight w.heap.headers w.live user ≡ 0 =
      omega (arith, v.single user, k user, inside) in
    let others = apart w.heap.headers w.live user v.held clear in
    let mine : heap.headers user ≡ (addr, kept) =
      ap (λ h. h user) headers ∙ write_header_self w.heap.headers user (addr, kept) in
    sound_after w (record { heap = heap; live = record { ptr = user; len = size } ∷ w.live }) v a
      (
        subst (λ b. (b.0 + header_size ≤ user) × (user + size < b.0 + b.1)) (sym mine) (low, high),
        subst (λ h. All (IsHeld h) w.live) (sym headers)
            (IsHeld-write w.heap.headers user (addr, kept) w.live others v.held),
      )
      λ x. omega (
        arith,
        k x,
        ap (λ b. cover b.0 b.1 x) mine,
        ap (λ h. block_weight h w.live x) headers,
        block_weight-write w.heap.headers user (addr, kept) w.live x others,
      )

give_up-Keeps :
    (cpu n : ℕ) (w : World) (o : Option Payload)
    → IsSound w
    → get_elem? w.live n ≡ o
    → Keeps w (give_up cpu n w o)
give_up-Keeps cpu n w none v e = (v, λ x. refl)
give_up-Keeps cpu n w (some p) v e =
    let h = get_elem?-IsHeld w.heap.headers w.live n p v.held e in
    let (same, a, k) = dealloc-Returns cpu p.ptr w.heap v.caches (omega (arith, h.0, h.1)) in
    sound_after w (record { heap = dealloc cpu p.ptr w.heap; live = remove_at w.live n }) v a
      (subst (λ hd. All (IsHeld hd) (remove_at w.live n)) (sym same)
        (remove_at-IsHeld w.heap.headers w.live n v.held))
      λ x. omega (
        arith,
        k x,
        remove_at-weight w.heap.headers w.live n p x e,
        ap (λ hd. block_weight hd (remove_at w.live n) x) same,
      )

pub step-Keeps : (w : World) (r : Request) → IsSound w → Keeps w (step w r)
unfolding step
step-Keeps w (allocate cpu size align) v =
    keep-Keeps w size (align_of align) (alloc cpu size align w.heap) v
      (alloc-Allocates cpu size align w.heap v.caches).0
step-Keeps w (release cpu n) v = give_up-Keeps cpu n w (get_elem? w.live n) v refl

pub run-Keeps : (w : World) (requests : List Request) → IsSound w → Keeps w (run w requests)
unfolding run
run-Keeps w [] v = (v, λ x. refl)
run-Keeps w (r ∷ requests) v =
    let first = step-Keeps w r v in
    let (sound, same) = run-Keeps (step w r) requests first.0 in (sound, λ x. same x ∙ first.1 x)

payload-le-block :
    (headers : ℕ → ℕ × ℕ) (live : List Payload) (x : ℕ)
    → All (IsHeld headers) live
    → payload_weight live x ≤ block_weight headers live x
unfolding payload_weight block_weight
payload-le-block headers [] x a = omega arith
payload-le-block headers (p ∷ live) x a = omega (
  arith,
  payload-le-block headers live x a.1,
  cover_mono p.ptr p.len (headers p.ptr).0 (headers p.ptr).1 x (omega (arith, a.0.0))
      (omega (arith, a.0.1)),
)

-- After any history of allocations and releases, on any CPUs and from any sound state: no byte
-- lies in the payloads of two live pointers, nor in a payload and in a block that the heap still
-- keeps, in its free list or in the stack of a CPU.
pub payloads_apart :
    (w : World) (requests : List Request) (x : ℕ)
    → IsSound w
    → payload_weight (run w requests).live x + heap_weight (run w requests).heap x ≤ 1
payloads_apart w requests x v =
    let w' = run w requests in
    let sound = (run-Keeps w requests v).0 in
    omega (arith, sound.single x, payload-le-block w'.heap.headers w'.live x sound.held)

no_live :
    (headers : ℕ → ℕ × ℕ) (live : List Payload) (x : ℕ)
    → live ≡ []
    → block_weight headers live x ≡ 0
unfolding block_weight
no_live headers live x e = rw e refl

-- No byte is lost: when every pointer has been released, the heap keeps exactly the bytes that it
-- kept before the first was handed out, whichever CPUs made the calls.
pub nothing_lost :
    (w : World) (requests : List Request) (x : ℕ)
    → IsSound w
    → w.live ≡ []
    → (run w requests).live ≡ []
    → heap_weight (run w requests).heap x ≡ heap_weight w.heap x
nothing_lost w requests x v none_before none_after =
    let w' = run w requests in
    omega (
      arith,
      (run-Keeps w requests v).1 x,
      no_live w.heap.headers w.live x none_before,
      no_live w'.heap.headers w'.live x none_after,
    )
