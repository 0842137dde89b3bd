-- ===== src/Heap/Clients.antt =====
-- Clients of the heap of crates/kernel/src/memory/allocator.rs: what they hold, over any history
-- of calls on any CPUs.
use kazuos.Prelude.{
  ℕ, zero, suc, ◌+◌, ◌≤◌, ◌<◌, true, false, Option, none, some, List, [], ◌∷◌, ◌==◌, ◌≡◌, ◌≢◌, refl,
  ap, subst, arith, All, get_elem?,
}
use kazuos.Heap.{Heap, header_size, write_header, alloc, dealloc}
use kazuos.Heap.FreeList.{cover}
use kazuos.Heap.Weight.{heap_weight, AreCaches}

-- A pointer that a client holds, with the size that it asked for.
pub record Payload : Type 0 where
  pub ptr : ℕ
  pub len : ℕ

pub record World : Type 0 where
  pub heap : Heap
  pub live : List Payload

-- A call on a CPU: `alloc` with a size and an alignment, or `dealloc` of the `n`-th payload.
pub data Request : Type 0 where
  allocate : ℕ → ℕ → ℕ → Request
  release : ℕ → ℕ → Request

abbrev pub remove_at : List Payload → ℕ → List Payload
remove_at [] n = []
remove_at (p ∷ live) zero = live
remove_at (p ∷ live) (suc n) = p ∷ remove_at live n

abbrev pub keep : ℕ → List Payload → Option ℕ × Heap → World
keep size live (none, heap) = record { heap = heap; live = live }
keep size live (some ptr, heap) = record {
  heap = heap;
  live = record { ptr = ptr; len = size } ∷ live;
}

abbrev pub give_up : ℕ → ℕ → World → Option Payload → World
give_up cpu n w none = w
give_up cpu n w (some p) = record { heap = dealloc cpu p.ptr w.heap; live = remove_at w.live n }

unfoldable pub step : World → Request → World
unfolding alloc dealloc
step w (allocate cpu size align) = keep size w.live (alloc cpu size align w.heap)
step w (release cpu n) = give_up cpu n w (get_elem? w.live n)

unfoldable pub run : World → List Request → World
unfolding step
run w [] = w
run w (r ∷ requests) = run (step w r) requests

-- In how many blocks behind the pointers, and in how many payloads, the byte lies.
unfoldable pub block_weight : (ℕ → ℕ × ℕ) → List Payload → ℕ → ℕ
block_weight headers [] x = 0
block_weight headers (p ∷ live) x =
    cover (headers p.ptr).0 (headers p.ptr).1 x + block_weight headers live x

unfoldable pub payload_weight : List Payload → ℕ → ℕ
payload_weight [] x = 0
payload_weight (p ∷ live) x = cover p.ptr p.len x + payload_weight live x

abbrev pub weight : World → ℕ → ℕ
weight w x = heap_weight w.heap x + block_weight w.heap.headers w.live x

-- The header before the pointer names a block that the payload lies in.
abbrev pub IsHeld : (ℕ → ℕ × ℕ) → Payload → Type 0
IsHeld headers p =
    ((headers p.ptr).0 + header_size ≤ p.ptr)
    × (p.ptr + p.len < (headers p.ptr).0 + (headers p.ptr).1)

pub record IsSound (w : World) : Type 0 where
  pub caches : AreCaches w.heap.caches
  pub held : All (IsHeld w.heap.headers) w.live
  pub single : (x : ℕ) → weight w x ≤ 1

pub cover_inside : (addr size x : ℕ) → addr ≤ x → x < addr + size → cover addr size x ≡ 1
unfolding cover
cover_inside addr size x l h = ground arith

pub cover_mono : (a s b t x : ℕ) → b ≤ a → a + s ≤ b + t → cover a s x ≤ cover b t x
unfolding cover
cover_mono a s b t x l h = ground arith

-- A pointer that no block covers is the pointer of none of them.
pub apart :
    (headers : ℕ → ℕ × ℕ) (live : List Payload) (user : ℕ)
    → All (IsHeld headers) live
    → block_weight headers live user ≡ 0
    → All (λ p. p.ptr ≢ user) live
unfolding block_weight
apart headers [] user a z = tt
apart headers (p ∷ live) user a z = (
  λ e.
      let inside =
        cover_inside (headers p.ptr).0 (headers p.ptr).1 p.ptr (omega (arith, a.0.0))
          (omega (arith, a.0.1)) in
      let here = ap (λ y. cover (headers p.ptr).0 (headers p.ptr).1 y) e in
      omega (arith, inside, here, z),
  apart headers live user a.1 (omega (arith, z)),
)

write_header_ne :
    (headers : ℕ → ℕ × ℕ) (user : ℕ) (block : ℕ × ℕ) (ptr : ℕ)
    → ptr ≢ user
    → write_header user block headers ptr ≡ headers ptr
unfolding write_header
write_header_ne headers user block ptr h = let e : ptr == user ≡ false = ground arith in rw e refl

pub write_header_self :
    (headers : ℕ → ℕ × ℕ) (user : ℕ) (block : ℕ × ℕ) → write_header user block headers user ≡ block
unfolding write_header
write_header_self headers user block = let e : user == user ≡ true = ground arith in rw e refl

module _ (headers : ℕ → ℕ × ℕ) (user : ℕ) (block : ℕ × ℕ) where
  pub block_weight-write :
      (live : List Payload) (x : ℕ)
      → All (λ p. p.ptr ≢ user) live
      → block_weight (write_header user block headers) live x ≡ block_weight headers live x
  unfolding block_weight
  block_weight-write [] x a = refl
  block_weight-write (p ∷ live) x a =
      rw (write_header_ne headers user block p.ptr a.0, block_weight-write live x a.1)

  pub IsHeld-write :
      (live : List Payload)
      → All (λ p. p.ptr ≢ user) live
      → All (IsHeld headers) live
      → All (IsHeld (write_header user block headers)) live
  IsHeld-write [] a h = tt
  IsHeld-write (p ∷ live) a h =
      (rw (write_header_ne headers user block p.ptr a.0) h.0, IsHeld-write live a.1 h.1)

pub remove_at-IsHeld :
    (headers : ℕ → ℕ × ℕ) (live : List Payload) (n : ℕ)
    → All (IsHeld headers) live
    → All (IsHeld headers) (remove_at live n)
remove_at-IsHeld headers [] n a = tt
remove_at-IsHeld headers (p ∷ live) zero a = a.1
remove_at-IsHeld headers (p ∷ live) (suc n) a = (a.0, remove_at-IsHeld headers live n a.1)

pub get_elem?-IsHeld :
    (headers : ℕ → ℕ × ℕ) (live : List Payload) (n : ℕ) (p : Payload)
    → All (IsHeld headers) live
    → get_elem? live n ≡ some p
    → IsHeld headers p
get_elem?-IsHeld headers [] n p a e = absurd (cc)
get_elem?-IsHeld headers (q ∷ live) zero p a e =
    let same : q ≡ p = cc in subst (λ r. IsHeld headers r) same a.0
get_elem?-IsHeld headers (q ∷ live) (suc n) p a e = get_elem?-IsHeld headers live n p a.1 e

pub remove_at-weight :
    (headers : ℕ → ℕ × ℕ) (live : List Payload) (n : ℕ) (p : Payload) (x : ℕ)
    → get_elem? live n ≡ some p
    → block_weight headers live x
      ≡ cover (headers p.ptr).0 (headers p.ptr).1 x + block_weight headers (remove_at live n) x
unfolding block_weight
remove_at-weight headers [] n p x e = cc
remove_at-weight headers (q ∷ live) zero p x e =
    let same : q ≡ p = cc in
    ap (λ r. cover (headers r.ptr).0 (headers r.ptr).1 x + block_weight headers live x) same
remove_at-weight headers (q ∷ live) (suc n) p x e =
    omega (arith, remove_at-weight headers live n p x e)
