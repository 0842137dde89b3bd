-- ===== src/Heap.antt =====
-- The kernel heap of crates/kernel/src/memory/allocator.rs: an address-sorted free list, and on
-- each CPU stacks of blocks of six sizes. The locks and the disabled interrupts make each of
-- `alloc` and `dealloc` one step. The links that the source keeps inside free blocks are the order
-- of the lists here. Sizes obey the contract of `Layout`, so that no sum of the source wraps.
pub mod FreeList
pub mod Weight
pub mod Refuse
pub mod Calls
pub mod Clients
pub mod Safety
mod Tests
use kazuos.Prelude.{
  ℕ, zero, suc, ◌+◌, ◌-◌, ◌%◌, ◌<◌, max, Bool, true, false, Option, none, some, List, [], ◌∷◌, ◌==◌,
  ltb, leb, if◌then◌else◌, get_or, set,
}

-- A `FreeNode` and the address it stands at.
pub record Node : Type 0 where
  pub addr : ℕ
  pub size : ℕ

abbrev pub max_cpus : ℕ
max_cpus = 16

abbrev pub class_sizes : List ℕ
class_sizes = 64 ∷ 128 ∷ 256 ∷ 512 ∷ 1024 ∷ 2048 ∷ []

abbrev pub cache_cap : ℕ
cache_cap = 64

-- `size_of` of `FreeNode` and of `AllocHeader`, and their alignment.
abbrev pub node_size : ℕ
node_size = 16

abbrev pub header_size : ℕ
header_size = 16

abbrev pub word_align : ℕ
word_align = 8

-- `& !(align - 1)` clears the low bits: `align` is a power of two.
unfoldable pub align_up : ℕ → ℕ → ℕ
align_up v align = v + align - 1 - (v + align - 1) % align

-- `CLASS_SIZES.iter().position(...)`
unfoldable pub position : (ℕ → Bool) → List ℕ → Option ℕ
position p [] = none
position p (c ∷ sizes) =
    if p c then some 0 else elim (position p sizes) [ none ↦ none | some i ↦ some (suc i) ]

unfoldable pub class_for : ℕ → Option ℕ
unfolding position
class_for need = position (λ c. leb need c) class_sizes

unfoldable pub exact_class : ℕ → Option ℕ
unfolding position
exact_class size = position (λ c. c == size) class_sizes

-- The new node before `cur`, joined with it if they touch.
abbrev pub link : ℕ → ℕ → List Node → List Node
link addr size [] = record { addr = addr; size = size } ∷ []
link addr size (cur ∷ nodes) =
    if addr + size == cur.addr
    then record { addr = addr; size = size + cur.size } ∷ nodes
    else record { addr = addr; size = size } ∷ cur ∷ nodes

-- The node before the new one, joined with it if they touch.
abbrev pub join_prev : Node → List Node → List Node
join_prev prev [] = prev ∷ []
join_prev prev (node ∷ nodes) =
    if prev.addr + prev.size == node.addr
    then record { addr = prev.addr; size = prev.size + node.size } ∷ nodes
    else prev ∷ node ∷ nodes

-- `prev` is passed while the next node is below `addr` too.
unfoldable pub insert_after : ℕ → ℕ → Node → List Node → List Node
insert_after addr size prev [] = join_prev prev (link addr size [])
insert_after addr size prev (cur ∷ nodes) =
    let rest = insert_after addr size cur nodes in
    if ltb cur.addr addr then prev ∷ rest else join_prev prev (link addr size (cur ∷ nodes))

abbrev pub insert_sorted : ℕ → ℕ → List Node → List Node
insert_sorted addr size [] = link addr size []
insert_sorted addr size (cur ∷ nodes) =
    if ltb cur.addr addr then insert_after addr size cur nodes else link addr size (cur ∷ nodes)

unfoldable pub insert_nolock : ℕ → ℕ → List Node → List Node
unfolding insert_after
insert_nolock addr size nodes = if ltb size node_size then nodes else insert_sorted addr size nodes

-- The first node that is large enough, and the list without it.
unfoldable pub first_fit : ℕ → List Node → Option (Node × List Node)
first_fit need [] = none
first_fit need (cur ∷ nodes) =
    let rest = first_fit need nodes in
    if leb need cur.size
    then some (cur, nodes)
    else elim rest [ none ↦ none | some (found, others) ↦ some (found, cur ∷ others) ]

abbrev pub carve : ℕ → List Node → Option (Node × List Node) → Option (ℕ × ℕ) × List Node
carve need nodes none = (none, nodes)
carve need nodes (some (found, others)) =
    let rem = found.size - need in
    if leb node_size rem
    then (some (found.addr, need), insert_nolock (found.addr + need) rem others)
    else (some (found.addr, found.size), others)

unfoldable pub take_raw : ℕ → List Node → Option (ℕ × ℕ) × List Node
unfolding first_fit insert_nolock
take_raw need nodes = carve need nodes (first_fit need nodes)

-- The stacks of one CPU, each with its count.
pub record Cache : Type 0 where
  pub heads : List (List ℕ)
  pub counts : List ℕ

abbrev pub empty_cache : Cache
empty_cache = record {
  heads = [] ∷ [] ∷ [] ∷ [] ∷ [] ∷ [] ∷ [];
  counts = 0 ∷ 0 ∷ 0 ∷ 0 ∷ 0 ∷ 0 ∷ [];
}

-- `headers` has the `AllocHeader` before each pointer that was handed out.
pub record Heap : Type 0 where
  pub nodes : List Node
  pub caches : List Cache
  pub headers : ℕ → ℕ × ℕ

unfoldable pub init : ℕ → ℕ → Heap → Heap
unfolding insert_nolock
init heap_start heap_size heap = record heap {
  nodes = insert_nolock heap_start heap_size heap.nodes;
}

unfoldable pub cpu_index : ℕ → ℕ
cpu_index i = if ltb i max_cpus then i else 0

unfoldable pub write_header : ℕ → ℕ × ℕ → (ℕ → ℕ × ℕ) → ℕ → ℕ × ℕ
write_header user header headers ptr = if ptr == user then header else headers ptr

unfoldable pub finish_alloc : ℕ → ℕ → ℕ → Heap → Option ℕ × Heap
unfolding align_up write_header
finish_alloc addr block_size align heap =
    let user = align_up (addr + header_size) align in
    (some user, record heap { headers = write_header user (addr, block_size) heap.headers })

-- The global pool, with the new list of nodes put back.
abbrev pub from_pool : ℕ → Heap → Option (ℕ × ℕ) × List Node → Option ℕ × Heap
from_pool align heap (none, nodes) = (none, record heap { nodes = nodes })
from_pool align heap (some (addr, kept), nodes) =
    finish_alloc addr kept align (record heap { nodes = nodes })

abbrev pub set_class : Cache → ℕ → List ℕ → ℕ → Cache
set_class cache ci head count = record {
  heads = set cache.heads ci head;
  counts = set cache.counts ci count;
}

abbrev pub put_cache : ℕ → Cache → Heap → Heap
put_cache cpu cache heap = record heap { caches = set heap.caches cpu cache }

-- The class `ci` has the size `cs`: its stack, or the pool if that is empty.
abbrev pub pop_class : ℕ → Cache → ℕ → ℕ → ℕ → Heap → List ℕ → Option ℕ × Heap
pop_class cpu cache ci cs align heap [] = from_pool align heap (take_raw cs heap.nodes)
pop_class cpu cache ci cs align heap (addr ∷ head) =
    finish_alloc addr cs align
      (put_cache cpu (set_class cache ci head (get_or cache.counts ci 0 - 1)) heap)

abbrev pub alloc_class : ℕ → ℕ → ℕ → Heap → Option ℕ → Option ℕ × Heap
alloc_class cpu need align heap none = from_pool align heap (take_raw need heap.nodes)
alloc_class cpu need align heap (some ci) =
    let cache = get_or heap.caches cpu empty_cache in
    pop_class cpu cache ci (get_or class_sizes ci 0) align heap (get_or cache.heads ci [])

abbrev pub align_of : ℕ → ℕ
align_of layout_align = max (max layout_align word_align) word_align

unfoldable pub need_of : ℕ → ℕ → ℕ
unfolding align_up
need_of size layout_align = align_up (header_size + size + align_of layout_align) word_align

-- The arguments are `current_cpu_index()`, and the size and the alignment of the layout; a null
-- pointer is `none`.
unfoldable pub alloc : ℕ → ℕ → ℕ → Heap → Option ℕ × Heap
unfolding class_for need_of take_raw finish_alloc cpu_index
alloc cpu size layout_align heap =
    let need = need_of size layout_align in
    alloc_class (cpu_index cpu) need (align_of layout_align) heap (class_for need)

abbrev pub give_raw : ℕ → ℕ → Heap → Heap
give_raw addr size heap = record heap { nodes = insert_nolock addr size heap.nodes }

abbrev pub push_class : ℕ → Cache → ℕ → ℕ → ℕ → Heap → Heap
push_class cpu cache ci addr size heap =
    let count = get_or cache.counts ci 0 in
    if ltb count cache_cap
    then put_cache cpu (set_class cache ci (addr ∷ get_or cache.heads ci []) (count + 1)) heap
    else give_raw addr size heap

abbrev pub free_class : ℕ → ℕ → ℕ → Heap → Option ℕ → Heap
free_class cpu addr size heap none = give_raw addr size heap
free_class cpu addr size heap (some ci) =
    push_class cpu (get_or heap.caches cpu empty_cache) ci addr size heap

unfoldable pub dealloc : ℕ → ℕ → Heap → Heap
unfolding exact_class insert_nolock cpu_index
dealloc cpu ptr heap =
    let (addr, size) = heap.headers ptr in
    free_class (cpu_index cpu) addr size heap (exact_class size)
