-- ===== src/Heap/Tests.antt =====
-- Runs of the heap.
use kazuos.Prelude.{ℕ, ◌+◌, ◌≤◌, ◌<◌, List, [], ◌∷◌, ◌≡◌, refl, arith, replicate}
use kazuos.Heap.{empty_cache, Heap, header_size, init, align_of, need_of, cpu_index, alloc}
use kazuos.Heap.FreeList.{cover, free_weight}
use kazuos.Heap.Weight.{
  heap_weight, caches_weight, classes_weight, stack_weight, AreCaches, empty_cache-IsCache,
}
use kazuos.Heap.Clients.{
  World, Request, allocate, release, run, IsSound, payload_weight, block_weight,
}
use kazuos.Heap.Refuse.{RefusesOnly}
use kazuos.Heap.Calls.{Allocates, alloc-Allocates}
use kazuos.Heap.Safety.{payloads_apart, nothing_lost}

abbrev fresh : Heap
fresh = record {
  nodes = record { addr = 4096; size = 4096 } ∷ [];
  caches = replicate 16 empty_cache;
  headers = λ ptr. (0, 0);
}

abbrev world : World
world = record { heap = fresh; live = [] }

init_makes_one_node :
    (init 4096 4096 (record fresh { nodes = [] })).nodes ≡ record { addr = 4096; size = 4096 } ∷ []
unfolding init
init_makes_one_node = refl

fresh-AreCaches : AreCaches fresh.caches
fresh-AreCaches =
    let e = empty_cache-IsCache in
    record {
      sixteen = refl;
      each = (e, (e, (e, (e, (e, (e, (e, (e, (e, (e, (e, (e, (e, (e, (e, (e, tt))))))))))))))));
    }

world-single : (x : ℕ) → heap_weight fresh x + block_weight fresh.headers [] x ≤ 1
unfolding free_weight cover caches_weight classes_weight stack_weight block_weight
world-single x = ground arith

world-IsSound : IsSound world
world-IsSound = record { caches = fresh-AreCaches; held = tt; single = world-single }

-- A small block goes through the stack of CPU 3; a large one is carved from the pool.
abbrev requests : List Request
requests =
    allocate 3 40 8
    ∷ allocate 1 3000 64
    ∷ release 3 1
    ∷ allocate 3 10 16
    ∷ release 0 0
    ∷ release 2 0
    ∷ []

carved :
    (run world (allocate 3 40 8 ∷ allocate 1 3000 64 ∷ [])).heap.nodes
    ≡ record { addr = 7240; size = 952 } ∷ []
unfolding run
carved = refl

payloads_apart_example :
    payload_weight (run world requests).live 4112 + heap_weight (run world requests).heap 4112 ≤ 1
payloads_apart_example = payloads_apart world requests 4112 world-IsSound

nothing_lost_example : heap_weight (run world requests).heap 4112 ≡ heap_weight world.heap 4112
unfolding run
nothing_lost_example = nothing_lost world requests 4112 world-IsSound refl refl

alloc-Allocates_example :
    let align = align_of 8 in
    let need = need_of 40 align in
    let answer = alloc 3 40 8 fresh in
    Allocates 40 align fresh answer
    × RefusesOnly (cpu_index 3) need fresh answer
    × (need < header_size + 40 + align + 8)
alloc-Allocates_example = alloc-Allocates 3 40 8 fresh fresh-AreCaches
