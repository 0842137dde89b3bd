-- ===== src/Pmm.antt =====
-- The physical frame allocator of crates/kernel/src/memory/pmm.rs. The state is the static `PMM`:
-- `none` before `init`. The functions that allocate and free run with `LOCK` held, so each is one
-- step. `init`, `mark_used` and `stats` take no lock; they are one step each here as well.
pub mod Bitmap
pub mod Single
pub mod Owners
pub mod Runs
pub mod Regions
mod Tests
use kazuos.Prelude.{
  ℕ, zero, suc, ◌+◌, ◌-◌, ◌*◌, ◌/◌, ◌%◌, ◌^◌, ◌≤◌, ◌<◌, min, ◌≡◌, ◌⊎◌, Bool, true, false, Option,
  none, some, List, [], ◌∷◌, length, ◌==◌, ltb, if◌then◌else◌, replicate, add64, mul64,
}
use Bitmap.{frame_size, set_bit, get_bit, mark_region, div_ceil_frame, IsBitmap}

-- `_bitmap_size` is the length of `bitmap`.
pub record Pmm : Type 0 where
  pub bitmap : List ℕ
  pub total_frames : ℕ
  pub usable_frames : ℕ
  pub next_frame : ℕ

pub record PmmStats : Type 0 where
  pub total_frames : ℕ
  pub used_frames : ℕ
  pub free_frames : ℕ

-- `MemoryMapEntry` of crates/shared/src/lib.rs
pub record MemoryMapEntry : Type 0 where
  pub phys_start : ℕ
  pub page_count : ℕ
  pub ty : ℕ

abbrev pub State : Type 0
State = Option Pmm

abbrev pub ty_conventional : ℕ
ty_conventional = 7

-- One round of the loop of `init` over the memory map, on the bitmap and `usable_frames`.
unfoldable pub mark_entry : ℕ → MemoryMapEntry → List ℕ → ℕ → List ℕ × ℕ
mark_entry total entry bitmap usable =
    if entry.ty == ty_conventional
    then (let (bitmap', changed) =
          mark_region bitmap total entry.phys_start (mul64 entry.page_count frame_size) false in
        (bitmap', usable + changed))
    else (bitmap, usable)

unfoldable pub mark_usable : ℕ → List MemoryMapEntry → List ℕ → ℕ → List ℕ × ℕ
unfolding mark_entry
mark_usable total [] bitmap usable = (bitmap, usable)
mark_usable total (entry ∷ entries) bitmap usable =
    let (bitmap', usable') = mark_entry total entry bitmap usable in
    mark_usable total entries bitmap' usable'

-- `bitmap_phys` is the address of the bitmap's own memory.
unfoldable pub init : ℕ → ℕ → List MemoryMapEntry → State
unfolding mark_usable
init bitmap_phys bitmap_size memory_map =
    let total_frames = bitmap_size * 8 in
    let (bitmap, usable) = mark_usable total_frames memory_map (replicate bitmap_size 255) 0 in
    some (record {
      bitmap =
          (mark_region bitmap total_frames bitmap_phys
            (mul64 (div_ceil_frame bitmap_size) frame_size) true).0;
      total_frames = total_frames;
      usable_frames = usable;
      next_frame = 0;
    })

-- The frames `at (start + i) % total` in order of `i`: the first that is free.
unfoldable pub first_free : List ℕ → ℕ → ℕ → ℕ → ℕ → Option ℕ
first_free bitmap total start i zero = none
first_free bitmap total start i (suc n) =
    let rest = first_free bitmap total start (i + 1) n in
    let frame = add64 start i % total in if get_bit bitmap frame then rest else some frame

unfoldable pub take_frame : Pmm → ℕ → Pmm
take_frame pmm frame = record pmm { bitmap = set_bit pmm.bitmap frame true }

-- The first free frame of the `n` from `frame` on.
unfoldable pub first_below : List ℕ → ℕ → ℕ → Option ℕ
first_below bitmap frame zero = none
first_below bitmap frame (suc n) =
    let rest = first_below bitmap (frame + 1) n in if get_bit bitmap frame then rest else some frame

unfoldable pub alloc_frame_below : ℕ → State → Option ℕ × State
unfolding first_below take_frame
alloc_frame_below limit none = (none, none)
alloc_frame_below limit (some pmm) =
    let limit_frame = min (limit / frame_size) pmm.total_frames in
    elim (first_below pmm.bitmap 0 limit_frame) [
      | none ↦ (none, some pmm)
      | some frame ↦ (some (mul64 frame frame_size), some (take_frame pmm frame))
    ]

unfoldable pub alloc_frame : State → Option ℕ × State
unfolding first_free take_frame
alloc_frame none = (none, none)
alloc_frame (some pmm) =
    elim (first_free pmm.bitmap pmm.total_frames pmm.next_frame 0 pmm.total_frames) [
      | none ↦ (none, some pmm)
      | some frame ↦ (
        some (mul64 frame frame_size),
        some (record (take_frame pmm frame) { next_frame = add64 frame 1 % pmm.total_frames }),
      )
    ]

unfoldable pub free_frame : ℕ → State → State
free_frame addr none = none
free_frame addr (some pmm) =
    let frame = addr / frame_size in
    some (
      if ltb frame pmm.total_frames
      then record pmm { bitmap = set_bit pmm.bitmap frame false }
      else pmm)

-- The scan of the `count` frames from `frame` on: whether all are free.
unfoldable pub run_free : List ℕ → ℕ → ℕ → Bool
run_free bitmap frame zero = true
run_free bitmap frame (suc n) =
    let rest = run_free bitmap (frame + 1) n in if get_bit bitmap frame then false else rest

unfoldable pub take_run : List ℕ → ℕ → ℕ → List ℕ
take_run bitmap frame zero = bitmap
take_run bitmap frame (suc n) = take_run (set_bit bitmap frame true) (frame + 1) n

-- The `'outer` loop, over the `n` starts from `start` on.
unfoldable pub first_run : List ℕ → ℕ → ℕ → ℕ → Option ℕ
unfolding run_free
first_run bitmap count start zero = none
first_run bitmap count start (suc n) =
    let rest = first_run bitmap count (start + 1) n in
    if run_free bitmap start count then some start else rest

unfoldable pub alloc_frames : ℕ → State → Option ℕ × State
unfolding first_run take_run
alloc_frames count none = (none, none)
alloc_frames count (some pmm) = elim (first_run pmm.bitmap count 0 (pmm.total_frames - count)) [
  | none ↦ (none, some pmm)
  | some start ↦ (
    some (mul64 start frame_size),
    some (record pmm {
      bitmap = take_run pmm.bitmap start count;
      next_frame = add64 start count % pmm.total_frames;
    }),
  )
]

-- The `n` frames from the `i`-th on.
unfoldable pub free_from : ℕ → ℕ → ℕ → State → State
unfolding free_frame
free_from addr i zero s = s
free_from addr i (suc n) s =
    free_from addr (i + 1) n (free_frame (add64 addr (mul64 i frame_size)) s)

unfoldable pub free_frames : ℕ → ℕ → State → State
unfolding free_from
free_frames addr count s = free_from addr 0 count s

-- `none` is the panic of `unwrap` before `init`.
unfoldable pub mark_used : ℕ → ℕ → State → Option State
mark_used phys_start size none = none
mark_used phys_start size (some pmm) = some (
    some (record pmm { bitmap = (mark_region pmm.bitmap pmm.total_frames phys_start size true).0 }))

-- How many of the `n` frames from `frame` on are free.
unfoldable pub count_free : List ℕ → ℕ → ℕ → ℕ
count_free bitmap frame zero = 0
count_free bitmap frame (suc n) =
    (if get_bit bitmap frame then 0 else 1) + count_free bitmap (frame + 1) n

unfoldable pub stats : State → Option PmmStats
unfolding count_free
stats none = none
stats (some pmm) =
    let free = count_free pmm.bitmap 0 pmm.total_frames in
    some (record {
      total_frames = pmm.usable_frames;
      used_frames = pmm.usable_frames - free;
      free_frames = free;
    })

-- What `init` sets up and every operation keeps. Addresses are 64 bits wide, so a machine has at
-- most 2^52 frames.
pub record IsValid (pmm : Pmm) : Type 0 where
  pub bytes : IsBitmap pmm.bitmap
  pub covers : pmm.total_frames ≡ 8 * length pmm.bitmap
  pub small : pmm.total_frames ≤ 2 ^ 52
  pub next_in : (pmm.next_frame ≡ 0) ⊎ (pmm.next_frame < pmm.total_frames)
