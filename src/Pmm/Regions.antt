-- ===== src/Pmm/Regions.antt =====
-- Whole regions and totals: `init`, `mark_used` and `stats` of crates/kernel/src/memory/pmm.rs.
use native.Mathlib.Decide.{ℕ_discrete}
use kazuos.Prelude.{
  ℕ, zero, suc, ◌+◌, ◌*◌, ◌^◌, ◌≤◌, ◌<◌, ◌≡◌, refl, ◌⊎◌, inl, inr, ap, ◌∙◌, Bool, true, false, not,
  ◌&&◌, ◌||◌, Option, none, some, List, [], ◌∷◌, arith, length, ◌==◌, if◌then◌else◌, replicate,
  length-replicate, mul64, Bool-cases,
}
use kazuos.Pmm.Bitmap.{frame_size, get_bit, IsBitmap, div_ceil_frame}
use kazuos.Pmm.Bitmap.Laws.{
  Marks, in_region, mark_region-Marks, get_bit-replicate, replicate-IsBitmap,
}
use kazuos.Pmm.{
  Pmm, PmmStats, MemoryMapEntry, State, ty_conventional, mark_entry, mark_usable, init, mark_used,
  count_free, stats, alloc_frame, IsValid,
}
use kazuos.Pmm.Single.{Allocs, exhausted, granted, alloc_frame-Allocs}

abbrev pub is_usable : ℕ → MemoryMapEntry → ℕ → Bool
is_usable total entry j =
    entry.ty == ty_conventional
    && in_region total entry.phys_start (mul64 entry.page_count frame_size) j

-- Whether the memory map calls the frame `j` usable RAM.
abbrev pub in_usable : ℕ → List MemoryMapEntry → ℕ → Bool
in_usable total [] j = false
in_usable total (entry ∷ entries) j = is_usable total entry j || in_usable total entries j

entry-Marks :
    (total : ℕ) (entry : MemoryMapEntry) (m : List ℕ) (u : ℕ)
    → IsBitmap m
    → total ≡ 8 * length m
    → Marks m (is_usable total entry) false (mark_entry total entry m u).0
unfolding mark_entry
entry-Marks total entry m u h e = elim (Bool-cases (entry.ty == ty_conventional)) [
  | inl usable ↦
      let size = mul64 entry.page_count frame_size in
      let r = mark_region-Marks m total entry.phys_start size false h e in
      rw (usable, mark_entry)
        (record {
          bytes = r.bytes;
          same_length = r.same_length;
          bits = λ j. r.bits j ∙ chosen (entry.ty == ty_conventional) _ _ usable;
        })
  | inr other ↦
      rw (other, mark_entry)
        (record {
          bytes = h;
          same_length = refl;
          bits = λ j. skipped (entry.ty == ty_conventional) _ _ other;
        })
]
  where
    chosen : (b i x : Bool) → b ≡ true → (if i then false else x) ≡ (if b && i then false else x)
    chosen b i x e = ground arith

    skipped : (b i x : Bool) → b ≡ false → x ≡ (if b && i then false else x)
    skipped b i x e = ground arith

mark_usable-Marks :
    (total : ℕ) (entries : List MemoryMapEntry) (m : List ℕ) (u : ℕ)
    → IsBitmap m
    → total ≡ 8 * length m
    → Marks m (in_usable total entries) false (mark_usable total entries m u).0
unfolding mark_usable
mark_usable-Marks total [] m u h e = record { bytes = h; same_length = refl; bits = λ j. refl }
mark_usable-Marks total (entry ∷ entries) m u h e =
    let here = entry-Marks total entry m u h e in
    let rest =
      mark_usable-Marks total entries (mark_entry total entry m u).0 (mark_entry total entry m u).1
        here.bytes (omega (arith, here.same_length)) in
    record {
      bytes = rest.bytes;
      same_length = rest.same_length ∙ here.same_length;
      bits = λ j.
          rest.bits j
          ∙ joined (in_usable total entries j) (is_usable total entry j) (get_bit m j)
              (here.bits j);
    }
  where
    joined :
        (a b y : Bool) {x : Bool}
        → x ≡ (if b then false else y)
        → (if a then false else x) ≡ (if b || a then false else y)
    joined a b y e = ground arith

-- After `init` a frame of the memory is free exactly if the memory map calls it usable RAM and the
-- bitmap itself does not lie in it; the allocator is valid.
pub init_lem :
    (bitmap_phys bitmap_size : ℕ) (entries : List MemoryMapEntry)
    → bitmap_size ≤ 2 ^ 49
    → (pmm : Pmm) × (init bitmap_phys bitmap_size entries ≡ some pmm)
      × IsValid pmm
      × (pmm.total_frames ≡ 8 * bitmap_size)
      × ((j : ℕ)
          → get_bit pmm.bitmap j ≡ (
              in_region
                (bitmap_size * 8)
                bitmap_phys
                (mul64 (div_ceil_frame bitmap_size) frame_size)
                j
              || not (in_usable (bitmap_size * 8) entries j)))
unfolding init
init_lem bitmap_phys bitmap_size entries h =
    let total = bitmap_size * 8 in
    let full : List ℕ = replicate bitmap_size 255 in
    let usable =
      mark_usable-Marks total entries full 0 (replicate-IsBitmap bitmap_size)
        (omega (arith, length-replicate {A = ℕ} bitmap_size 255)) in
    let reserved =
      mark_region-Marks (mark_usable total entries full 0).0 total bitmap_phys
        (mul64 (div_ceil_frame bitmap_size) frame_size) true usable.bytes
        (omega (arith, usable.same_length, length-replicate {A = ℕ} bitmap_size 255)) in
    (
      _,
      refl,
      record {
        bytes = reserved.bytes;
        covers = omega (
          arith,
          reserved.same_length,
          usable.same_length,
          length-replicate {A = ℕ} bitmap_size 255,
        );
        small = omega arith;
        next_in = inl refl;
      },
      omega arith,
      λ j. ground (arith, reserved.bits j, usable.bits j, get_bit-replicate bitmap_size j),
    )

-- `mark_used` reserves the frames of a region and leaves the others alone.
pub mark_used_lem :
    (pmm : Pmm) (phys_start size : ℕ)
    → IsValid pmm
    → (pmm' : Pmm) × (mark_used phys_start size (some pmm) ≡ some (some pmm'))
      × IsValid pmm'
      × ((j : ℕ)
          → get_bit pmm'.bitmap j
            ≡ (in_region pmm.total_frames phys_start size j || get_bit pmm.bitmap j))
unfolding mark_used
mark_used_lem pmm phys_start size v =
    let r = mark_region-Marks pmm.bitmap pmm.total_frames phys_start size true v.bytes v.covers in
    (
      _,
      refl,
      record {
        bytes = r.bytes;
        covers = omega (arith, v.covers, r.same_length);
        small = v.small;
        next_in = v.next_in;
      },
      λ j. ground (arith, r.bits j),
    )

module _ (m m' : List ℕ) (f : ℕ)
    (taken : (j : ℕ) → get_bit m' j ≡ (if f == j then true else get_bit m j))
    (free : get_bit m f ≡ false) where
  count_free-beyond : (a n : ℕ) → f < a → count_free m' a n ≡ count_free m a n
  unfolding count_free
  count_free-beyond a zero h = refl
  count_free-beyond a (suc n) h = ground (arith, taken a, count_free-beyond (a + 1) n)

  count_free-taken : (a n : ℕ) → a ≤ f → f < a + n → count_free m' a n + 1 ≡ count_free m a n
  unfolding count_free
  count_free-taken a zero p q = absurd (omega arith)
  count_free-taken a (suc n) p q = elim (ℕ_discrete a f) [
    | yes here ↦ ground (arith, taken a, count_free-beyond (a + 1) n, free, ap (get_bit m) here)
    | no there ↦ ground (arith, taken a, count_free-taken (a + 1) n)
  ]

count_free_none :
    (m : List ℕ) (a n : ℕ) → ((j : ℕ) → j < a + n → get_bit m j ≡ true) → count_free m a n ≡ 0
unfolding count_free
count_free_none m a zero h = refl
count_free_none m a (suc n) h =
    ground (arith, h a (omega arith), count_free_none m (a + 1) n (λ j lt. h j (omega arith)))

-- What one `alloc_frame` does to the totals of `stats`.
abbrev pub Counts : Pmm → Option ℕ × State → Type 0
Counts pmm r =
    (before : PmmStats) × (after : PmmStats) × (stats (some pmm) ≡ some before)
    × (stats r.1 ≡ some after)
    × (after.total_frames ≡ before.total_frames)
    × (((r.0 ≡ none) × (before.free_frames ≡ 0) × (after.free_frames ≡ 0))
        ⊎ ((addr : ℕ) × (r.0 ≡ some addr) × (after.free_frames + 1 ≡ before.free_frames)))

Allocs-Counts : (pmm : Pmm) {r : Option ℕ × State} → Allocs pmm r → Counts pmm r
unfolding stats
Allocs-Counts pmm (exhausted h) =
    let none_left = count_free_none pmm.bitmap 0 pmm.total_frames (λ j lt. h j (omega arith)) in
    (_, _, refl, refl, refl, inl (refl, none_left, none_left))
Allocs-Counts pmm (granted f pmm' lt free t) = (
  _,
  _,
  refl,
  refl,
  t.same_usable,
  inr (
    f * frame_size,
    refl,
    rw t.same_total (
        count_free-taken pmm.bitmap pmm'.bitmap f t.bits free 0 pmm.total_frames (omega arith)
          (omega arith)),
  ),
)

-- `stats` agrees with `alloc_frame`: the call fails exactly when no frame is counted as free, and
-- a call that succeeds lowers the count of free frames by one; the total stays.
pub stats-alloc_frame : (pmm : Pmm) → IsValid pmm → Counts pmm (alloc_frame (some pmm))
stats-alloc_frame pmm v = Allocs-Counts pmm (alloc_frame-Allocs pmm v)
