-- ===== src/Pmm/Runs.antt =====
-- Contiguous frames: `alloc_frames` and `free_frames` of crates/kernel/src/memory/pmm.rs.
use native.Mathlib.Decide.{ℕ_discrete}
use native.Mathlib.Nat.{mod-lt}
use kazuos.Prelude.{
  ℕ, zero, suc, ◌+◌, ◌-◌, ◌*◌, ◌/◌, ◌≤◌, ◌<◌, ◌≡◌, refl, inl, inr, subst, ◌∙◌, Bool, true, false,
  Option, none, some, List, arith, length, if◌then◌else◌, add64, mul64, Bool-cases, Option-cases,
}
use kazuos.Pmm.Bitmap.{frame_size, set_bit, get_bit, IsBitmap}
use kazuos.Pmm.Bitmap.Laws.{length-set_bit, set_bit-IsBitmap, get_bit-set_bit, in_run}
use kazuos.Pmm.Single.{Sets, free_frame-Sets, address-mul64}
use kazuos.Pmm.{
  Pmm, State, run_free, take_run, first_run, alloc_frames, free_from, free_frames, IsValid,
}

-- The `count` frames from `start` on are free.
abbrev pub IsRun : List ℕ → ℕ → ℕ → Type 0
IsRun m start count = (j : ℕ) → start ≤ j → j < start + count → get_bit m j ≡ false

run_free-true : (m : List ℕ) (start n : ℕ) → run_free m start n ≡ true → IsRun m start n
unfolding run_free
run_free-true m start zero e j p q = absurd (omega arith)
run_free-true m start (suc n) e j p q = elim (ℕ_discrete start j) [
  | yes same ↦ rw (← same) (ground arith)
  | no other ↦ run_free-true m (start + 1) n (ground arith) j (omega arith) (omega arith)
]

run_free-false :
    (m : List ℕ) (start n : ℕ)
    → run_free m start n ≡ false
    → (j : ℕ) × (start ≤ j) × (j < start + n) × (get_bit m j ≡ true)
unfolding run_free
run_free-false m start zero e = cc
run_free-false m start (suc n) e = elim (Bool-cases (get_bit m start)) [
  | inl used ↦ (start, omega arith, omega arith, used)
  | inr free ↦
      let (j, lo, hi, at) = run_free-false m (start + 1) n (ground arith) in
      (j, omega arith, omega arith, at)
]

first_run-some :
    (m : List ℕ) (count start n : ℕ) {at : ℕ}
    → first_run m count start n ≡ some at
    → (start ≤ at) × (at < start + n) × IsRun m at count
unfolding first_run
first_run-some m count start zero e = cc
first_run-some m count start (suc n) {at} e = elim (Bool-cases (run_free m start count)) [
  | inl free ↦
      let here : start ≡ at = ground arith in
      (
        omega arith,
        omega arith,
        subst (λ s. IsRun m s count) here (run_free-true m start count free),
      )
  | inr used ↦
      let (lo, hi, run) = first_run-some m count (start + 1) n {at = at} (ground arith) in
      (omega arith, omega arith, run)
]

first_run-none :
    (m : List ℕ) (count start n : ℕ)
    → first_run m count start n ≡ none
    → (s : ℕ) → start ≤ s
    → s < start + n
    → (j : ℕ) × (s ≤ j) × (j < s + count) × (get_bit m j ≡ true)
unfolding first_run
first_run-none m count start zero e s p q = absurd (omega arith)
first_run-none m count start (suc n) e s p q = elim (Bool-cases (run_free m start count)) [
  | inl free ↦ ground arith
  | inr used ↦ elim (ℕ_discrete start s) [
    | yes same ↦ rw (← same) (run_free-false m start count used)
    | no other ↦ first_run-none m count (start + 1) n (ground arith) s (omega arith) (omega arith)
  ]
]

-- The state after a run is taken or given back.
pub record SetsRun (pmm : Pmm) (start n : ℕ) (v : Bool) (pmm' : Pmm) : Type 0 where
  pub bits :
      (j : ℕ) → get_bit pmm'.bitmap j ≡ (if in_run start n j then v else get_bit pmm.bitmap j)
  pub same_total : pmm'.total_frames ≡ pmm.total_frames
  pub valid : IsValid pmm'

take_run_lem :
    (m : List ℕ) (start n : ℕ)
    → IsBitmap m
    → start + n ≤ 8 * length m
    → IsBitmap (take_run m start n)
      × (length (take_run m start n) ≡ length m)
      × ((j : ℕ)
          → get_bit (take_run m start n) j ≡ (if in_run start n j then true else get_bit m j))
unfolding take_run
take_run_lem m start zero h le = (h, refl, λ j. ground arith)
take_run_lem m start (suc n) h le =
    let (b, l, bits) =
      take_run_lem (set_bit m start true) (start + 1) n (set_bit-IsBitmap m start true h)
        (omega (arith, length-set_bit m start true)) in
    (
      b,
      omega (arith, length-set_bit m start true),
      λ j. ground (arith, bits j, get_bit-set_bit m start j true h (omega arith)),
    )

-- What `alloc_frames` answers. A start is tried only below `total - count`.
pub data AllocsRun (pmm : Pmm) (count : ℕ) : Option ℕ × State → Type 0 where
  no_run :
      ((s : ℕ)
        → s < pmm.total_frames - count
        → (j : ℕ) × (s ≤ j) × (j < s + count) × (get_bit pmm.bitmap j ≡ true))
      → AllocsRun pmm count (none, some pmm)
  run_at :
      (start : ℕ) (pmm' : Pmm)
      → start + count < pmm.total_frames
      → IsRun pmm.bitmap start count
      → SetsRun pmm start count true pmm'
      → AllocsRun pmm count (some (start * frame_size), some pmm')

-- `alloc_frames` takes a run of `count` free frames inside the memory, changes no other frame and
-- keeps the allocator valid; it fails only if each run it tries has a used frame.
pub alloc_frames-AllocsRun :
    (pmm : Pmm) (count : ℕ) → IsValid pmm → AllocsRun pmm count (alloc_frames count (some pmm))
unfolding alloc_frames
alloc_frames-AllocsRun pmm count v = elim (Option-cases scan) [
  | inl e ↦
      rw (e, alloc_frames)
        (no_run
          λ s lt. first_run-none pmm.bitmap count 0 (total - count) e s (omega arith) (omega arith))
  | inr (start, e) ↦
      let (lo, hi, run) = first_run-some pmm.bitmap count 0 (total - count) e in
      let (b, l, bits) = take_run_lem pmm.bitmap start count v.bytes (omega (arith, v.covers)) in
      rw (e, alloc_frames, address-mul64 start total v.small (omega arith))
        (run_at start _ (omega arith) run (record {
          bits = bits;
          same_total = refl;
          valid = record {
            bytes = b;
            covers = omega (arith, v.covers);
            small = v.small;
            next_in = inr (mod-lt _ (omega arith));
          };
        }))
]
  where
    total : ℕ
    total = pmm.total_frames

    scan : Option ℕ
    scan = first_run pmm.bitmap count 0 (total - count)

-- The bound `total_frames.saturating_sub(count)` leaves out the last start: when the only free
-- frames are the last `count` of the memory, `alloc_frames` finds none.
pub alloc_frames_misses_last :
    (pmm : Pmm) (count : ℕ)
    → IsValid pmm
    → 0 < count
    → count ≤ pmm.total_frames
    → ((j : ℕ) → j < pmm.total_frames - count → get_bit pmm.bitmap j ≡ true)
    → IsRun pmm.bitmap (pmm.total_frames - count) count
    → alloc_frames count (some pmm) ≡ (none, some pmm)
alloc_frames_misses_last pmm count v pos le used run = fails (alloc_frames-AllocsRun pmm count v)
  where
    fails :
        {r : Option ℕ × State}
        → AllocsRun pmm count r
        → ◌≡◌ {A = Option ℕ × State} r (none, some pmm)
    fails (no_run h) = refl
    fails (run_at start pmm' lt free t) =
        absurd (ground (arith, used start (omega arith), free start (omega arith) (omega arith)))

module _ (start : ℕ) where
  free_from-SetsRun :
      (pmm : Pmm) (i n : ℕ)
      → IsValid pmm
      → start + i + n ≤ pmm.total_frames
      → (pmm' : Pmm) × (free_from (start * frame_size) i n (some pmm) ≡ some pmm')
        × SetsRun pmm (start + i) n false pmm'
  unfolding free_from
  free_from-SetsRun pmm i zero v le =
      (pmm, refl, record { bits = λ j. ground arith; same_total = refl; valid = v })
  free_from-SetsRun pmm i (suc n) v le =
      let small = v.small in
      let frame : add64 (start * frame_size) (mul64 i frame_size) / frame_size ≡ start + i =
        omega arith in
      let (mid, e, t) = free_frame-Sets pmm _ v (rw frame (omega arith)) in
      let t' : Sets pmm (start + i) false mid = subst (λ f. Sets pmm f false mid) frame t in
      let (pmm', e', r) = free_from-SetsRun mid (i + 1) n t.valid (omega (arith, t.same_total)) in
      (
        pmm',
        rw e e',
        record {
          bits = λ j. ground (arith, r.bits j, t'.bits j);
          same_total = r.same_total ∙ t.same_total;
          valid = r.valid;
        },
      )

-- `free_frames` gives back exactly the run that `alloc_frames` took.
pub free_frames-alloc_frames :
    (pmm : Pmm) (count : ℕ) {addr : ℕ} {s : State}
    → IsValid pmm
    → alloc_frames count (some pmm) ≡ (some addr, s)
    → (pmm' : Pmm) × (free_frames addr count s ≡ some pmm')
      × ((j : ℕ) → get_bit pmm'.bitmap j ≡ get_bit pmm.bitmap j)
      × IsValid pmm'
unfolding free_frames
free_frames-alloc_frames pmm count v e =
    undo (subst (AllocsRun pmm count) e (alloc_frames-AllocsRun pmm count v))
  where
    undo :
        {addr : ℕ} {s : State}
        → AllocsRun pmm count (some addr, s)
        → (pmm' : Pmm) × (free_from addr 0 count s ≡ some pmm')
          × ((j : ℕ) → get_bit pmm'.bitmap j ≡ get_bit pmm.bitmap j)
          × IsValid pmm'
    undo (run_at start mid lt free t) =
        let (pmm', e, r) =
          free_from-SetsRun start mid 0 count t.valid (omega (arith, t.same_total)) in
        (pmm', e, λ j. ground (arith, r.bits j, t.bits j, free j), r.valid)
