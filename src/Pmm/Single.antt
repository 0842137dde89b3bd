-- ===== src/Pmm/Single.antt =====
-- One frame at a time: `alloc_frame`, `alloc_frame_below` and `free_frame` of
-- crates/kernel/src/memory/pmm.rs.
use native.Mathlib.Decide.{ℕ_discrete, dec_lt}
use native.Mathlib.Nat.{mod-lt, mod-eq_of_lt, mod-eq-sub-mod}
use kazuos.Prelude.{
  ℕ, zero, suc, ◌+◌, ◌-◌, ◌*◌, ◌/◌, ◌%◌, ◌^◌, ◌≤◌, ◌<◌, min, ◌≡◌, refl, ◌⊎◌, inl, inr, ap, sym,
  Bool, true, false, Option, none, some, List, arith, ◌==◌, if◌then◌else◌, add64, mul64, Bool-cases,
  Option-cases, subst,
}
use kazuos.Pmm.Bitmap.{frame_size, set_bit, get_bit}
use kazuos.Pmm.Bitmap.Laws.{length-set_bit, set_bit-IsBitmap, get_bit-set_bit}
use kazuos.Pmm.{
  Pmm, State, first_free, first_below, take_frame, alloc_frame, alloc_frame_below, free_frame,
  IsValid,
}

-- The `k`-th frame that `alloc_frame` looks at.
abbrev pub probe : ℕ → ℕ → ℕ → ℕ
probe total start k = add64 start k % total

-- `first_free` stops at the first free frame in the order of the probes.
first_free-some :
    (m : List ℕ) (total start i n : ℕ) {f : ℕ}
    → first_free m total start i n ≡ some f
    → (k : ℕ) × (i ≤ k)
      × (k < i + n)
      × (f ≡ probe total start k)
      × (get_bit m f ≡ false)
      × ((j : ℕ) → i ≤ j → j < k → get_bit m (probe total start j) ≡ true)
unfolding first_free
first_free-some m total start i zero e = cc
first_free-some m total start i (suc n) {f} e =
    elim (Bool-cases (get_bit m (probe total start i))) [
      | inl used ↦
          let (k, lo, hi, at, free, before) =
            first_free-some m total start (i + 1) n {f = f} (ground arith) in
          (
            k,
            omega arith,
            omega arith,
            at,
            free,
            λ j p q. elim (ℕ_discrete i j) [
              | yes same ↦ rw (← same) used
              | no other ↦ before j (omega arith) q
            ],
          )
      | inr free ↦
          (i, omega arith, omega arith, ground arith, ground arith, λ j p q. absurd (omega arith))
    ]

first_free-none :
    (m : List ℕ) (total start i n : ℕ)
    → first_free m total start i n ≡ none
    → (j : ℕ) → i ≤ j
    → j < i + n
    → get_bit m (probe total start j) ≡ true
unfolding first_free
first_free-none m total start i zero e j p q = absurd (omega arith)
first_free-none m total start i (suc n) e j p q =
    elim (Bool-cases (get_bit m (probe total start i))) [
      | inl used ↦ elim (ℕ_discrete i j) [
        | yes same ↦ rw (← same) used
        | no other ↦
            first_free-none m total start (i + 1) n (ground arith) j (omega arith) (omega arith)
      ]
      | inr free ↦ ground arith
    ]

module _ {total start : ℕ} (small : total ≤ 2 ^ 52) (inside : start < total) where
  -- The probes go round: the frames from `start` on, then those before it.
  probe_ahead : (f : ℕ) → start ≤ f → f < total → probe total start (f - start) ≡ f
  probe_ahead f p q =
      rw (mod-eq_of_lt {n = start + (f - start)} {m = 2 ^ 64} (omega arith))
        (let e : start + (f - start) ≡ f = omega arith in rw e (mod-eq_of_lt q))

  probe_behind : (f : ℕ) → f < start → probe total start (total - start + f) ≡ f
  probe_behind f p =
      rw (mod-eq_of_lt {n = start + (total - start + f)} {m = 2 ^ 64} (omega arith)) (
        let e : start + (total - start + f) ≡ f + total = omega arith in
        rw e (
          rw (mod-eq-sub-mod {n = f + total} {m = total} (omega arith))
            (let d : f + total - total ≡ f = omega arith in rw d (mod-eq_of_lt (omega arith)))))

  -- Every frame is probed within one round.
  all_probed :
      (P : ℕ → Type 0) → ((k : ℕ) → k < total → P (probe total start k)) → (f : ℕ) → f < total → P f
  all_probed P h f q = elim (dec_lt f start) [
    | yes p ↦ subst P (probe_behind f p) (h (total - start + f) (omega arith))
    | no p ↦ subst P (probe_ahead f (omega arith) q) (h (f - start) (omega arith))
  ]

-- The state after frame `f` is taken or given back.
pub record Sets (pmm : Pmm) (f : ℕ) (v : Bool) (pmm' : Pmm) : Type 0 where
  pub bits : (j : ℕ) → get_bit pmm'.bitmap j ≡ (if f == j then v else get_bit pmm.bitmap j)
  pub same_total : pmm'.total_frames ≡ pmm.total_frames
  pub same_usable : pmm'.usable_frames ≡ pmm.usable_frames
  pub valid : IsValid pmm'

set_bit-Sets :
    (pmm : Pmm) (f next : ℕ) (v : Bool)
    → IsValid pmm
    → f < pmm.total_frames
    → (next ≡ 0) ⊎ (next < pmm.total_frames)
    → Sets pmm f v (record pmm { bitmap = set_bit pmm.bitmap f v; next_frame = next })
set_bit-Sets pmm f next v w lt n = record {
  bits = λ j. get_bit-set_bit pmm.bitmap f j v w.bytes (omega arith);
  same_total = refl;
  same_usable = refl;
  valid = record {
    bytes = set_bit-IsBitmap pmm.bitmap f v w.bytes;
    covers = omega (arith, length-set_bit pmm.bitmap f v);
    small = w.small;
    next_in = n;
  };
}

-- What `alloc_frame` answers: nothing and no change if no frame is free, else the address of a
-- free frame, which it takes.
pub data Allocs (pmm : Pmm) : Option ℕ × State → Type 0 where
  exhausted :
      ((f : ℕ) → f < pmm.total_frames → get_bit pmm.bitmap f ≡ true) → Allocs pmm (none, some pmm)
  granted :
      (f : ℕ) (pmm' : Pmm)
      → f < pmm.total_frames
      → get_bit pmm.bitmap f ≡ false
      → Sets pmm f true pmm'
      → Allocs pmm (some (f * frame_size), some pmm')

start_in :
    (pmm : Pmm) (k : ℕ) → IsValid pmm → k < pmm.total_frames → pmm.next_frame < pmm.total_frames
start_in pmm k v lt = ground (arith, v.next_in)

-- `(start + i) % total` never leaves the bitmap.
probe-lt : (total start k : ℕ) → 0 < total → probe total start k < total
probe-lt total start k h = mod-lt _ h

pub address-mul64 : (f total : ℕ) → total ≤ 2 ^ 52 → f < total → mul64 f frame_size ≡ f * frame_size
address-mul64 f total h lt = omega arith

-- `alloc_frame` on a valid allocator hands out a frame exactly when one is free, marks it used,
-- leaves every other frame as it was, and keeps the allocator valid.
pub alloc_frame-Allocs : (pmm : Pmm) → IsValid pmm → Allocs pmm (alloc_frame (some pmm))
unfolding alloc_frame
alloc_frame-Allocs pmm v = elim (Option-cases scan) [
  | inl e ↦
      rw (e, alloc_frame)
        (exhausted λ f lt.
          all_probed v.small (start_in pmm f v lt) (λ f. get_bit pmm.bitmap f ≡ true)
            (λ k q. first_free-none pmm.bitmap total start 0 total e k (omega arith) (omega arith))
            f lt)
  | inr (f, e) ↦
      let (k, lo, hi, at, free, before) = first_free-some pmm.bitmap total start 0 total e in
      let lt : f < total = rw at (probe-lt total start k (omega arith)) in
      rw (e, alloc_frame, address-mul64 f total v.small lt)
        (granted f _ lt free (set_bit-Sets pmm f _ true v lt (inr (mod-lt _ (omega arith)))))
]
  where
    total : ℕ
    total = pmm.total_frames

    start : ℕ
    start = pmm.next_frame

    scan : Option ℕ
    scan = first_free pmm.bitmap total start 0 total

-- `free_frame` on an address inside the frame `f` clears its bit, and keeps the rest.
pub free_frame-Sets :
    (pmm : Pmm) (addr : ℕ)
    → IsValid pmm
    → addr / frame_size < pmm.total_frames
    → (pmm' : Pmm) × (free_frame addr (some pmm) ≡ some pmm')
      × Sets pmm (addr / frame_size) false pmm'
unfolding free_frame
free_frame-Sets pmm addr v lt =
    (_, ground arith, set_bit-Sets pmm (addr / frame_size) pmm.next_frame false v lt v.next_in)

-- Beyond the bitmap it does nothing.
pub free_frame_outside :
    (pmm : Pmm) (addr : ℕ)
    → pmm.total_frames ≤ addr / frame_size
    → free_frame addr (some pmm) ≡ some pmm
unfolding free_frame
free_frame_outside pmm addr h = ground arith

-- Giving back the frame that `alloc_frame` handed out leaves every bit as it was before.
pub free_frame-alloc_frame :
    (pmm : Pmm) {addr : ℕ} {s : State}
    → IsValid pmm
    → alloc_frame (some pmm) ≡ (some addr, s)
    → (pmm' : Pmm) × (free_frame addr s ≡ some pmm')
      × ((j : ℕ) → get_bit pmm'.bitmap j ≡ get_bit pmm.bitmap j)
      × IsValid pmm'
free_frame-alloc_frame pmm {addr} {s} v e = undo (subst (Allocs pmm) e (alloc_frame-Allocs pmm v))
  where
    undo :
        {addr : ℕ} {s : State}
        → Allocs pmm (some addr, s)
        → (pmm' : Pmm) × (free_frame addr s ≡ some pmm')
          × ((j : ℕ) → get_bit pmm'.bitmap j ≡ get_bit pmm.bitmap j)
          × IsValid pmm'
    undo (granted f mid lt free t) =
        let at : f * frame_size / frame_size ≡ f = omega arith in
        let (pmm', e, back) =
          free_frame-Sets mid (f * frame_size) t.valid
            (rw at (subst (λ n. f < n) (sym t.same_total) lt)) in
        let back' : Sets mid f false pmm' = subst (λ g. Sets mid g false pmm') at back in
        (pmm', e, λ j. ground (arith, t.bits j, back'.bits j, ap (get_bit pmm.bitmap)), back.valid)

first_below-some :
    (m : List ℕ) (i n : ℕ) {f : ℕ}
    → first_below m i n ≡ some f
    → (i ≤ f) × (f < i + n) × (get_bit m f ≡ false) × ((j : ℕ) → i ≤ j → j < f → get_bit m j ≡ true)
unfolding first_below
first_below-some m i zero e = cc
first_below-some m i (suc n) {f} e = elim (Bool-cases (get_bit m i)) [
  | inl used ↦
      let (lo, hi, free, before) = first_below-some m (i + 1) n {f = f} (ground arith) in
      (
        omega arith,
        omega arith,
        free,
        λ j p q. elim (ℕ_discrete i j) [
          | yes same ↦ rw (← same) used
          | no other ↦ before j (omega arith) q
        ],
      )
  | inr free ↦ (ground arith, ground arith, ground arith, λ j p q. absurd (ground arith))
]

-- The frame that `alloc_frame_below` hands out lies wholly below the limit and is the lowest free
-- one; it is taken and the allocator stays valid.
pub alloc_frame_below-some :
    (pmm : Pmm) (limit : ℕ) {addr : ℕ} {s : State}
    → IsValid pmm
    → alloc_frame_below limit (some pmm) ≡ (some addr, s)
    → (f : ℕ) × (pmm' : Pmm) × (addr ≡ f * frame_size)
      × (s ≡ some pmm')
      × (addr + frame_size ≤ limit)
      × (get_bit pmm.bitmap f ≡ false)
      × ((j : ℕ) → j < f → get_bit pmm.bitmap j ≡ true)
      × Sets pmm f true pmm'
unfolding alloc_frame_below
alloc_frame_below-some pmm limit {addr} {s} v e = elim (Option-cases scan) [
  | inl none_free ↦
      let e' : ◌≡◌ {A = Option ℕ × State} (none, some pmm) (some addr, s) =
        rw (none_free, alloc_frame_below) at e in
      ground arith
  | inr (f, found) ↦
      let (lo, hi, free, before) = first_below-some pmm.bitmap 0 top found in
      let e' : ◌≡◌ {A = Option ℕ × State} (some (mul64 f frame_size), some (take_frame pmm f))
          (some addr, s) =
        rw (found, alloc_frame_below) at e in
      let in_range : f < pmm.total_frames = omega arith in
      let at : mul64 f frame_size ≡ f * frame_size =
        address-mul64 f pmm.total_frames v.small in_range in
      let same : addr ≡ f * frame_size = ground arith in
      (
        f,
        take_frame pmm f,
        same,
        ground arith,
        omega arith,
        free,
        λ j q. before j (omega arith) q,
        set_bit-Sets pmm f pmm.next_frame true v in_range v.next_in,
      )
]
  where
    top : ℕ
    top = min (limit / frame_size) pmm.total_frames

    scan : Option ℕ
    scan = first_below pmm.bitmap 0 top
