-- ===== src/Pmm/Tests.antt =====
-- Runs of the frame allocator on small bitmaps, and its theorems at concrete inputs.
use kazuos.Prelude.{
  ℕ, zero, suc, ◌+◌, ◌*◌, ◌≤◌, ◌<◌, ◌≡◌, refl, true, false, not, ◌||◌, none, some, List, [], ◌∷◌,
  arith,
}
use kazuos.Pmm.Bitmap.{frame_size, set_bit, get_bit, mark_frames, mark_region}
use kazuos.Pmm.Bitmap.Laws.{in_region}
use kazuos.Pmm.{
  Pmm, MemoryMapEntry, init, alloc_frame, alloc_frame_below, free_frame, alloc_frames, free_frames,
  mark_used, stats, IsValid,
}
use kazuos.Pmm.Single.{
  Sets, Allocs, alloc_frame-Allocs, free_frame-Sets, free_frame-alloc_frame, alloc_frame_below-some,
}
use kazuos.Pmm.Owners.{Request, allocate, release, World, run, IsOwned, run-IsOwned}
use kazuos.Pmm.Runs.{
  AllocsRun, IsRun, alloc_frames-AllocsRun, alloc_frames_misses_last, free_frames-alloc_frames,
}
use kazuos.Pmm.Regions.{in_usable, init_lem, mark_used_lem, Counts, stats-alloc_frame}

-- Frames 0 and 2 of eight are used, and the search starts at frame 7.
abbrev sparse : Pmm
sparse = record { bitmap = 5 ∷ []; total_frames = 8; usable_frames = 8; next_frame = 7 }

sparse-IsValid : IsValid sparse
sparse-IsValid = omega arith

-- All but the last two frames are used.
abbrev nearly_full : Pmm
nearly_full = record { bitmap = 63 ∷ []; total_frames = 8; usable_frames = 8; next_frame = 0 }

nearly_full-IsValid : IsValid nearly_full
nearly_full-IsValid = omega arith

alloc_frame_round :
    alloc_frame (some sparse)
    ≡ (some 28672, some (record sparse { bitmap = 133 ∷ []; next_frame = 0 }))
unfolding alloc_frame set_bit get_bit
alloc_frame_round = refl

alloc_frames_three :
    alloc_frames 3 (some sparse)
    ≡ (some 12288, some (record sparse { bitmap = 61 ∷ []; next_frame = 6 }))
unfolding alloc_frames set_bit get_bit
alloc_frames_three = refl

stats-sparse :
    stats (some sparse) ≡ some (record { total_frames = 8; used_frames = 2; free_frames = 6 })
unfolding stats get_bit
stats-sparse = refl

-- Two entries, of which only the first is usable; the bitmap lies in frame 1.
abbrev small_map : List MemoryMapEntry
small_map =
    record { phys_start = 0; page_count = 4; ty = 7 }
    ∷ record { phys_start = 16384; page_count = 2; ty = 0 }
    ∷ []

init_small :
    init 4096 1 small_map
    ≡ some (record { bitmap = 242 ∷ []; total_frames = 8; usable_frames = 4; next_frame = 0 })
unfolding init mark_region mark_frames set_bit get_bit
init_small = refl

alloc_frame-Allocs_example : Allocs sparse (alloc_frame (some sparse))
alloc_frame-Allocs_example = alloc_frame-Allocs sparse sparse-IsValid

free_frame-Sets_example :
    (pmm' : Pmm) × (free_frame 8192 (some sparse) ≡ some pmm') × Sets sparse 2 false pmm'
free_frame-Sets_example = free_frame-Sets sparse 8192 sparse-IsValid (omega arith)

free_frame-alloc_frame_example :
    (pmm' : Pmm) × (free_frame 28672 (some (record sparse { bitmap = 133 ∷ []; next_frame = 0 }))
      ≡ some pmm')
    × ((j : ℕ) → get_bit pmm'.bitmap j ≡ get_bit (5 ∷ []) j)
    × IsValid pmm'
free_frame-alloc_frame_example = free_frame-alloc_frame sparse sparse-IsValid alloc_frame_round

alloc_frame_below_low :
    alloc_frame_below 20000 (some sparse) ≡ (some 4096, some (record sparse { bitmap = 7 ∷ [] }))
unfolding alloc_frame_below set_bit get_bit
alloc_frame_below_low = refl

alloc_frame_below-some_example :
    (f : ℕ) × (pmm' : Pmm) × (4096 ≡ f * frame_size)
    × (some (record sparse { bitmap = 7 ∷ [] }) ≡ some pmm')
    × (4096 + frame_size ≤ 20000)
    × (get_bit (5 ∷ []) f ≡ false)
    × ((j : ℕ) → j < f → get_bit (5 ∷ []) j ≡ true)
    × Sets sparse f true pmm'
alloc_frame_below-some_example =
    alloc_frame_below-some sparse 20000 sparse-IsValid alloc_frame_below_low

abbrev two_clients : World
two_clients = record { state = some sparse; held = 8192 ∷ 0 ∷ [] }

two_clients-IsOwned : IsOwned sparse (8192 ∷ 0 ∷ [])
unfolding get_bit
two_clients-IsOwned = record {
  valid = sparse-IsValid;
  used = ((omega arith, omega arith, refl), ((omega arith, omega arith, refl), tt));
  distinct = omega arith;
}

abbrev requests : List Request
requests = allocate ∷ release 1 ∷ allocate ∷ []

run-IsOwned_example :
    (pmm' : Pmm) × ((run two_clients requests).state ≡ some pmm')
    × IsOwned pmm' (run two_clients requests).held
run-IsOwned_example = run-IsOwned two_clients requests sparse refl two_clients-IsOwned

alloc_frames-AllocsRun_example : AllocsRun sparse 3 (alloc_frames 3 (some sparse))
alloc_frames-AllocsRun_example = alloc_frames-AllocsRun sparse 3 sparse-IsValid

alloc_frames_misses_last_example : alloc_frames 2 (some nearly_full) ≡ (none, some nearly_full)
unfolding get_bit
alloc_frames_misses_last_example =
    alloc_frames_misses_last nearly_full 2 nearly_full-IsValid (omega arith) (omega arith)
      used_below free_last
  where
    used_below : (j : ℕ) → j < 6 → get_bit (63 ∷ []) j ≡ true
    used_below zero h = refl
    used_below (suc zero) h = refl
    used_below (suc (suc zero)) h = refl
    used_below (suc (suc (suc zero))) h = refl
    used_below (suc (suc (suc (suc zero)))) h = refl
    used_below (suc (suc (suc (suc (suc zero))))) h = refl
    used_below (suc (suc (suc (suc (suc (suc j)))))) h = absurd (omega arith)

    free_last : IsRun (63 ∷ []) 6 2
    free_last zero p q = absurd (omega arith)
    free_last (suc zero) p q = absurd (omega arith)
    free_last (suc (suc zero)) p q = absurd (omega arith)
    free_last (suc (suc (suc zero))) p q = absurd (omega arith)
    free_last (suc (suc (suc (suc zero)))) p q = absurd (omega arith)
    free_last (suc (suc (suc (suc (suc zero))))) p q = absurd (omega arith)
    free_last (suc (suc (suc (suc (suc (suc zero)))))) p q = refl
    free_last (suc (suc (suc (suc (suc (suc (suc zero))))))) p q = refl
    free_last (suc (suc (suc (suc (suc (suc (suc (suc j)))))))) p q = absurd (omega arith)

free_frames-alloc_frames_example :
    (pmm' : Pmm) × (free_frames 12288 3 (some (record sparse { bitmap = 61 ∷ []; next_frame = 6 }))
      ≡ some pmm')
    × ((j : ℕ) → get_bit pmm'.bitmap j ≡ get_bit (5 ∷ []) j)
    × IsValid pmm'
free_frames-alloc_frames_example =
    free_frames-alloc_frames sparse 3 sparse-IsValid alloc_frames_three

init_lem_example :
    (pmm : Pmm) × (init 4096 1 small_map ≡ some pmm)
    × IsValid pmm
    × (pmm.total_frames ≡ 8)
    × ((j : ℕ) → get_bit pmm.bitmap j ≡ (in_region 8 4096 4096 j || not (in_usable 8 small_map j)))
init_lem_example = init_lem 4096 1 small_map (omega arith)

mark_used_lem_example :
    (pmm' : Pmm) × (mark_used 5000 100 (some sparse) ≡ some (some pmm'))
    × IsValid pmm'
    × ((j : ℕ) → get_bit pmm'.bitmap j ≡ (in_region 8 5000 100 j || get_bit (5 ∷ []) j))
mark_used_lem_example = mark_used_lem sparse 5000 100 sparse-IsValid

stats-alloc_frame_example : Counts sparse (alloc_frame (some sparse))
stats-alloc_frame_example = stats-alloc_frame sparse sparse-IsValid
