-- ===== src/Pmm/Owners.antt =====
-- Clients of `alloc_frame` and `free_frame` of crates/kernel/src/memory/pmm.rs: the frames that
-- they hold.
use kazuos.Prelude.{
  ℕ, zero, suc, ◌*◌, ◌/◌, ◌<◌, ◌≡◌, refl, ◌≢◌, ap, subst, sym, Bool, true, false, Option, none,
  some, List, [], ◌∷◌, arith, All, get_elem?,
}
use kazuos.Pmm.Bitmap.{frame_size, get_bit}
use kazuos.Pmm.{Pmm, State, alloc_frame, free_frame, IsValid}
use kazuos.Pmm.Single.{Sets, Allocs, exhausted, granted, alloc_frame-Allocs, free_frame-Sets}

-- A client asks for a frame, or gives back the `n`-th of those that are held.
pub data Request : Type 0 where
  allocate : Request
  release : ℕ → Request

pub record World : Type 0 where
  pub state : State
  pub held : List ℕ

abbrev remove_at : List ℕ → ℕ → List ℕ
remove_at [] n = []
remove_at (x ∷ xs) zero = xs
remove_at (x ∷ xs) (suc n) = x ∷ remove_at xs n

abbrev keep : List ℕ → Option ℕ × State → World
keep held (none, s) = record { state = s; held = held }
keep held (some addr, s) = record { state = s; held = addr ∷ held }

abbrev drop_held : State → List ℕ → ℕ → Option ℕ → World
drop_held s held n none = record { state = s; held = held }
drop_held s held n (some addr) = record { state = free_frame addr s; held = remove_at held n }

unfoldable pub step : World → Request → World
step w allocate = keep w.held (alloc_frame w.state)
step w (release n) = drop_held w.state w.held n (get_elem? w.held n)

unfoldable pub run : World → List Request → World
unfolding step
run w [] = w
run w (r ∷ rs) = run (step w r) rs

-- A held address is that of a frame in use.
abbrev IsUsed : Pmm → ℕ → Type 0
IsUsed pmm addr =
    (addr / frame_size * frame_size ≡ addr)
    × (addr / frame_size < pmm.total_frames)
    × (get_bit pmm.bitmap (addr / frame_size) ≡ true)

abbrev pub AllDistinct : List ℕ → Type 0
AllDistinct [] = Unit {0}
AllDistinct (x ∷ xs) = All (λ y. x ≢ y) xs × AllDistinct xs

-- No two clients hold one frame, and the allocator counts every held frame as used.
pub record IsOwned (pmm : Pmm) (held : List ℕ) : Type 0 where
  pub valid : IsValid pmm
  pub used : All (IsUsed pmm) held
  pub distinct : AllDistinct held

IsUsed-after :
    {pmm pmm' : Pmm} {f : ℕ} {v : Bool}
    → Sets pmm f v pmm'
    → (addr : ℕ) → addr / frame_size ≢ f
    → IsUsed pmm addr
    → IsUsed pmm' addr
IsUsed-after t addr ne (a, b, c) =
    (a, rw (t.same_total) b, ground (arith, t.bits (addr / frame_size)))

fresh-IsUsed :
    {pmm pmm' : Pmm} {f : ℕ}
    → Sets pmm f true pmm'
    → get_bit pmm.bitmap f ≡ false
    → (held : List ℕ) → All (IsUsed pmm) held
    → All (IsUsed pmm') held × All (λ y. f * frame_size ≢ y) held
fresh-IsUsed t free [] h = (tt, tt)
fresh-IsUsed {pmm} {f = f} t free (x ∷ xs) (u, h) =
    let ne : x / frame_size ≢ f = λ e. ground (arith, u.2, ap (get_bit pmm.bitmap) e) in
    let (rest, apart) = fresh-IsUsed t free xs h in
    ((IsUsed-after t x ne u, rest), (λ e. ne (omega arith), apart))

alloc-IsOwned :
    (pmm : Pmm) (held : List ℕ) {r : Option ℕ × State}
    → IsOwned pmm held
    → Allocs pmm r
    → (pmm' : Pmm) × ((keep held r).state ≡ some pmm') × IsOwned pmm' (keep held r).held
alloc-IsOwned pmm held o (exhausted h) = (pmm, refl, o)
alloc-IsOwned pmm held o (granted f pmm' lt free t) =
    let (rest, apart) = fresh-IsUsed t free held o.used in
    let at : f * frame_size / frame_size ≡ f = omega arith in
    (
      pmm',
      refl,
      record {
        valid = t.valid;
        used = ((omega arith, rw (at, t.same_total) lt, rw at (ground (arith, t.bits f))), rest);
        distinct = (apart, o.distinct);
      },
    )

-- What is left after a release stays used: its frames differ from the one given back.
rest-IsUsed :
    {pmm pmm' : Pmm} {a : ℕ}
    → Sets pmm (a / frame_size) false pmm'
    → a / frame_size * frame_size ≡ a
    → (held : List ℕ) → All (λ y. a ≢ y) held
    → All (IsUsed pmm) held
    → All (IsUsed pmm') held
rest-IsUsed t at [] d h = tt
rest-IsUsed {a = a} t at (x ∷ xs) (ne, d) (u, h) = (
  IsUsed-after t x (λ e. ne (omega (arith, u.0, ap (λ (t : ℕ). t * frame_size) e))) u,
  rest-IsUsed t at xs d h,
)

All-get_elem? {ℓ} :
    (P : ℕ → Type ℓ) (xs : List ℕ) (n : ℕ) {a : ℕ} → All P xs → get_elem? xs n ≡ some a → P a
All-get_elem? P [] n h e = cc
All-get_elem? P (x ∷ xs) zero h e = subst P (ground arith) h.0
All-get_elem? P (x ∷ xs) (suc n) h e = All-get_elem? P xs n h.1 e

All-remove_at {ℓ} : (P : ℕ → Type ℓ) (xs : List ℕ) (n : ℕ) → All P xs → All P (remove_at xs n)
All-remove_at P [] n h = tt
All-remove_at P (x ∷ xs) zero h = h.1
All-remove_at P (x ∷ xs) (suc n) h = (h.0, All-remove_at P xs n h.1)

AllDistinct-remove_at : (xs : List ℕ) (n : ℕ) → AllDistinct xs → AllDistinct (remove_at xs n)
AllDistinct-remove_at [] n h = tt
AllDistinct-remove_at (x ∷ xs) zero h = h.1
AllDistinct-remove_at (x ∷ xs) (suc n) h =
    (All-remove_at _ xs n h.0, AllDistinct-remove_at xs n h.1)

apart_of_removed :
    (xs : List ℕ) (n : ℕ) {a : ℕ}
    → AllDistinct xs
    → get_elem? xs n ≡ some a
    → All (λ y. a ≢ y) (remove_at xs n)
apart_of_removed [] n h e = tt
apart_of_removed (x ∷ xs) zero h e = subst (λ a. All (λ y. a ≢ y) xs) (ground arith) h.0
apart_of_removed (x ∷ xs) (suc n) h e =
    (λ e'. All-get_elem? (λ y. x ≢ y) xs n h.0 e (sym e'), apart_of_removed xs n h.1 e)

release-IsOwned :
    (pmm : Pmm) (held : List ℕ) (n : ℕ) (o : Option ℕ)
    → get_elem? held n ≡ o
    → IsOwned pmm held
    → (pmm' : Pmm) × ((drop_held (some pmm) held n o).state ≡ some pmm')
      × IsOwned pmm' (drop_held (some pmm) held n o).held
release-IsOwned pmm held n none e o = (pmm, refl, o)
release-IsOwned pmm held n (some addr) e o =
    let (at, lt, used) = All-get_elem? (IsUsed pmm) held n o.used e in
    let (pmm', back, t) = free_frame-Sets pmm addr o.valid lt in
    (
      pmm',
      back,
      record {
        valid = t.valid;
        used =
            rest-IsUsed t at (remove_at held n) (apart_of_removed held n o.distinct e)
              (All-remove_at (IsUsed pmm) held n o.used);
        distinct = AllDistinct-remove_at held n o.distinct;
      },
    )

step-IsOwned :
    (w : World) (r : Request) (pmm : Pmm)
    → w.state ≡ some pmm
    → IsOwned pmm w.held
    → (pmm' : Pmm) × ((step w r).state ≡ some pmm') × IsOwned pmm' (step w r).held
unfolding step
step-IsOwned w allocate pmm e o = rw e (alloc-IsOwned pmm w.held o (alloc_frame-Allocs pmm o.valid))
step-IsOwned w (release n) pmm e o = rw e (release-IsOwned pmm w.held n (get_elem? w.held n) refl o)

-- However clients interleave their requests, no frame is ever held twice, and every frame that is
-- held is inside the memory and marked used, so that it is not handed out again.
pub run-IsOwned :
    (w : World) (rs : List Request) (pmm : Pmm)
    → w.state ≡ some pmm
    → IsOwned pmm w.held
    → (pmm' : Pmm) × ((run w rs).state ≡ some pmm') × IsOwned pmm' (run w rs).held
unfolding run
run-IsOwned w [] pmm e o = (pmm, e, o)
run-IsOwned w (r ∷ rs) pmm e o =
    let (pmm', e', o') = step-IsOwned w r pmm e o in run-IsOwned (step w r) rs pmm' e' o'
