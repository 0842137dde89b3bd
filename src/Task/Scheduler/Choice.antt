-- ===== src/Task/Scheduler/Choice.antt =====
-- Which thread `schedule_next` of crates/kernel/src/task/scheduler.rs picks.
use kazuos.Prelude.{
  ℕ, ◌≤◌, ◌<◌, min, Bool, true, false, ◌&&◌, ◌||◌, Option, none, some, [], ◌∷◌, ◌==◌, ltb, ◌≡◌,
  refl, sym, ◌∙◌, ◌⊎◌, ◌↔◌, inl, inr, arith, Bool-cases, ==_iff, true-false, and-inv, ltb→lt,
  lt→ltb,
}
use kazuos.Task.Types.{Thread, Threads}
use kazuos.Task.Scheduler.{is_ready, lowest, least, first_of, schedule_next}

-- Whether a thread with this tid passes the test.
unfoldable pub has : (Thread → Bool) → ℕ → Threads → Bool
has p u [] = false
has p u (t ∷ threads) = p t && (t.tid == u) || has p u threads

-- Whether a thread with this tid is Ready on the CPU.
abbrev pub has_ready : ℕ → ℕ → Threads → Bool
has_ready cpu = has (is_ready cpu)

-- `m` is the smallest tid among the threads that pass the test, if there is one.
abbrev pub IsLowest : (Thread → Bool) → Threads → Option ℕ → Type 0
IsLowest p threads none = (u : ℕ) → has p u threads ≡ false
IsLowest p threads (some m) = (has p m threads ≡ true) × ((u : ℕ) → has p u threads ≡ true → m ≤ u)

hit_iff : (a b c : Bool) → (a && b || c ≡ true) ↔ ((a ≡ true) × (b ≡ true)) ⊎ (c ≡ true)
hit_iff true true c = (λ h. inl (refl, refl), λ h. refl)
hit_iff true false c = (inr, λ h. elim h [ inl e ↦ absurd (true-false e.1 refl) | inr e ↦ e ])
hit_iff false b c = (inr, λ h. elim h [ inl e ↦ absurd cc | inr e ↦ e ])

module _ (p : Thread → Bool) (t : Thread) (threads : Threads) where
  has_self : p t ≡ true → has p t.tid (t ∷ threads) ≡ true
  unfolding has
  has_self pt =
      (hit_iff (p t) (t.tid == t.tid) (has p t.tid threads)).1
        (inl (pt, (==_iff t.tid t.tid).1 refl))

  has-tail : (u : ℕ) → has p u threads ≡ true → has p u (t ∷ threads) ≡ true
  unfolding has
  has-tail u h = (hit_iff (p t) (t.tid == u) (has p u threads)).1 (inr h)

  pub has-inv :
      (u : ℕ)
      → has p u (t ∷ threads) ≡ true
      → ((p t ≡ true) × (t.tid ≡ u)) ⊎ (has p u threads ≡ true)
  unfolding has
  has-inv u h = elim ((hit_iff (p t) (t.tid == u) (has p u threads)).0 h) [
    | inl e ↦ inl (e.0, (==_iff t.tid u).0 e.1)
    | inr e ↦ inr e
  ]

  least-IsLowest :
      (o : Option ℕ)
      → p t ≡ true
      → IsLowest p threads o
      → IsLowest p (t ∷ threads) (some (least t.tid o))
  least-IsLowest none pt h = (
    has_self pt,
    λ u e. elim (has-inv u e) [ inl g ↦ omega arith | inr g ↦ absurd (true-false g (h u)) ],
  )
  least-IsLowest (some m) pt h = (
    elim (Bool-cases (ltb t.tid m)) [
      | inl e ↦ let g : min t.tid m ≡ t.tid = ground arith in rw g (has_self pt)
      | inr e ↦ let g : min t.tid m ≡ m = ground arith in rw g (has-tail m h.0)
    ],
    λ u e. elim (has-inv u e) [ inl g ↦ omega arith | inr g ↦ omega (arith, h.1 u g) ],
  )

  skip-IsLowest : (o : Option ℕ) → p t ≡ false → IsLowest p threads o → IsLowest p (t ∷ threads) o
  skip-IsLowest none pt h = λ u. elim (Bool-cases (has p u (t ∷ threads))) [
    | inl e ↦ elim (has-inv u e) [
      | inl g ↦ absurd (true-false g.0 pt)
      | inr g ↦ absurd (true-false g (h u))
    ]
    | inr e ↦ e
  ]
  skip-IsLowest (some m) pt h = (
    has-tail m h.0,
    λ u e. elim (has-inv u e) [ inl g ↦ absurd (true-false g.0 pt) | inr g ↦ h.1 u g ],
  )

pub lowest-IsLowest :
    (p : Thread → Bool) (threads : Threads) → IsLowest p threads (lowest p threads)
unfolding lowest has
lowest-IsLowest p [] = λ u. refl
lowest-IsLowest p (t ∷ threads) =
    let ih = lowest-IsLowest p threads in
    elim (Bool-cases (p t)) [
      | inl e ↦ rw e (least-IsLowest p t threads (lowest p threads) e ih)
      | inr e ↦ rw e (skip-IsLowest p t threads (lowest p threads) e ih)
    ]

both : (a b c d : Bool) → (a && b) && c || d && b ≡ (a && c || d) && b
both true true true true = refl
both true true false true = refl
both true true true false = refl
both true true false false = refl
both true false true true = refl
both true false false true = refl
both true false true false = refl
both true false false false = refl
both false b c d = refl

neither : (a b d l : Bool) → (a && b) && false || d && l ≡ (a && false || d) && l
neither true true d l = refl
neither true false d l = refl
neither false b d l = refl

has-above :
    (cpu current u : ℕ) (threads : Threads)
    → has (λ t. is_ready cpu t && ltb current t.tid) u threads
      ≡ has_ready cpu u threads && ltb current u
unfolding has
has-above cpu current u [] = refl
has-above cpu current u (t ∷ threads) = elim (Bool-cases (t.tid == u)) [
  | inl e ↦
      let g = (==_iff t.tid u).0 e in
      rw (has-above cpu current u threads, g)
        (both (is_ready cpu t) (ltb current u) (u == u) (has (is_ready cpu) u threads))
  | inr e ↦
      rw (has-above cpu current u threads, e)
        (neither (is_ready cpu t) (ltb current t.tid) (has (is_ready cpu) u threads)
          (ltb current u))
]

-- What the source's comment promises: the smallest Ready tid of the CPU after `current`; failing
-- that its smallest Ready tid; 0 if it has none.
abbrev pub IsNext : ℕ → ℕ → Threads → ℕ → Type 0
IsNext cpu current threads tid =
    (has_ready cpu tid threads ≡ true)
      × (current < tid)
      × ((u : ℕ) → has_ready cpu u threads ≡ true → current < u → tid ≤ u)
    ⊎ (has_ready cpu tid threads ≡ true)
      × ((u : ℕ) → has_ready cpu u threads ≡ true → (tid ≤ u) × (u ≤ current))
    ⊎ (tid ≡ 0) × ((u : ℕ) → has_ready cpu u threads ≡ false)

module _ (cpu current : ℕ) (threads : Threads) where
  above-hit :
      (u : ℕ)
      → has_ready cpu u threads ≡ true
      → current < u
      → has (λ t. is_ready cpu t && ltb current t.tid) u threads ≡ true
  unfolding has
  above-hit u h l = rw (has-above cpu current u threads, h, lt→ltb current u l) refl

  above-inv :
      (u : ℕ)
      → has (λ t. is_ready cpu t && ltb current t.tid) u threads ≡ true
      → (has_ready cpu u threads ≡ true) × (current < u)
  above-inv u h =
      let g =
        and-inv (has_ready cpu u threads) (ltb current u)
          (sym (has-above cpu current u threads) ∙ h) in
      (g.0, ltb→lt current u g.1)

  pick-IsNext :
      (o q : Option ℕ)
      → IsLowest (λ t. is_ready cpu t && ltb current t.tid) threads o
      → IsLowest (is_ready cpu) threads q
      → IsNext cpu current threads (first_of o q)
  pick-IsNext (some m) q ho hq =
      let g = above-inv m ho.0 in inl (g.0, g.1, λ u h l. ho.1 u (above-hit u h l))
  pick-IsNext none (some m) ho hq = inr (
      inl (
        hq.0,
        λ u h. (
          hq.1 u h,
          elim (Bool-cases (ltb current u)) [
            | inl e ↦ absurd (true-false (above-hit u h (ltb→lt current u e)) (ho u))
            | inr e ↦ ground arith
          ],
        ),
      ))
  pick-IsNext none none ho hq = inr (inr (refl, hq))

-- `schedule_next` picks the smallest Ready tid of the CPU above `current_tid`, failing that its
-- smallest Ready tid, and 0 if the CPU has no Ready thread.
pub schedule_next-IsNext :
    (cpu current : ℕ) (threads : Threads)
    → IsNext cpu current threads (schedule_next cpu current threads)
unfolding schedule_next
schedule_next-IsNext cpu current threads =
    pick-IsNext cpu current threads _ _
      (lowest-IsLowest (λ t. is_ready cpu t && ltb current t.tid) threads)
      (lowest-IsLowest (is_ready cpu) threads)
