-- ===== src/Lock/Moves.antt =====
-- What one operation of the lock of crates/kernel/src/util.rs changes, for the CPU that makes it
-- and for the others.
use kazuos.Prelude.{ℕ, zero, suc, ◌^◌, ◌<◌, Bool, true, false, ◌≡◌, ◌≢◌, refl, arith, true-false}
use kazuos.Lock.{
  Memory, max_cpus, Pc, rest, check_owner, check_locked, add_depth, try_lock, set_owner, set_depth,
  clear_owner, clear_locked, Move, calls_lock, owner_is, owner_is_not, locked_is, locked_is_not,
  adds_depth, exchanges, spins, sets_owner, sets_depth, drops_nested, drops_last, clears_owner,
  clears_locked,
}

-- Between its exchange and its last store a CPU has the lock.
abbrev pub has_lock : Pc → Bool
has_lock (rest zero) = false
has_lock (check_owner zero) = false
has_lock (check_locked zero) = false
has_lock (add_depth zero) = false
has_lock (try_lock n) = false
has_lock p = true

abbrev pub Owns : Memory → ℕ → ℕ → Type 0
Owns m cpu n = (m.locked ≡ true) × (m.owner ≡ cpu) × (m.depth ≡ n) × (n < 2 ^ 64)

-- What a CPU may rely on where it stands.
abbrev pub Fits : Memory → ℕ → Pc → Type 0
Fits m cpu (rest zero) = m.owner ≢ cpu
Fits m cpu (rest (suc n)) = Owns m cpu (suc n)
Fits m cpu (check_owner zero) = m.owner ≢ cpu
Fits m cpu (check_owner (suc n)) = Owns m cpu (suc n) × (suc (suc n) < 2 ^ 64)
Fits m cpu (check_locked zero) = ⊥
Fits m cpu (check_locked (suc n)) = Owns m cpu (suc n) × (suc (suc n) < 2 ^ 64)
Fits m cpu (add_depth zero) = ⊥
Fits m cpu (add_depth (suc n)) = Owns m cpu (suc n) × (suc (suc n) < 2 ^ 64)
Fits m cpu (try_lock n) = (n ≡ 0) × (m.owner ≢ cpu)
Fits m cpu (set_owner n) = (n ≡ 0) × (m.locked ≡ true) × (m.owner ≢ cpu)
Fits m cpu (set_depth n) = (n ≡ 0) × (m.locked ≡ true) × (m.owner ≡ cpu)
Fits m cpu (clear_owner n) = (n ≡ 0) × (m.locked ≡ true) × (m.owner ≡ cpu)
Fits m cpu (clear_locked n) = (n ≡ 0) × (m.locked ≡ true) × (m.owner ≢ cpu)

pub Move-Fits :
    {m m' : Memory} {cpu : ℕ} {p p' : Pc}
    → cpu < max_cpus
    → Move m cpu p m' p'
    → Fits m cpu p
    → Fits m' cpu p'
Move-Fits lt (calls_lock zero h) f = f
Move-Fits lt (calls_lock (suc n) h) f = (f, h)
Move-Fits lt (owner_is zero h) f = absurd (f h)
Move-Fits lt (owner_is (suc n) h) f = f
Move-Fits lt (owner_is_not zero h) f = (refl, f)
Move-Fits lt (owner_is_not (suc n) h) f = absurd (h f.0.1)
Move-Fits lt (locked_is zero h) f = f
Move-Fits lt (locked_is (suc n) h) f = f
Move-Fits lt (locked_is_not zero h) f = absurd f
Move-Fits lt (locked_is_not (suc n) h) f = absurd (true-false f.0.0 h)
Move-Fits lt (adds_depth zero) f = absurd f
Move-Fits lt (adds_depth (suc n)) f = (f.0.0, f.0.1, omega (arith, f.0.2, f.1), f.1)
Move-Fits lt (exchanges n h) f = (f.0, refl, f.1)
Move-Fits lt (spins n) f = f
Move-Fits lt (sets_owner n) f = (f.0, f.1, refl)
Move-Fits lt (sets_depth n) f = (f.1, f.2, omega (arith, f.0), omega (arith, f.0))
Move-Fits lt (drops_nested zero h) f = absurd (h f.2)
Move-Fits lt (drops_nested (suc n) h) f = (f.0, f.1, omega (arith, f.2, f.3), omega (arith, f.3))
Move-Fits lt (drops_last n h) f = (omega (arith, f.2), f.0, f.1)
Move-Fits lt (clears_owner n) f = (f.0, f.1, λ e. omega (arith, e))
Move-Fits lt (clears_locked zero) f = f.2
Move-Fits lt (clears_locked (suc n)) f = absurd (omega (arith, f.0))

pub has_lock-locked :
    (m : Memory) (cpu : ℕ) (p : Pc) → Fits m cpu p → has_lock p ≡ true → m.locked ≡ true
has_lock-locked m cpu (rest zero) f h = absurd (true-false h refl)
has_lock-locked m cpu (rest (suc n)) f h = f.0
has_lock-locked m cpu (check_owner zero) f h = absurd (true-false h refl)
has_lock-locked m cpu (check_owner (suc n)) f h = f.0.0
has_lock-locked m cpu (check_locked zero) f h = absurd f
has_lock-locked m cpu (check_locked (suc n)) f h = f.0.0
has_lock-locked m cpu (add_depth zero) f h = absurd f
has_lock-locked m cpu (add_depth (suc n)) f h = f.0.0
has_lock-locked m cpu (try_lock n) f h = absurd (true-false h refl)
has_lock-locked m cpu (set_owner n) f h = f.1
has_lock-locked m cpu (set_depth n) f h = f.1
has_lock-locked m cpu (clear_owner n) f h = f.1
has_lock-locked m cpu (clear_locked n) f h = f.1

-- A CPU without the lock relies on no more than that it is not the owner.
pub lacks-Fits :
    (m m' : Memory) (cpu : ℕ) (p : Pc)
    → has_lock p ≡ false
    → Fits m cpu p
    → m'.owner ≢ cpu
    → Fits m' cpu p
lacks-Fits m m' cpu (rest zero) e f h = h
lacks-Fits m m' cpu (rest (suc n)) e f h = absurd (true-false refl e)
lacks-Fits m m' cpu (check_owner zero) e f h = h
lacks-Fits m m' cpu (check_owner (suc n)) e f h = absurd (true-false refl e)
lacks-Fits m m' cpu (check_locked zero) e f h = f
lacks-Fits m m' cpu (check_locked (suc n)) e f h = absurd (true-false refl e)
lacks-Fits m m' cpu (add_depth zero) e f h = f
lacks-Fits m m' cpu (add_depth (suc n)) e f h = absurd (true-false refl e)
lacks-Fits m m' cpu (try_lock n) e f h = (f.0, h)
lacks-Fits m m' cpu (set_owner n) e f h = absurd (true-false refl e)
lacks-Fits m m' cpu (set_depth n) e f h = absurd (true-false refl e)
lacks-Fits m m' cpu (clear_owner n) e f h = absurd (true-false refl e)
lacks-Fits m m' cpu (clear_locked n) e f h = absurd (true-false refl e)

pub lacks-owner :
    (m : Memory) (cpu : ℕ) (p : Pc) → has_lock p ≡ false → Fits m cpu p → m.owner ≢ cpu
lacks-owner m cpu (rest zero) e f = f
lacks-owner m cpu (rest (suc n)) e f = absurd (true-false refl e)
lacks-owner m cpu (check_owner zero) e f = f
lacks-owner m cpu (check_owner (suc n)) e f = absurd (true-false refl e)
lacks-owner m cpu (check_locked zero) e f = absurd f
lacks-owner m cpu (check_locked (suc n)) e f = absurd (true-false refl e)
lacks-owner m cpu (add_depth zero) e f = absurd f
lacks-owner m cpu (add_depth (suc n)) e f = absurd (true-false refl e)
lacks-owner m cpu (try_lock n) e f = f.1
lacks-owner m cpu (set_owner n) e f = absurd (true-false refl e)
lacks-owner m cpu (set_depth n) e f = absurd (true-false refl e)
lacks-owner m cpu (clear_owner n) e f = absurd (true-false refl e)
lacks-owner m cpu (clear_locked n) e f = absurd (true-false refl e)

-- A holder goes on or lets go; a CPU without the lock waits, or takes it when it is free.
pub data Effect (m : Memory) (p : Pc) (m' : Memory) (p' : Pc) : Type 0 where
  goes_on : has_lock p ≡ true → has_lock p' ≡ true → Effect m p m' p'
  lets_go : has_lock p ≡ true → has_lock p' ≡ false → m'.locked ≡ false → Effect m p m' p'
  waits : has_lock p ≡ false → has_lock p' ≡ false → m' ≡ m → Effect m p m' p'
  takes : has_lock p' ≡ true → m.locked ≡ false → m'.owner ≡ m.owner → Effect m p m' p'

pub Move-Effect :
    {m m' : Memory} {cpu : ℕ} {p p' : Pc} → Move m cpu p m' p' → Fits m cpu p → Effect m p m' p'
Move-Effect (calls_lock zero h) f = waits refl refl refl
Move-Effect (calls_lock (suc n) h) f = goes_on refl refl
Move-Effect (owner_is zero h) f = absurd (f h)
Move-Effect (owner_is (suc n) h) f = goes_on refl refl
Move-Effect (owner_is_not zero h) f = waits refl refl refl
Move-Effect (owner_is_not (suc n) h) f = absurd (h f.0.1)
Move-Effect (locked_is zero h) f = absurd f
Move-Effect (locked_is (suc n) h) f = goes_on refl refl
Move-Effect (locked_is_not zero h) f = absurd f
Move-Effect (locked_is_not (suc n) h) f = absurd (true-false f.0.0 h)
Move-Effect (adds_depth zero) f = absurd f
Move-Effect (adds_depth (suc n)) f = goes_on refl refl
Move-Effect (exchanges n h) f = takes refl h refl
Move-Effect (spins n) f = waits refl refl refl
Move-Effect (sets_owner n) f = goes_on refl refl
Move-Effect (sets_depth n) f = goes_on refl refl
Move-Effect (drops_nested zero h) f = absurd (h f.2)
Move-Effect (drops_nested (suc n) h) f = goes_on refl refl
Move-Effect (drops_last n h) f = goes_on refl refl
Move-Effect (clears_owner n) f = goes_on refl refl
Move-Effect (clears_locked zero) f = lets_go refl refl refl
Move-Effect (clears_locked (suc n)) f = absurd (omega (arith, f.0))

-- No move makes another CPU the owner.
pub Move-owner :
    {m m' : Memory} {cpu : ℕ} {p p' : Pc}
    → Move m cpu p m' p'
    → (j : ℕ) → j < max_cpus
    → cpu ≢ j
    → m.owner ≢ j
    → m'.owner ≢ j
Move-owner (calls_lock n h) j lt ne o = o
Move-owner (owner_is n h) j lt ne o = o
Move-owner (owner_is_not n h) j lt ne o = o
Move-owner (locked_is n h) j lt ne o = o
Move-owner (locked_is_not n h) j lt ne o = o
Move-owner (adds_depth n) j lt ne o = o
Move-owner (exchanges n h) j lt ne o = o
Move-owner (spins n) j lt ne o = o
Move-owner (sets_owner n) j lt ne o = ne
Move-owner (sets_depth n) j lt ne o = o
Move-owner (drops_nested n h) j lt ne o = o
Move-owner (drops_last n h) j lt ne o = o
Move-owner (clears_owner n) j lt ne o = λ e. omega (arith, e)
Move-owner (clears_locked n) j lt ne o = o
