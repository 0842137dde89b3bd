-- ===== src/Fs/Fd/Ends.antt =====
-- The counts of a pipe's ends in crates/kernel/src/fs/pipe.rs against the number of descriptors
-- that refer to them.
use kazuos.Prelude.{
  ℕ, ◌+◌, ◌-◌, ◌^◌, ◌≤◌, ◌<◌, ◌&&◌, Option, none, some, ◌==◌, if◌then◌else◌, ◌≡◌, ◌≢◌, refl, sym,
  ◌∙◌, subst, arith, Bool-cases, Option-cases, inl, inr, ==_iff, true-false, and-inv,
}
use kazuos.Fs.Pipe.{
  PipeState, Pipes, pipe_at, with_pipe, clone_write, clone_read, retire, close_write, close_read,
}
use kazuos.Fs.Pipe.Slots.{pipe_at-with_pipe, pipe_at-with_pipe_ne}
use kazuos.Fs.Fd.{
  FdEntry, empty, file, device, console_out, console_in, pipe_read, pipe_write, pipe_clone, Fds,
  close_entry,
}

-- 1 if the entry is the write end, or the read end, of the pipe.
abbrev pub writes_to : ℕ → FdEntry → ℕ
writes_to id (pipe_write k) = if k == id then 1 else 0
writes_to id _ = 0

abbrev pub reads_from : ℕ → FdEntry → ℕ
reads_from id (pipe_read k) = if k == id then 1 else 0
reads_from id _ = 0

pub writes_to-le_one : (id : ℕ) (e : FdEntry) → writes_to id e ≤ 1
writes_to-le_one id (pipe_write k) = ground arith
writes_to-le_one id empty = omega arith
writes_to-le_one id (file x y z) = omega arith
writes_to-le_one id (device x y) = omega arith
writes_to-le_one id console_out = omega arith
writes_to-le_one id console_in = omega arith
writes_to-le_one id (pipe_read k) = omega arith

pub reads_from-le_one : (id : ℕ) (e : FdEntry) → reads_from id e ≤ 1
reads_from-le_one id (pipe_read k) = ground arith
reads_from-le_one id empty = omega arith
reads_from-le_one id (file x y z) = omega arith
reads_from-le_one id (device x y) = omega arith
reads_from-le_one id console_out = omega arith
reads_from-le_one id console_in = omega arith
reads_from-le_one id (pipe_write k) = omega arith

-- An open pipe has these counts; a closed one has no ends.
abbrev pub HasEnds : ℕ → ℕ → Option PipeState → Type 0
HasEnds w r none = (w ≡ 0) × (r ≡ 0)
HasEnds w r (some p) = (p.write_refs ≡ w) × (p.read_refs ≡ r)

abbrev pub IsBalanced : (ℕ → ℕ) → (ℕ → ℕ) → Pipes → Type 0
IsBalanced writers readers pipes = (id : ℕ) → HasEnds (writers id) (readers id) (pipe_at id pipes)

HasEnds-eq :
    {w r w' r' : ℕ} (o : Option PipeState) → w' ≡ w → r' ≡ r → HasEnds w r o → HasEnds w' r' o
HasEnds-eq none ew er h = (ew ∙ h.0, er ∙ h.1)
HasEnds-eq (some p) ew er h = (h.0 ∙ sym ew, h.1 ∙ sym er)

module _ (w r w' r' : ℕ → ℕ) (pipes : Pipes) (b : IsBalanced w r pipes) where
  -- A change of the pipe `k` alone.
  with_pipe-IsBalanced :
      (k : ℕ) (f : PipeState → Option PipeState)
      → ((o : Option PipeState)
          → HasEnds (w k) (r k) o
          → pipe_at k pipes ≡ o
          → HasEnds (w' k) (r' k) (pipe_at k (with_pipe k f pipes)))
      → ((id : ℕ) → k ≢ id → (w' id ≡ w id) × (r' id ≡ r id))
      → IsBalanced w' r' (with_pipe k f pipes)
  with_pipe-IsBalanced k f here there id = elim (Bool-cases (k == id)) [
    | inl e ↦
        subst (λ j. HasEnds (w' j) (r' j) (pipe_at j (with_pipe k f pipes))) ((==_iff k id).0 e)
          (here (pipe_at k pipes) (b k) refl)
    | inr e ↦
        let ne : k ≢ id = λ q. true-false ((==_iff k id).1 q) e in
        rw (pipe_at-with_pipe_ne id k f pipes ne)
          (HasEnds-eq (pipe_at id pipes) (there id ne).0 (there id ne).1 (b id))
  ]

  pub same-IsBalanced : ((id : ℕ) → (w' id ≡ w id) × (r' id ≡ r id)) → IsBalanced w' r' pipes
  same-IsBalanced e id = HasEnds-eq (pipe_at id pipes) (e id).0 (e id).1 (b id)

pub end_self : (k : ℕ) → (if k == k then 1 else 0) ≡ (let one : ℕ = 1 in one)
end_self k = ground arith

end_ne : (k id : ℕ) → k ≢ id → (if k == id then 1 else 0) ≡ (let none : ℕ = 0 in none)
end_ne k id h = ground arith

-- The pipe of an entry is open.
abbrev pub IsOpen : Pipes → FdEntry → Type 0
IsOpen pipes (pipe_write k) = (p : PipeState) × (pipe_at k pipes ≡ some p)
IsOpen pipes (pipe_read k) = (p : PipeState) × (pipe_at k pipes ≡ some p)
IsOpen pipes _ = Unit {0}

module _ (w r w' r' : ℕ → ℕ) (pipes : Pipes) (b : IsBalanced w r pipes) where
  -- One more descriptor, for an open pipe; the counts are 32 bits wide.
  pub pipe_clone-IsBalanced :
      (e : FdEntry)
      → IsOpen pipes e
      → ((id : ℕ) → (w id + 1 < 2 ^ 32) × (r id + 1 < 2 ^ 32))
      → ((id : ℕ) → (w' id ≡ w id + writes_to id e) × (r' id ≡ r id + reads_from id e))
      → IsBalanced w' r' (pipe_clone e pipes)
  unfolding pipe_clone clone_write clone_read
  pipe_clone-IsBalanced (pipe_write k) (p, at) room eq =
      with_pipe-IsBalanced w r w' r' pipes b k _
        (λ o h q. rw (pipe_at-with_pipe k _ pipes p at) (
          let mine = subst (HasEnds (w k) (r k)) at (b k) in
          (
            omega (arith, mine.0, (eq k).0, end_self k, (room k).0),
            omega (arith, mine.1, (eq k).1),
          )))
        (λ id ne. (omega (arith, (eq id).0, end_ne k id ne), omega (arith, (eq id).1)))
  pipe_clone-IsBalanced (pipe_read k) (p, at) room eq =
      with_pipe-IsBalanced w r w' r' pipes b k _
        (λ o h q. rw (pipe_at-with_pipe k _ pipes p at) (
          let mine = subst (HasEnds (w k) (r k)) at (b k) in
          (
            omega (arith, mine.0, (eq k).0),
            omega (arith, mine.1, (eq k).1, end_self k, (room k).1),
          )))
        (λ id ne. (omega (arith, (eq id).0), omega (arith, (eq id).1, end_ne k id ne)))
  pipe_clone-IsBalanced empty o room eq =
      same-IsBalanced w r w' r' pipes b (λ id. (omega (arith, (eq id).0), omega (arith, (eq id).1)))
  pipe_clone-IsBalanced (file x y z) o room eq =
      same-IsBalanced w r w' r' pipes b (λ id. (omega (arith, (eq id).0), omega (arith, (eq id).1)))
  pipe_clone-IsBalanced (device x y) o room eq =
      same-IsBalanced w r w' r' pipes b (λ id. (omega (arith, (eq id).0), omega (arith, (eq id).1)))
  pipe_clone-IsBalanced console_out o room eq =
      same-IsBalanced w r w' r' pipes b (λ id. (omega (arith, (eq id).0), omega (arith, (eq id).1)))
  pipe_clone-IsBalanced console_in o room eq =
      same-IsBalanced w r w' r' pipes b (λ id. (omega (arith, (eq id).0), omega (arith, (eq id).1)))

retire-HasEnds :
    (w r : ℕ) (p : PipeState) → p.write_refs ≡ w → p.read_refs ≡ r → HasEnds w r (retire p)
retire-HasEnds w r p ew er = elim (Bool-cases ((p.write_refs == 0) && (p.read_refs == 0))) [
  | inl e ↦
      let z = and-inv (p.write_refs == 0) (p.read_refs == 0) e in
      rw e (sym ew ∙ (==_iff p.write_refs 0).0 (z.0), sym er ∙ (==_iff p.read_refs 0).0 (z.1))
  | inr e ↦ rw e (ew, er)
]

module _ (w r w' r' : ℕ → ℕ) (s : Fds) (b : IsBalanced w r s.pipes) where
  -- One descriptor less; the last one frees the pipe.
  pub close_entry-IsBalanced :
      (e : FdEntry)
      → ((id : ℕ) → (w id ≡ w' id + writes_to id e) × (r id ≡ r' id + reads_from id e))
      → IsBalanced w' r' (close_entry e s).pipes
  unfolding close_entry close_write close_read
  close_entry-IsBalanced (pipe_write k) eq =
      with_pipe-IsBalanced w r w' r' s.pipes b k _
        (λ o h q. elim (Option-cases (pipe_at k s.pipes)) [
          | inl n ↦
              absurd (omega (arith, (subst (HasEnds (w k) (r k)) n (b k)).0, (eq k).0, end_self k))
          | inr p ↦ rw (pipe_at-with_pipe k _ s.pipes (p.0) (p.1)) (
              let mine = subst (HasEnds (w k) (r k)) (p.1) (b k) in
              retire-HasEnds (w' k) (r' k) (record p.0 { write_refs = p.0.write_refs - 1 })
                (omega (arith, mine.0, (eq k).0, end_self k)) (omega (arith, mine.1, (eq k).1)))
        ])
        (λ id ne. (omega (arith, (eq id).0, end_ne k id ne), omega (arith, (eq id).1)))
  close_entry-IsBalanced (pipe_read k) eq =
      with_pipe-IsBalanced w r w' r' s.pipes b k _
        (λ o h q. elim (Option-cases (pipe_at k s.pipes)) [
          | inl n ↦
              absurd (omega (arith, (subst (HasEnds (w k) (r k)) n (b k)).1, (eq k).1, end_self k))
          | inr p ↦ rw (pipe_at-with_pipe k _ s.pipes (p.0) (p.1)) (
              let mine = subst (HasEnds (w k) (r k)) (p.1) (b k) in
              retire-HasEnds (w' k) (r' k) (record p.0 { read_refs = p.0.read_refs - 1 })
                (omega (arith, mine.0, (eq k).0)) (omega (arith, mine.1, (eq k).1, end_self k)))
        ])
        (λ id ne. (omega (arith, (eq id).0), omega (arith, (eq id).1, end_ne k id ne)))
  close_entry-IsBalanced empty eq =
      same-IsBalanced w r w' r' s.pipes b
        (λ id. (omega (arith, (eq id).0), omega (arith, (eq id).1)))
  close_entry-IsBalanced (file x y z) eq =
      same-IsBalanced w r w' r' s.pipes b
        (λ id. (omega (arith, (eq id).0), omega (arith, (eq id).1)))
  close_entry-IsBalanced (device x y) eq =
      same-IsBalanced w r w' r' s.pipes b
        (λ id. (omega (arith, (eq id).0), omega (arith, (eq id).1)))
  close_entry-IsBalanced console_out eq =
      same-IsBalanced w r w' r' s.pipes b
        (λ id. (omega (arith, (eq id).0), omega (arith, (eq id).1)))
  close_entry-IsBalanced console_in eq =
      same-IsBalanced w r w' r' s.pipes b
        (λ id. (omega (arith, (eq id).0), omega (arith, (eq id).1)))
