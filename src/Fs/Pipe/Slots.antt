-- ===== src/Fs/Pipe/Slots.antt =====
-- What the operations of crates/kernel/src/fs/pipe.rs do to the pipe of an id: to their own, and
-- to the others.
use kazuos.Prelude.{
  ℕ, zero, suc, ◌<◌, Option, none, some, [], ◌∷◌, ◌≡◌, ◌≢◌, refl, ap, arith, get_elem?-set_self,
  get_elem?-set_ne, length, Option-cases, inl, inr,
}
use kazuos.Fs.Pipe.{PipeState, Pipes, create, join, pipe_at, with_pipe}

pipe_at-lt-length :
    (pipes : Pipes) (id : ℕ) (p : PipeState) → pipe_at id pipes ≡ some p → id < length pipes
pipe_at-lt-length [] id p e = cc
pipe_at-lt-length (o ∷ pipes) zero p e = omega arith
pipe_at-lt-length (o ∷ pipes) (suc id) p e = omega (arith, pipe_at-lt-length pipes id p e)

pub pipe_at-with_pipe :
    (id : ℕ) (f : PipeState → Option PipeState) (pipes : Pipes) (p : PipeState)
    → pipe_at id pipes ≡ some p
    → pipe_at id (with_pipe id f pipes) ≡ f p
unfolding with_pipe
pipe_at-with_pipe id f pipes p e =
    rw e (ap join (get_elem?-set_self pipes id (f p) (pipe_at-lt-length pipes id p e)))

pub pipe_at-with_pipe_ne :
    (id k : ℕ) (f : PipeState → Option PipeState) (pipes : Pipes)
    → k ≢ id
    → pipe_at id (with_pipe k f pipes) ≡ pipe_at id pipes
unfolding with_pipe
pipe_at-with_pipe_ne id k f pipes h = elim (Option-cases (pipe_at k pipes)) [
  | inl e ↦ rw e refl
  | inr e ↦ rw (e.1) (ap join (get_elem?-set_ne pipes k id (f e.0) h))
]

pub pipe_at-create :
    (id : ℕ) (pipes : Pipes) (p : PipeState)
    → pipe_at id pipes ≡ some p
    → pipe_at id (create pipes).1 ≡ some p
unfolding create
pipe_at-create id [] p e = cc
pipe_at-create zero (none ∷ pipes) p e = cc
pipe_at-create (suc id) (none ∷ pipes) p e = e
pipe_at-create zero (some q ∷ pipes) p e = e
pipe_at-create (suc id) (some q ∷ pipes) p e = pipe_at-create id pipes p e
