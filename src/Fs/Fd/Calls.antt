-- ===== src/Fs/Fd/Calls.antt =====
-- The system calls that make descriptors, of crates/kernel/src/syscall/runtime.rs and
-- crates/kernel/src/task/exec.rs, keep the counts of the pipes right.
use kazuos.Prelude.{
  ℕ, zero, suc, ◌+◌, ◌^◌, ◌<◌, Bool, true, false, Option, none, some, [], ◌∷◌, ◌==◌, ltb, ◌≡◌, refl,
  sym, ◌∙◌, subst, arith, length, Bool-cases, inl, inr, ==_iff, true-false,
}
use kazuos.Fs.Pipe
use kazuos.Fs.Pipe.{PipeState, new_pipe, Pipes, pipe_at, with_pipe, clone_write, clone_read}
use kazuos.Fs.Pipe.Slots.{pipe_at-with_pipe, pipe_at-with_pipe_ne}
use kazuos.Fs.Fd.{
  FdEntry, empty, file, device, console_out, console_in, pipe_read, pipe_write, Fds, max_fd,
  table_at, table_or_empty, ensure_table, pipe_clone, first_empty, alloc_in, alloc_fd, free_fd,
  free_opt, finish_pipe, sys_pipe,
}
use kazuos.Fs.Fd.Ends.{HasEnds}
use kazuos.Fs.Fd.Alloc.{writers, readers, IsCounted, IsCounted-mono, alloc_fd-IsCounted}
use kazuos.Fs.Fd.Close.{free_fd-IsCounted}

-- A new pipe has no ends.
pub create-HasEnds :
    (id w r : ℕ) (pipes : Pipes)
    → HasEnds w r (pipe_at id pipes)
    → HasEnds w r (pipe_at id (Pipe.create pipes).1)
unfolding Pipe.create
create-HasEnds zero w r [] h = (sym (h.0), sym (h.1))
create-HasEnds (suc id) w r [] h = h
create-HasEnds zero w r (none ∷ pipes) h = (sym (h.0), sym (h.1))
create-HasEnds (suc id) w r (none ∷ pipes) h = h
create-HasEnds zero w r (some p ∷ pipes) h = h
create-HasEnds (suc id) w r (some p ∷ pipes) h = create-HasEnds id w r pipes h

pub create-at :
    (pipes : Pipes) → pipe_at (Pipe.create pipes).0 (Pipe.create pipes).1 ≡ some new_pipe
unfolding Pipe.create
create-at [] = refl
create-at (none ∷ pipes) = refl
create-at (some p ∷ pipes) = create-at pipes

IsThere : ℕ → Pipes → Type 0
IsThere id pipes = (p : PipeState) × (pipe_at id pipes ≡ some p)

-- A further descriptor keeps an open pipe open.
with_pipe-IsThere :
    (id k : ℕ) (f : PipeState → PipeState) (pipes : Pipes)
    → IsThere id pipes
    → IsThere id (with_pipe k (λ p. some (f p)) pipes)
unfolding IsThere
with_pipe-IsThere id k f pipes (p, at) = elim (Bool-cases (k == id)) [
  | inl e ↦ rw (sym ((==_iff k id).0 e)) (
    f p,
    pipe_at-with_pipe k (λ q. some (f q)) pipes p
        (subst (λ j. pipe_at j pipes ≡ some p) (sym ((==_iff k id).0 e)) at),
  )
  | inr e ↦ (
    p,
    pipe_at-with_pipe_ne id k (λ q. some (f q)) pipes (λ q. true-false ((==_iff k id).1 q) e) ∙ at,
  )
]

pipe_clone-IsThere :
    (id : ℕ) (e : FdEntry) (pipes : Pipes) → IsThere id pipes → IsThere id (pipe_clone e pipes)
unfolding pipe_clone clone_write clone_read
pipe_clone-IsThere id (pipe_read k) pipes h = with_pipe-IsThere id k _ pipes h
pipe_clone-IsThere id (pipe_write k) pipes h = with_pipe-IsThere id k _ pipes h
pipe_clone-IsThere id empty pipes h = h
pipe_clone-IsThere id (file x y z) pipes h = h
pipe_clone-IsThere id (device x y) pipes h = h
pipe_clone-IsThere id console_out pipes h = h
pipe_clone-IsThere id console_in pipes h = h

alloc_fd-IsThere :
    (id pid : ℕ) (e : FdEntry) (s : Fds)
    → IsThere id s.pipes
    → IsThere id (alloc_fd pid e s).1.pipes
unfolding alloc_fd
alloc_fd-IsThere id pid e s h =
    alloc_in-there (first_empty (table_or_empty (table_at pid (ensure_table pid s.tables))))
  where
    alloc_in-there :
        (o : Option ℕ)
        → IsThere id
            (alloc_in pid e
              (table_or_empty (table_at pid (ensure_table pid s.tables)))
              (record s { tables = ensure_table pid s.tables })
              o).1.pipes
    alloc_in-there (some i) = pipe_clone-IsThere id e s.pipes h
    alloc_in-there none =
        elim (Bool-cases
          (ltb (length (table_or_empty (table_at pid (ensure_table pid s.tables)))) max_fd)) [
            | inl b ↦ rw b (pipe_clone-IsThere id e s.pipes h)
            | inr b ↦ rw b h
          ]

module _ (n caller : ℕ) (s : Fds) (h : IsCounted n s) where
  free_opt-IsCounted : (o : Option ℕ) → IsCounted n (free_opt caller o s)
  free_opt-IsCounted none = h
  free_opt-IsCounted (some fd) = free_fd-IsCounted n caller s h fd

  finish_pipe-IsCounted :
      (written : Bool) (r w : Option ℕ) → IsCounted n (finish_pipe caller written r w s).1
  finish_pipe-IsCounted true (some r) (some w) = h
  finish_pipe-IsCounted false (some r) (some w) =
      free_fd-IsCounted n caller (free_fd caller r s).1 (free_fd-IsCounted n caller s h r) w
  finish_pipe-IsCounted written (some r) none = free_fd-IsCounted n caller s h r
  finish_pipe-IsCounted written none w = free_opt-IsCounted w

-- Each end of the new pipe is counted once, and a descriptor that is taken back is not.
pub sys_pipe-IsCounted :
    (n caller : ℕ) (written : Bool) (s : Fds)
    → IsCounted n s
    → n + 2 < 2 ^ 32
    → IsCounted (n + 2) (sys_pipe caller written s).1
unfolding sys_pipe IsThere
sys_pipe-IsCounted n caller written s h room =
    let id = (Pipe.create s.pipes).0 in
    let s0 : Fds = record s { pipes = (Pipe.create s.pipes).1 } in
    let there : IsThere id s0.pipes = (new_pipe, create-at s.pipes) in
    let h0 : IsCounted n s0 =
      (λ k. create-HasEnds k (writers s k) (readers s k) s.pipes (h.0 k), h.1) in
    let h1 = alloc_fd-IsCounted n caller (pipe_read id) s0 h0 (omega (arith, room)) there in
    let s1 = (alloc_fd caller (pipe_read id) s0).1 in
    let h2 =
      alloc_fd-IsCounted (n + 1) caller (pipe_write id) s1 h1 (omega (arith, room))
        (alloc_fd-IsThere id caller (pipe_read id) s0 there) in
    let s2 = (alloc_fd caller (pipe_write id) s1).1 in
    finish_pipe-IsCounted (n + 2) caller s2 (IsCounted-mono (n + 1 + 1) (n + 2) s2 (omega arith) h2)
      written _ _
