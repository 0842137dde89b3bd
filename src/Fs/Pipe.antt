-- ===== src/Fs/Pipe.antt =====
-- The pipes of crates/kernel/src/fs/pipe.rs: byte queues with counted ends, in a table with holes.
-- Every function runs under the thread lock, so each is one step on the table.
pub mod Slots
pub mod Fifo
mod Tests
use kazuos.Prelude.{
  ℕ, zero, suc, ◌+◌, ◌-◌, ◌%◌, ◌^◌, min, Bool, true, false, ◌&&◌, Option, none, some, List, [], ◌∷◌,
  ◌++◌, ◌==◌, if◌then◌else◌, length, get_elem?, set, take, drop,
}

pub record PipeState : Type 0 where
  pub content : List ℕ
  pub write_refs : ℕ
  pub read_refs : ℕ

abbrev pub Pipes : Type 0
Pipes = List (Option PipeState)

abbrev pub new_pipe : PipeState
new_pipe = record { content = []; write_refs = 0; read_refs = 0 }

-- The first hole, or a new slot at the end.
unfoldable pub create : Pipes → ℕ × Pipes
create [] = (0, some new_pipe ∷ [])
create (none ∷ pipes) = (0, some new_pipe ∷ pipes)
create (some p ∷ pipes) = let (id, rest) = create pipes in (suc id, some p ∷ rest)

abbrev pub join : Option (Option PipeState) → Option PipeState
join none = none
join (some o) = o

-- `if let Some(Some(pipe)) = pipes().get_mut(id as usize)`
abbrev pub pipe_at : ℕ → Pipes → Option PipeState
pipe_at id pipes = join (get_elem? pipes id)

abbrev pub put : ℕ → (PipeState → Option PipeState) → Pipes → Option PipeState → Pipes
put id f pipes none = pipes
put id f pipes (some p) = set pipes id (f p)

-- The pipe, if there is one, is changed or freed.
unfoldable pub with_pipe : ℕ → (PipeState → Option PipeState) → Pipes → Pipes
with_pipe id f pipes = put id f pipes (pipe_at id pipes)

-- `+=` on `u32` as compiled for release: it wraps.
unfoldable pub clone_write : ℕ → Pipes → Pipes
unfolding with_pipe
clone_write id = with_pipe id λ p. some (record p { write_refs = (p.write_refs + 1) % 2 ^ 32 })

unfoldable pub clone_read : ℕ → Pipes → Pipes
unfolding with_pipe
clone_read id = with_pipe id λ p. some (record p { read_refs = (p.read_refs + 1) % 2 ^ 32 })

abbrev pub append_data : List ℕ → PipeState → PipeState
append_data bytes p = if p.read_refs == 0 then p else record p { content = p.content ++ bytes }

abbrev pub taken : List ℕ → Option PipeState → ℕ
taken bytes none = 0
taken bytes (some p) = if p.read_refs == 0 then 0 else length bytes

unfoldable pub write : ℕ → List ℕ → Pipes → ℕ × Pipes
unfolding with_pipe
write id bytes pipes =
    (taken bytes (pipe_at id pipes), with_pipe id (λ p. some (append_data bytes p)) pipes)

abbrev pub drain : ℕ → PipeState → PipeState
drain n p = record p { content = drop (min n (length p.content)) p.content }

abbrev pub copied : List ℕ → Option PipeState → ℕ × List ℕ
copied buf none = (0, buf)
copied buf (some p) =
    let n = min (length buf) (length p.content) in (n, take n p.content ++ drop n buf)

-- The count, the buffer after the copy, and the table.
unfoldable pub read : ℕ → List ℕ → Pipes → ℕ × List ℕ × Pipes
unfolding with_pipe
read id buf pipes =
    let (n, buf') = copied buf (pipe_at id pipes) in
    (n, buf', with_pipe id (λ p. some (drain (length buf) p)) pipes)

abbrev copied_raw : ℕ → Option PipeState → ℕ × List ℕ
copied_raw max_len none = (0, [])
copied_raw max_len (some p) = let n = min max_len (length p.content) in (n, take n p.content)

-- The count, the bytes that are written from `buf_ptr` on, and the table.
unfoldable pub read_raw : ℕ → ℕ → Pipes → ℕ × List ℕ × Pipes
unfolding with_pipe
read_raw id max_len pipes =
    let (n, bytes) = copied_raw max_len (pipe_at id pipes) in
    (n, bytes, with_pipe id (λ p. some (drain max_len p)) pipes)

abbrev is_empty_list : List ℕ → Bool
is_empty_list [] = true
is_empty_list (b ∷ bytes) = false

abbrev pub test_or_true : (PipeState → Bool) → Option PipeState → Bool
test_or_true f none = true
test_or_true f (some p) = f p

unfoldable pub is_empty : ℕ → Pipes → Bool
is_empty id pipes = test_or_true (λ p. is_empty_list p.content) (pipe_at id pipes)

unfoldable pub writer_closed : ℕ → Pipes → Bool
writer_closed id pipes = test_or_true (λ p. p.write_refs == 0) (pipe_at id pipes)

-- The slot is freed once no end is left.
abbrev pub retire : PipeState → Option PipeState
retire p = if (p.write_refs == 0) && (p.read_refs == 0) then none else some p

unfoldable pub close_write : ℕ → Pipes → Pipes
unfolding with_pipe
close_write id = with_pipe id λ p. retire (record p { write_refs = p.write_refs - 1 })

unfoldable pub close_read : ℕ → Pipes → Pipes
unfolding with_pipe
close_read id = with_pipe id λ p. retire (record p { read_refs = p.read_refs - 1 })
