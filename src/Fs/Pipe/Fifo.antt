-- ===== src/Fs/Pipe/Fifo.antt =====
-- A pipe of crates/kernel/src/fs/pipe.rs as a queue: what readers get is what writers sent, in
-- order, whatever happens to the other pipes and the write ends meanwhile.
use kazuos.Prelude.{
  ℕ, ◌+◌, ◌-◌, ◌%◌, ◌^◌, ◌≤◌, ◌<◌, min, Bool, true, false, not, ◌&&◌, Option, some, List, [], ◌∷◌,
  ◌++◌, ◌==◌, if◌then◌else◌, ◌≡◌, refl, sym, ◌∙◌, ap, subst, arith, Bool-cases, inl, inr, ==_iff,
  true-false, length, take, drop, replicate, All, length-take, take-append, take-append-drop,
}
use kazuos.Fs.Pipe.{
  PipeState, Pipes, create, pipe_at, with_pipe, clone_write, clone_read, write, read, read_raw,
  append_data, drain, close_write, close_read, retire,
}
use kazuos.Fs.Pipe.Slots.{pipe_at-with_pipe, pipe_at-with_pipe_ne, pipe_at-create}

pub data Request : Type 0 where
  opens : Request
  adds_writer adds_reader : ℕ → Request
  writes : ℕ → List ℕ → Request
  reads reads_raw : ℕ → ℕ → Request
  closes_writer closes_reader : ℕ → Request

-- A reader comes with a buffer of `len` zeros and gets the bytes that the count covers. A blocked
-- reader gets the bytes that `read_raw` writes to its memory when a writer wakes it.
abbrev pub got_bytes : ℕ × List ℕ × Pipes → List ℕ × Pipes
got_bytes r = (take r.0 r.1, r.2)

abbrev pub zeros : ℕ → List ℕ
zeros len = replicate len 0

-- The bytes read, and the table after.
unfoldable pub step : Request → Pipes → List ℕ × Pipes
unfolding create clone_write clone_read write read read_raw close_write close_read
step opens pipes = ([], (create pipes).1)
step (adds_writer k) pipes = ([], clone_write k pipes)
step (adds_reader k) pipes = ([], clone_read k pipes)
step (writes k bytes) pipes = ([], (write k bytes pipes).1)
step (reads k len) pipes = got_bytes (read k (zeros len) pipes)
step (reads_raw k len) pipes = let r = read_raw k len pipes in (r.1, r.2)
step (closes_writer k) pipes = ([], close_write k pipes)
step (closes_reader k) pipes = ([], close_read k pipes)

-- The bytes that a request sends into the pipe `id`, and whether it reads from it.
abbrev pub sends : ℕ → Request → List ℕ
sends id (writes k bytes) = if k == id then bytes else []
sends id _ = []

abbrev pub reads_from : ℕ → Request → Bool
reads_from id (reads k len) = k == id
reads_from id (reads_raw k len) = k == id
reads_from id _ = false

-- Whether a request leaves the read ends of the pipe `id` open.
abbrev pub keeps_reader : ℕ → Request → Bool
keeps_reader id (closes_reader k) = not (k == id)
keeps_reader id _ = true

unfoldable pub run : List Request → Pipes → Pipes
unfolding step
run [] pipes = pipes
run (r ∷ requests) pipes = run requests (step r pipes).1

abbrev pub sent : ℕ → List Request → List ℕ
sent id [] = []
sent id (r ∷ requests) = sends id r ++ sent id requests

-- The bytes that the reads of the pipe `id` get, one after another.
unfoldable pub received : ℕ → List Request → Pipes → List ℕ
unfolding step
received id [] pipes = []
received id (r ∷ requests) pipes =
    let rest = received id requests (step r pipes).1 in
    if reads_from id r then (step r pipes).0 ++ rest else rest

abbrev pub gets : ℕ → Request → Pipes → List ℕ
gets id r pipes = if reads_from id r then (step r pipes).0 else []

-- The pipe `id` is still there, with the state `p'`: what was read and what it holds now is what
-- it held and what was sent.
abbrev pub Flows : ℕ → Pipes → PipeState → List ℕ → List ℕ → PipeState → Type 0
Flows id pipes p out into p' =
    (pipe_at id pipes ≡ some p')
    × (0 < p'.read_refs)
    × (p'.read_refs ≤ p.read_refs + 1)
    × (out ++ p'.content ≡ p.content ++ into)

append_nil : {A : Type 0} (xs : List A) → xs ++ [] ≡ xs
append_nil [] = refl
append_nil (x ∷ xs) = ap (λ ys. x ∷ ys) (append_nil xs)

append_assoc : {A : Type 0} (xs ys zs : List A) → (xs ++ ys) ++ zs ≡ xs ++ (ys ++ zs)
append_assoc [] ys zs = refl
append_assoc (x ∷ xs) ys zs = ap (λ l. x ∷ l) (append_assoc xs ys zs)

and-false : (b : Bool) → b && false ≡ false
and-false true = refl
and-false false = refl

not-inv : (b : Bool) → not b ≡ true → b ≡ false
not-inv true h = absurd (true-false refl (sym h))
not-inv false h = refl

take_copied :
    (n : ℕ) (bytes buf : List ℕ)
    → n ≤ length bytes
    → take n (take n bytes ++ drop n buf) ≡ take n bytes
take_copied n bytes buf h =
    let l : length (take n bytes) ≡ n = omega (arith, length-take n bytes) in
    subst (λ m. take m (take n bytes ++ drop n buf) ≡ take n bytes) l
      (take-append (take n bytes) (drop n buf))

read-got_bytes :
    (k : ℕ) (buf : List ℕ) (pipes : Pipes) (p : PipeState)
    → pipe_at k pipes ≡ some p
    → (got_bytes (read k buf pipes)).0 ≡ take (min (length buf) (length p.content)) p.content
unfolding read
read-got_bytes k buf pipes p at = rw at (take_copied _ p.content buf (omega arith))

module _ (id : ℕ) (pipes : Pipes) (p : PipeState) (at : pipe_at id pipes ≡ some p)
    (held : 0 < p.read_refs) (room : p.read_refs + 1 < 2 ^ 32) where
  -- A request on another pipe.
  other :
      (k : ℕ) (f : PipeState → Option PipeState)
      → k == id ≡ false
      → Flows id (with_pipe k f pipes) p [] [] p
  other k f g = (
    pipe_at-with_pipe_ne id k f pipes (λ same. true-false ((==_iff k id).1 same) g) ∙ at,
    held,
    omega arith,
    sym (append_nil p.content),
  )

  -- A request on this pipe.
  own :
      (k : ℕ) (f : PipeState → Option PipeState) (p' : PipeState) (out into : List ℕ)
      → k == id ≡ true
      → f p ≡ some p'
      → 0 < p'.read_refs
      → p'.read_refs ≤ p.read_refs + 1
      → out ++ p'.content ≡ p.content ++ into
      → Flows id (with_pipe k f pipes) p out into p'
  own k f p' out into g e o le c =
      let at' =
        subst (λ j. pipe_at id (with_pipe j f pipes) ≡ some p') (sym ((==_iff k id).0 g))
          (pipe_at-with_pipe id f pipes p at ∙ e) in
      (at', o, le, c)

  -- A change that keeps the content.
  quiet :
      (k : ℕ) (f : PipeState → Option PipeState) (p' : PipeState)
      → f p ≡ some p'
      → 0 < p'.read_refs
      → p'.read_refs ≤ p.read_refs + 1
      → p'.content ≡ p.content
      → (q : PipeState) × Flows id (with_pipe k f pipes) p [] [] q
  quiet k f p' e o le c = elim (Bool-cases (k == id)) [
    | inl g ↦ (p', own k f p' [] [] g e o le (c ∙ sym (append_nil p.content)))
    | inr g ↦ (p, other k f g)
  ]

  drained :
      (k len : ℕ)
      → k == id ≡ true
      → (got_bytes (read k (zeros len) pipes)).0 ++ (drain (length (zeros len)) p).content
        ≡ p.content ++ []
  drained k len g =
      rw
        (read-got_bytes k (zeros len) pipes p
          (subst (λ j. pipe_at j pipes ≡ some p) (sym ((==_iff k id).0 g)) at))
        (take-append-drop (min (length (zeros len)) (length p.content)) p.content
          ∙ sym (append_nil p.content))

  drained_raw :
      (k len : ℕ)
      → k == id ≡ true
      → (read_raw k len pipes).1 ++ (drain len p).content ≡ p.content ++ []
  unfolding read_raw
  drained_raw k len g =
      rw (subst (λ j. pipe_at j pipes ≡ some p) (sym ((==_iff k id).0 g)) at)
        (take-append-drop (min len (length p.content)) p.content ∙ sym (append_nil p.content))

  pub step-Flows :
      (r : Request)
      → keeps_reader id r ≡ true
      → (q : PipeState) × Flows id (step r pipes).1 p (gets id r pipes) (sends id r) q
  unfolding step create clone_write clone_read write read close_write close_read
  step-Flows opens h =
      (p, (pipe_at-create id pipes p at, held, omega arith, sym (append_nil p.content)))
  step-Flows (adds_writer k) h =
      quiet k (λ v. some (record v { write_refs = (v.write_refs + 1) % 2 ^ 32 }))
        (record p { write_refs = (p.write_refs + 1) % 2 ^ 32 }) refl held (omega arith) refl
  step-Flows (adds_reader k) h =
      quiet k (λ v. some (record v { read_refs = (v.read_refs + 1) % 2 ^ 32 }))
        (record p { read_refs = (p.read_refs + 1) % 2 ^ 32 }) refl (omega arith) (omega arith) refl
  step-Flows (writes k bytes) h = elim (Bool-cases (k == id)) [
    | inl g ↦ (
      record p { content = p.content ++ bytes },
      rw g (
          own k (λ v. some (append_data bytes v)) (record p { content = p.content ++ bytes }) []
            bytes g (let e : p.read_refs == 0 ≡ false = ground arith in rw e refl) held
            (omega arith) refl),
    )
    | inr g ↦ (p, rw g (other k (λ v. some (append_data bytes v)) g))
  ]
  step-Flows (reads k len) h = elim (Bool-cases (k == id)) [
    | inl g ↦ (
      drain (length (zeros len)) p,
      rw g (
          own k (λ v. some (drain (length (zeros len)) v)) (drain (length (zeros len)) p) _ [] g
            refl held (omega arith) (drained k len g)),
    )
    | inr g ↦ (p, rw g (other k (λ v. some (drain (length (zeros len)) v)) g))
  ]
  step-Flows (reads_raw k len) h = elim (Bool-cases (k == id)) [
    | inl g ↦ (
      drain len p,
      rw g (
          own k (λ v. some (drain len v)) (drain len p) _ [] g refl held (omega arith)
            (drained_raw k len g)),
    )
    | inr g ↦ (p, rw g (other k (λ v. some (drain len v)) g))
  ]
  step-Flows (closes_writer k) h =
      quiet k (λ v. retire (record v { write_refs = v.write_refs - 1 }))
        (record p { write_refs = p.write_refs - 1 })
        (let e : p.read_refs == 0 ≡ false = ground arith in
          rw (e, and-false (p.write_refs - 1 == 0)) refl)
        held (omega arith) refl
  step-Flows (closes_reader k) h =
      (p, other k (λ v. retire (record v { read_refs = v.read_refs - 1 })) (not-inv (k == id) h))

received-cons :
    (id : ℕ) (r : Request) (requests : List Request) (pipes : Pipes)
    → received id (r ∷ requests) pipes ≡ gets id r pipes ++ received id requests (step r pipes).1
unfolding received
received-cons id r requests pipes = elim (Bool-cases (reads_from id r)) [
  | inl e ↦ rw e refl
  | inr e ↦ rw e refl
]

-- While a pipe has a read end, which no request takes away and the 32-bit count of which does not
-- go round, whatever is done to the other pipes and to its write ends: the bytes that its readers
-- get, by `read` or, woken from a block, by `read_raw`, followed by those it still holds, are those
-- it held at first followed by all that were written to it, in order.
pub received-sent :
    (id : ℕ) (requests : List Request) (pipes : Pipes) (p : PipeState)
    → pipe_at id pipes ≡ some p
    → 0 < p.read_refs
    → p.read_refs + length requests < 2 ^ 32
    → All (λ r. keeps_reader id r ≡ true) requests
    → (q : PipeState) × (pipe_at id (run requests pipes) ≡ some q)
      × (received id requests pipes ++ q.content ≡ p.content ++ sent id requests)
unfolding run received
received-sent id [] pipes p at held room keeps = (p, at, sym (append_nil p.content))
received-sent id (r ∷ requests) pipes p at held room keeps =
    let (p', (at', held', le, flow)) = step-Flows id pipes p at held (omega arith) r keeps.0 in
    let (q, at_end, ih) =
      received-sent id requests (step r pipes).1 p' at' held' (omega arith) keeps.1 in
    (
      q,
      at_end,
      rw (received-cons id r requests pipes) (
          append_assoc (gets id r pipes) (received id requests (step r pipes).1) q.content
          ∙ ap (λ l. gets id r pipes ++ l) ih
          ∙ sym (append_assoc (gets id r pipes) p'.content (sent id requests))
          ∙ ap (λ l. l ++ sent id requests) flow
          ∙ append_assoc p.content (sends id r) (sent id requests)),
    )
