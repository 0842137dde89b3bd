-- ===== src/Fs/Vfs/Contents.antt =====
-- The bytes of a file: what `write_at`, `truncate` and `read_at` of crates/kernel/src/fs/vfs.rs
-- do to them.
use native.Mathlib.Decide.{dec_lt}
use native.Mathlib.Nat.{mod-eq_of_lt}
use kazuos.Prelude.{
  ℕ, ◌+◌, ◌-◌, ◌^◌, ◌<◌, min, max, ◌≡◌, refl, ◌≢◌, ap, sym, ◌∙◌, subst, inl, inr, false, Option,
  some, List, [], ◌∷◌, ◌++◌, arith, ltb, leb, if◌then◌else◌, Bool-cases, Option-cases, length,
  get_elem?, get_or, take, drop, pad, length-append, length-take, length-drop, get_or-append_left,
  get_or-append_right, get_or-take, get_or-drop, get_or-pad, length-pad, take-append, drop-append,
  add64, get_elem?-set_self, get_elem?-set_ne, get_elem?-lt-length,
}
use kazuos.Fs.Vfs.Table.{Node, Nodes, put_node}
use kazuos.Fs.Vfs.Access.{live, read_at, read_node, write_at, splice}

-- The file as long as the write needs it.
padded_to : List ℕ → ℕ → List ℕ
padded_to c last = if ltb (length c) last then pad c last 0 else c

get_or-padded_to : (c : List ℕ) (last k : ℕ) → get_or (padded_to c last) k 0 ≡ get_or c k 0
unfolding padded_to
get_or-padded_to c last k = ground (arith, get_or-pad 0 c last k)

length-padded_to : (c : List ℕ) (last : ℕ) → length (padded_to c last) ≡ max (length c) last
unfolding padded_to
length-padded_to c last = ground (arith, length-pad 0 c last)

module _ (c : List ℕ) (offset : ℕ) (src : List ℕ) where
  front : List ℕ
  front = take offset (padded_to c (offset + length src))

  splice_parts :
      splice c offset (offset + length src) src
      ≡ front ++ (src ++ drop (offset + length src) (padded_to c (offset + length src)))
  unfolding front padded_to
  splice_parts = refl

  length-front : length front ≡ offset
  unfolding front
  length-front = omega (
    arith,
    length-take offset (padded_to c (offset + length src)),
    length-padded_to c (offset + length src),
  )

  -- A write makes the file as long as it needs, never shorter.
  pub length-splice :
      length (splice c offset (offset + length src) src) ≡ max (length c) (offset + length src)
  length-splice = rw splice_parts (
      omega (
        arith,
        length-front,
        length-append front (src ++ drop (offset + length src) (padded_to c (offset + length src))),
        length-append src (drop (offset + length src) (padded_to c (offset + length src))),
        length-drop (offset + length src) (padded_to c (offset + length src)),
        length-padded_to c (offset + length src),
      ))

  past : List ℕ
  past = drop (offset + length src) (padded_to c (offset + length src))

  whole : splice c offset (offset + length src) src ≡ front ++ (src ++ past)
  unfolding past
  whole = splice_parts

  before_offset :
      (k : ℕ) → k < offset → get_or (splice c offset (offset + length src) src) k 0 ≡ get_or c k 0
  unfolding front
  before_offset k h =
      ap (λ t. get_or t k 0) whole
      ∙ get_or-append_left 0 front (src ++ past) k (omega (arith, length-front))
      ∙ get_or-take 0 offset (padded_to c (offset + length src)) k h
      ∙ get_or-padded_to c (offset + length src) k

  from_offset :
      (k : ℕ)
      → get_or (splice c offset (offset + length src) src) (offset + k) 0 ≡ get_or (src ++ past) k 0
  from_offset k =
      let at : offset + k ≡ length front + k = omega (arith, length-front) in
      ap (λ t. get_or t (offset + k) 0) whole
      ∙ ap (λ j. get_or (front ++ (src ++ past)) j 0) at
      ∙ get_or-append_right 0 front (src ++ past) k

  after_write :
      (k : ℕ) → get_or (src ++ past) (length src + k) 0 ≡ get_or c (offset + length src + k) 0
  unfolding past
  after_write k =
      get_or-append_right 0 src past k
      ∙ get_or-drop 0 (offset + length src) (padded_to c (offset + length src)) k
      ∙ get_or-padded_to c (offset + length src) (offset + length src + k)

  -- The bytes written stand at the offset; all others are as before, and a gap reads as zeros.
  pub get_or-splice :
      (k : ℕ)
      → get_or (splice c offset (offset + length src) src) k 0 ≡ (
          if ltb k offset
          then get_or c k 0
          else if ltb k (offset + length src)
          then get_or src (k - offset) 0
          else get_or c k 0)
  get_or-splice k = elim (dec_lt k offset) [
    | yes p ↦ ground (arith, before_offset k p)
    | no p ↦
        let at : offset + (k - offset) ≡ k = omega arith in
        let here =
          subst
            (λ j.
              get_or (splice c offset (offset + length src) src) j 0
              ≡ get_or (src ++ past) (k - offset) 0)
            at (from_offset (k - offset)) in
        elim (dec_lt k (offset + length src)) [
          | yes q ↦ ground (arith, here, get_or-append_left 0 src past (k - offset) (omega arith))
          | no q ↦
              let on : length src + (k - offset - length src) ≡ k - offset = omega arith in
              let on' : offset + length src + (k - offset - length src) ≡ k = omega arith in
              let rest =
                ap (λ j. get_or (src ++ past) j 0) (sym on)
                ∙ after_write (k - offset - length src)
                ∙ ap (λ j. get_or c j 0) on' in
              ground (arith, here, rest)
        ]
  ]

  -- Reading back at the offset gives the bytes written.
  pub take-drop-splice :
      take (length src) (drop offset (splice c offset (offset + length src) src)) ≡ src
  take-drop-splice =
      ap (λ t. take (length src) (drop offset t)) whole
      ∙ ap (λ n. take (length src) (drop n (front ++ (src ++ past)))) (sym length-front)
      ∙ ap (take (length src)) (drop-append front (src ++ past))
      ∙ take-append src past

live-put_node :
    (nodes : Nodes) (i g : ℕ) {n m : Node}
    → live nodes i g ≡ some n
    → live (put_node nodes i (some m)) i g ≡ some m
unfolding live
live-put_node nodes i g {n} {m} e = elim (Option-cases (get_elem? nodes i)) [
  | inl missing ↦ ground arith
  | inr (s, at) ↦
      rw
        (
          at,
          put_node,
          get_elem?-set_self nodes i (record s { node = some m }) (get_elem?-lt-length nodes i at),
        )
        (ground arith)
]

live-put_node_ne :
    (nodes : Nodes) (i j h : ℕ) (v : Option Node)
    → i ≢ j
    → live (put_node nodes i v) j h ≡ live nodes j h
unfolding live
live-put_node_ne nodes i j h v ne = elim (Option-cases (get_elem? nodes i)) [
  | inl missing ↦ rw (missing, put_node)
  | inr (s, at) ↦ rw (at, put_node, get_elem?-set_ne nodes i j (record s { node = v }) ne)
]

spliced : Node → ℕ → List ℕ → Node
spliced n offset src = record n { contents = splice n.contents offset (offset + length src) src }

write_at-splice :
    (nodes : Nodes) (i g offset : ℕ) (src : List ℕ) (n : Node)
    → live nodes i g ≡ some n
    → n.is_dir ≡ false
    → offset + length src < 2 ^ 64
    → write_at nodes i g offset src
      ≡ some (length src, put_node nodes i (some (spliced n offset src)))
unfolding write_at spliced
write_at-splice nodes i g offset src n e f fits =
    let fits' : add64 offset (length src) ≡ offset + length src = mod-eq_of_lt fits in
    let no_wrap : ltb (offset + length src) offset ≡ false = ground arith in
    rw (e, write_at, f, fits', no_wrap)

-- The table after `write_at` on an open file.
pub record Written (nodes : Nodes) (i g : ℕ) (n : Node) (offset : ℕ) (src : List ℕ) (nodes' : Nodes)
    : Type 0 where
  pub contents : List ℕ
  pub file : live nodes' i g ≡ some (record n { contents = contents })
  pub len : length contents ≡ max (length n.contents) (offset + length src)
  pub bytes :
      (k : ℕ)
      → get_or contents k 0 ≡ (
          if ltb k offset
          then get_or n.contents k 0
          else if ltb k (offset + length src)
          then get_or src (k - offset) 0
          else get_or n.contents k 0)
  pub others : (j h : ℕ) → i ≢ j → live nodes' j h ≡ live nodes j h

-- `write_at` on an open file takes all bytes: they stand at the offset, a gap before it reads as
-- zeros, all other bytes of the file and all other files are as before.
pub write_at-Written :
    (nodes : Nodes) (i g offset : ℕ) (src : List ℕ) (n : Node)
    → live nodes i g ≡ some n
    → n.is_dir ≡ false
    → offset + length src < 2 ^ 64
    → (nodes' : Nodes) × (write_at nodes i g offset src ≡ some (length src, nodes'))
      × Written nodes i g n offset src nodes'
unfolding spliced
write_at-Written nodes i g offset src n e f fits = (
  put_node nodes i (some (spliced n offset src)),
  write_at-splice nodes i g offset src n e f fits,
  record {
    contents = splice n.contents offset (offset + length src) src;
    file = live-put_node nodes i g e;
    len = length-splice n.contents offset src;
    bytes = get_or-splice n.contents offset src;
    others = λ j h ne. live-put_node_ne nodes i j h _ ne;
  },
)

nil_of_length : (src : List ℕ) → length src ≡ 0 → [] ≡ src
nil_of_length [] e = refl
nil_of_length (x ∷ src) e = absurd (omega arith)

read_node-splice :
    (n : Node) (offset : ℕ) (src : List ℕ)
    → n.is_dir ≡ false
    → read_node (some (spliced n offset src)) offset (length src) ≡ src
unfolding spliced
read_node-splice n offset src f = elim (Bool-cases (leb (length c) offset)) [
  | inl short ↦
      rw (f, short) (nil_of_length src (ground (arith, length-splice n.contents offset src)))
  | inr long ↦
      let all : min (length src) (length c - offset) ≡ length src =
        omega (arith, length-splice n.contents offset src) in
      rw (f, long, all) (take-drop-splice n.contents offset src)
]
  where
    c : List ℕ
    c = splice n.contents offset (offset + length src) src

-- Reading back at the same offset through the same handle gives the bytes that were written.
pub read_at-write_at :
    (nodes : Nodes) (i g offset : ℕ) (src : List ℕ) (n : Node) {nodes' : Nodes} {count : ℕ}
    → live nodes i g ≡ some n
    → n.is_dir ≡ false
    → offset + length src < 2 ^ 64
    → write_at nodes i g offset src ≡ some (count, nodes')
    → (count ≡ length src) × (read_at nodes' i g offset count ≡ src)
unfolding read_at
read_at-write_at nodes i g offset src n {nodes'} {count} e f fits w =
    let (same, table) = both (sym w ∙ write_at-splice nodes i g offset src n e f fits) in
    (same, rw (same, table, live-put_node nodes i g e) (read_node-splice n offset src f))
  where
    both :
        {a b : ℕ} {s t : Nodes}
        → ◌≡◌ {A = Option (ℕ × Nodes)} (some (a, s)) (some (b, t))
        → (a ≡ b) × (s ≡ t)
    both e = (ground arith, ground arith)
