-- ===== src/Pmm/Bitmap/Laws.antt =====
-- Reading a bitmap after a write: laws of `get_bit`, `set_bit` and `mark_region` of
-- crates/kernel/src/memory/pmm.rs.
use native.Mathlib.Decide.{ℕ_discrete, dec_lt}
use kazuos.Prelude.{
  ℕ, zero, suc, ◌+◌, ◌-◌, ◌*◌, ◌/◌, ◌%◌, ◌≤◌, ◌<◌, min, ◌≡◌, refl, ap, ◌⊎◌, inl, inr, Bool, true,
  false, not, ◌&&◌, List, arith, length, get_or, length-set, get_or-set_self, get_or-set_ne,
  All-set, get_or-All, ◌==◌, ltb, leb, if◌then◌else◌, replicate, get_or-replicate, add64,
}
use kazuos.Pmm.Bitmap.{
  write_bit, read_bit, set_bit, get_bit, mark_frames, mark_region, IsBitmap, differs,
  div_ceil_frame, frame_size,
}

-- A law about one byte is checked at each of its values: `holds p n` runs through `p` below `n`.
holds : (ℕ → Bool) → ℕ → Bool
holds p zero = true
holds p (suc n) = if p n then holds p n else false

holds-at : (p : ℕ → Bool) (n : ℕ) {x : ℕ} → x < n → holds p n ≡ true → p x ≡ true
unfolding holds
holds-at p zero lt h = elim lt [ ]
holds-at p (suc n) {x} lt h = elim (ℕ_discrete x n) [
  | yes last ↦ rw last (ground arith)
  | no earlier ↦ holds-at p n (omega arith) (ground arith)
]

abbrev same : Bool → Bool → Bool
same true b = b
same false b = not b

same→eq : (a b : Bool) → same a b ≡ true → a ≡ b
same→eq true b h = ground arith
same→eq false b h = ground arith

abbrev byte_law : Bool → ℕ → ℕ → ℕ → Bool
byte_law v byte k j =
    same (read_bit (write_bit byte k v) j) (if k == j then v else read_bit byte j)
    && ltb (write_bit byte k v) 256

abbrev byte_table : Bool → Bool
byte_table v = holds (λ byte. holds (λ k. holds (byte_law v byte k) 8) 8) 256

byte_table-true : byte_table true ≡ true
unfolding holds read_bit write_bit
byte_table-true = refl

byte_table-false : byte_table false ≡ true
unfolding holds read_bit write_bit
byte_table-false = refl

byte_law_holds : (v : Bool) (byte k j : ℕ) → byte < 256 → k < 8 → j < 8 → byte_law v byte k j ≡ true
byte_law_holds v byte k j hb hk hj = holds-at _ 8 hj (holds-at _ 8 hk (holds-at _ 256 hb (table v)))
  where
    table : (v : Bool) → byte_table v ≡ true
    table true = byte_table-true
    table false = byte_table-false

read_bit-write_bit :
    (v : Bool) (byte k j : ℕ)
    → byte < 256
    → k < 8
    → j < 8
    → read_bit (write_bit byte k v) j ≡ (if k == j then v else read_bit byte j)
read_bit-write_bit v byte k j hb hk hj =
    same→eq _ _ (ground (arith, byte_law_holds v byte k j hb hk hj))

write_bit-lt : (v : Bool) (byte k : ℕ) → byte < 256 → k < 8 → write_bit byte k v < 256
write_bit-lt v byte k hb hk = ground (arith, byte_law_holds v byte k 0 hb hk (omega arith))

pub length-set_bit : (m : List ℕ) (i : ℕ) (v : Bool) → length (set_bit m i v) ≡ length m
unfolding set_bit
length-set_bit m i v = length-set m _ _

pub set_bit-IsBitmap : (m : List ℕ) (i : ℕ) (v : Bool) → IsBitmap m → IsBitmap (set_bit m i v)
unfolding set_bit
set_bit-IsBitmap m i v h =
    All-set _ m (i / 8) _ h
      (write_bit-lt v _ (i % 8) (get_or-All _ m (i / 8) 255 h (omega arith)) (omega arith))

-- A bit reads back as it was written, and the others are left alone.
pub get_bit-set_bit :
    (m : List ℕ) (i j : ℕ) (v : Bool)
    → IsBitmap m
    → i < 8 * length m
    → get_bit (set_bit m i v) j ≡ (if i == j then v else get_bit m j)
unfolding set_bit get_bit
get_bit-set_bit m i j v h lt = elim (ℕ_discrete (i / 8) (j / 8)) [
  | yes e ↦
      let law =
        read_bit-write_bit v (get_or m (i / 8) 255) (i % 8) (j % 8)
          (get_or-All _ m (i / 8) 255 h (omega arith)) (omega arith) (omega arith) in
      rw (← e, get_or-set_self m (i / 8) _ 255 (omega arith)) (ground (arith, law))
  | no ne ↦ rw (get_or-set_ne m (i / 8) (j / 8) _ 255 ne) (ground (arith, ap (λ (t : ℕ). t / 8)))
]

full_byte_table : holds (read_bit 255) 8 ≡ true
unfolding holds read_bit
full_byte_table = refl

-- Filled with 0xff, the bitmap has every frame used.
pub get_bit-replicate : (n j : ℕ) → get_bit (replicate n 255) j ≡ true
unfolding get_bit
get_bit-replicate n j =
    rw (get_or-replicate {A = ℕ} 255 n (j / 8)) (holds-at _ 8 (omega arith) full_byte_table)

pub replicate-IsBitmap : (n : ℕ) → IsBitmap (replicate n 255)
replicate-IsBitmap zero = tt
replicate-IsBitmap (suc n) = (omega arith, replicate-IsBitmap n)

-- Whether `j` is one of the `n` frames from `start` on.
abbrev pub in_run : ℕ → ℕ → ℕ → Bool
in_run start n j = leb start j && ltb j (start + n)

pub record Marks (m : List ℕ) (inside : ℕ → Bool) (v : Bool) (m' : List ℕ) : Type 0 where
  pub bytes : IsBitmap m'
  pub same_length : length m' ≡ length m
  pub bits : (j : ℕ) → get_bit m' j ≡ (if inside j then v else get_bit m j)

pub mark_frames-Marks :
    (m : List ℕ) (start n : ℕ) (v : Bool) (c : ℕ)
    → IsBitmap m
    → (n ≡ 0) ⊎ (start + n ≤ 8 * length m)
    → Marks m (in_run start n) v (mark_frames m start n v c).0
unfolding mark_frames
mark_frames-Marks m start zero v c h le = record {
  bytes = h;
  same_length = refl;
  bits = λ j. ground arith;
}
mark_frames-Marks m start (suc n) v c h (inl e) = absurd (omega arith)
mark_frames-Marks m start (suc n) v c h (inr le) =
    let r =
      mark_frames-Marks (set_bit m start v) (start + 1) n v
        (if differs (get_bit m start) v then c + 1 else c) (set_bit-IsBitmap m start v h)
        (inr (omega (arith, length-set_bit m start v))) in
    record {
      bytes = r.bytes;
      same_length = omega (arith, r.same_length, length-set_bit m start v);
      bits = λ j. ground (arith, r.bits j, get_bit-set_bit m start j v h (omega arith));
    }

-- Whether `mark_region` touches the frame `j`: the region's first and last frame are included
-- where it covers them in part.
abbrev pub in_region : ℕ → ℕ → ℕ → ℕ → Bool
in_region total phys_start size j =
    leb (phys_start / frame_size) j && ltb j (min (div_ceil_frame (add64 phys_start size)) total)

-- `mark_region` sets the bits of the region's frames and leaves the others alone.
pub mark_region-Marks :
    (m : List ℕ) (total phys_start size : ℕ) (v : Bool)
    → IsBitmap m
    → total ≡ 8 * length m
    → Marks m (in_region total phys_start size) v (mark_region m total phys_start size v).0
unfolding mark_region
mark_region-Marks m total phys_start size v h e =
    let first = phys_start / frame_size in
    let last = min (div_ceil_frame (add64 phys_start size)) total in
    let r = mark_frames-Marks m first (last - first) v 0 h (room first last (omega arith)) in
    record {
      bytes = r.bytes;
      same_length = r.same_length;
      bits = λ j. bits_at first last j (get_bit m j) (r.bits j);
    }
  where
    room :
        (first last : ℕ)
        → last ≤ 8 * length m
        → (last - first ≡ 0) ⊎ (first + (last - first) ≤ 8 * length m)
    room first last le = elim (dec_lt first last) [
      | yes p ↦ inr (omega arith)
      | no p ↦ inl (omega arith)
    ]

    bits_at :
        (first last j : ℕ) {a : Bool} (b : Bool)
        → a ≡ (if in_run first (last - first) j then v else b)
        → a ≡ (if leb first j && ltb j last then v else b)
    bits_at first last j b e = ground arith
