-- ===== src/Pmm/Bitmap.antt =====
-- The frame bitmap of crates/kernel/src/memory/pmm.rs: `set_bit`, `get_bit` and `mark_region`.
-- A bitmap is the list of its bytes. A read past the end gives 0xff and a write there changes
-- nothing; `IsBitmap` and the bounds in the theorems keep every access inside.
pub mod Laws
use Prim.Native.Nat.{bit_and, bit_or, bit_xor}
use kazuos.Prelude.{
  ℕ, zero, suc, ◌+◌, ◌-◌, ◌/◌, ◌%◌, ◌^◌, ◌<◌, min, Bool, true, false, not, List, get_or, set, All,
  ◌==◌, if◌then◌else◌, add64,
}

abbrev pub frame_size : ℕ
frame_size = 4096

-- `byte | (1 << bit)` and `byte & !(1 << bit)` on a `u8`.
unfoldable pub write_bit : ℕ → ℕ → Bool → ℕ
write_bit byte bit value =
    if value then bit_or byte (2 ^ bit) else bit_and byte (bit_xor 255 (2 ^ bit))

-- `(byte >> bit) & 1 != 0`
unfoldable pub read_bit : ℕ → ℕ → Bool
read_bit byte bit = not (bit_and (byte / 2 ^ bit) 1 == 0)

unfoldable pub set_bit : List ℕ → ℕ → Bool → List ℕ
unfolding write_bit
set_bit bitmap index value =
    set bitmap (index / 8) (write_bit (get_or bitmap (index / 8) 255) (index % 8) value)

unfoldable pub get_bit : List ℕ → ℕ → Bool
unfolding read_bit
get_bit bitmap index = read_bit (get_or bitmap (index / 8) 255) (index % 8)

-- `u64::div_ceil(4096)`, which does not overflow.
abbrev pub div_ceil_frame : ℕ → ℕ
div_ceil_frame n = (n / frame_size) + (if n % frame_size == 0 then 0 else 1)

-- `!=` on `bool`
abbrev pub differs : Bool → Bool → Bool
differs true b = not b
differs false b = b

-- The `for frame in start_frame..end_frame` loop, over the `n` frames from `frame` on.
unfoldable pub mark_frames : List ℕ → ℕ → ℕ → Bool → ℕ → List ℕ × ℕ
mark_frames bitmap frame zero used changed = (bitmap, changed)
mark_frames bitmap frame (suc n) used changed =
    mark_frames (set_bit bitmap frame used) (frame + 1) n used
      (if differs (get_bit bitmap frame) used then changed + 1 else changed)

unfoldable pub mark_region : List ℕ → ℕ → ℕ → ℕ → Bool → List ℕ × ℕ
mark_region bitmap total_frames phys_start size used =
    let start_frame = phys_start / frame_size in
    let end_frame = min (div_ceil_frame (add64 phys_start size)) total_frames in
    mark_frames bitmap start_frame (end_frame - start_frame) used 0

-- Every entry is a byte.
abbrev pub IsBitmap : List ℕ → Type 0
IsBitmap bitmap = All (λ b. b < 256) bitmap
