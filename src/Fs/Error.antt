-- ===== src/Fs/Error.antt =====
-- `FsError` and `Result` of crates/kernel/src/fs/vfs.rs.
use kazuos.Prelude.{Bool, true, false, Option, none, some}

pub data FsError : Type 0 where
  not_initialized invalid_image invalid_path not_found not_a_file not_a_directory : FsError
  buffer_too_small already_exists not_empty : FsError

-- `Result<A, FsError>`; a `do` block is a chain of `?`.
pub data Result {ℓ} (A : Type ℓ) : Type ℓ where
  err : FsError → Result A
  ok : A → Result A

infixl 5 ◌>>=◌ ◌>>◌
abbrev pub ◌>>=◌ {ℓ κ} : {A : Type ℓ} {B : Type κ} → Result A → (A → Result B) → Result B
err refusal >>= next = err refusal
ok value >>= next = next value

abbrev pub ◌>>◌ {ℓ} : {B : Type ℓ} → Result (Unit {0}) → Result B → Result B
check >> next = check >>= λ _. next

-- `Option::ok_or`
abbrev pub ok_or {ℓ} : {A : Type ℓ} → Option A → FsError → Result A
ok_or none e = err e
ok_or (some a) e = ok a

-- `if refused { return Err(e) }`
abbrev pub refuse_if : Bool → FsError → Result (Unit {0})
refuse_if true e = err e
refuse_if false e = ok tt
