-- ===== src/Fs/Path.antt =====
-- Paths as byte strings: `find`'s comparison, `parent_of`, `validate_path` and `is_child` of
-- crates/kernel/src/fs/vfs.rs, over the `str` methods that they call.
pub mod Laws
use kazuos.Prelude.{
  ℕ, zero, suc, ◌+◌, ◌<◌, Bool, true, false, not, ◌&&◌, ◌||◌, Option, none, some, List, [], ◌∷◌,
  length, take, ◌==◌, ltb, if◌then◌else◌,
}
use kazuos.Fs.Error.{FsError, Result, ok, err, ◌>>◌, refuse_if, invalid_path}

-- A `str` is its bytes; all patterns are ASCII.
abbrev pub FilePath : Type 0
FilePath = List ℕ

abbrev pub slash : ℕ
slash = b'/'

abbrev pub dot : ℕ
dot = b'.'

abbrev pub root : FilePath
root = slash ∷ []

unfoldable pub bytes_eq : FilePath → FilePath → Bool
bytes_eq [] [] = true
bytes_eq [] (y ∷ ys) = false
bytes_eq (x ∷ xs) [] = false
bytes_eq (x ∷ xs) (y ∷ ys) = x == y && bytes_eq xs ys

-- `str::strip_prefix`
unfoldable pub strip_prefix : FilePath → FilePath → Option FilePath
strip_prefix [] s = some s
strip_prefix (p ∷ ps) [] = none
strip_prefix (p ∷ ps) (c ∷ s) = let rest = strip_prefix ps s in if p == c then rest else none

unfoldable pub starts_with : FilePath → FilePath → Bool
unfolding strip_prefix
starts_with p s = elim (strip_prefix p s) [ none ↦ false | some _ ↦ true ]

unfoldable pub contains : FilePath → FilePath → Bool
unfolding starts_with
contains p [] = starts_with p []
contains p (c ∷ s) = starts_with p (c ∷ s) || contains p s

unfoldable pub ends_with : ℕ → FilePath → Bool
ends_with b [] = false
ends_with b (c ∷ []) = c == b
ends_with b (c ∷ d ∷ s) = ends_with b (d ∷ s)

unfoldable pub has_byte : ℕ → FilePath → Bool
has_byte b [] = false
has_byte b (c ∷ s) = c == b || has_byte b s

abbrev pub rfind_after : ℕ → ℕ → Option ℕ → Option ℕ
rfind_after b c (some i) = some (suc i)
rfind_after b c none = if c == b then some 0 else none

-- `str::rfind` of a byte
unfoldable pub rfind : ℕ → FilePath → Option ℕ
rfind b [] = none
rfind b (c ∷ s) = rfind_after b c (rfind b s)

abbrev pub parent_at : FilePath → Option ℕ → FilePath
parent_at path none = root
parent_at path (some zero) = root
parent_at path (some (suc i)) = take (suc i) path

unfoldable pub parent_of : FilePath → FilePath
unfolding rfind
parent_of path = parent_at path (rfind slash path)

unfoldable pub validate_path : FilePath → Result (Unit {0})
unfolding starts_with ends_with contains
validate_path path =
    refuse_if
      (not (starts_with (slash ∷ []) path)
        || (ltb 1 (length path) && ends_with slash path)
        || contains (slash ∷ slash ∷ []) path
        || contains (slash ∷ dot ∷ slash ∷ []) path
        || contains (slash ∷ dot ∷ dot ∷ slash ∷ []) path)
      invalid_path

-- `matches!(rest, Some(v) if !v.is_empty() && !v.contains('/'))`
abbrev pub one_name : Option FilePath → Bool
one_name none = false
one_name (some []) = false
one_name (some (c ∷ s)) = not (has_byte slash (c ∷ s))

-- `and_then(|v| v.strip_prefix('/'))`
abbrev pub strip_slash : Option FilePath → Option FilePath
strip_slash none = none
strip_slash (some v) = strip_prefix (slash ∷ []) v

unfoldable pub is_child : FilePath → FilePath → Bool
unfolding bytes_eq strip_prefix has_byte
is_child parent child =
    if bytes_eq child parent
    then false
    else one_name (
        if bytes_eq parent root
        then strip_prefix (slash ∷ []) child
        else strip_slash (strip_prefix parent child))
