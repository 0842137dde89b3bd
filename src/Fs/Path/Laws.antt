-- ===== src/Fs/Path/Laws.antt =====
-- The parent of a path and the children of a directory agree: laws of `parent_of` and `is_child`
-- of crates/kernel/src/fs/vfs.rs.
use kazuos.Prelude.{
  ℕ, ◌≡◌, refl, ◌≢◌, ap, sym, ◌∙◌, subst, ◌↔◌, inl, inr, true, false, ◌&&◌, Option, none, some, [],
  ◌∷◌, ◌++◌, arith, length, take-append, ltb, Bool-cases, length-append,
}
use kazuos.Fs.Error.{ok}
use kazuos.Fs.Path.{
  FilePath, slash, root, bytes_eq, strip_prefix, starts_with, contains, ends_with, has_byte, rfind,
  parent_of, validate_path, one_name, strip_slash, is_child,
}

pub bytes_eq→eq : (xs ys : FilePath) → bytes_eq xs ys ≡ true → xs ≡ ys
unfolding bytes_eq
bytes_eq→eq [] [] h = refl
bytes_eq→eq [] (y ∷ ys) h = cc
bytes_eq→eq (x ∷ xs) [] h = cc
bytes_eq→eq (x ∷ xs) (y ∷ ys) h = ground (arith, bytes_eq→eq xs ys)

pub bytes_eq_refl : (xs : FilePath) → bytes_eq xs xs ≡ true
unfolding bytes_eq
bytes_eq_refl [] = refl
bytes_eq_refl (x ∷ xs) = ground (arith, bytes_eq_refl xs)

pub bytes_eq→ne : (xs ys : FilePath) → bytes_eq xs ys ≡ false → xs ≢ ys
bytes_eq→ne xs ys h e = ground (arith, bytes_eq_refl ys, ap (λ zs. bytes_eq zs ys) e)

pub ne→bytes_eq : (xs ys : FilePath) → xs ≢ ys → bytes_eq xs ys ≡ false
ne→bytes_eq xs ys h = elim (Bool-cases (bytes_eq xs ys)) [
  | inl e ↦ absurd (h (bytes_eq→eq xs ys e))
  | inr e ↦ e
]

strip_prefix-append : (p s : FilePath) → strip_prefix p (p ++ s) ≡ some s
unfolding strip_prefix
strip_prefix-append [] s = refl
strip_prefix-append (x ∷ p) s = ground (arith, strip_prefix-append p s)

strip_prefix→append : (p s : FilePath) {r : FilePath} → strip_prefix p s ≡ some r → s ≡ p ++ r
unfolding strip_prefix
strip_prefix→append [] s e = ground arith
strip_prefix→append (x ∷ p) [] e = cc
strip_prefix→append (x ∷ p) (c ∷ s) {r} e = ground (arith, strip_prefix→append p s {r = r})

rfind-no_slash : (s : FilePath) → has_byte slash s ≡ false → rfind slash s ≡ none
unfolding rfind has_byte
rfind-no_slash [] h = refl
rfind-no_slash (c ∷ s) h = ground (arith, rfind-no_slash s)

-- The last slash is where it stands before a single name.
rfind-append :
    (p s : FilePath) → has_byte slash s ≡ false → rfind slash (p ++ slash ∷ s) ≡ some (length p)
unfolding rfind
rfind-append [] s h = rw (rfind-no_slash s h)
rfind-append (c ∷ p) s h = rw (rfind-append p s h)

-- A path with a slash is a prefix, its last slash and a name without one.
pub split_last :
    (path : FilePath)
    → has_byte slash path ≡ true
    → (p : FilePath) × (s : FilePath) × (path ≡ p ++ slash ∷ s) × (has_byte slash s ≡ false)
unfolding has_byte
split_last [] h = cc
split_last (c ∷ path) h = elim (Bool-cases (has_byte slash path)) [
  | inl later ↦
      let (p, s, e, none_left) = split_last path later in (c ∷ p, s, ap (λ zs. c ∷ zs) e, none_left)
  | inr last ↦ ([], path, ground arith, last)
]

parent_of-append :
    (c : ℕ) (p s : FilePath) → has_byte slash s ≡ false → parent_of (c ∷ p ++ slash ∷ s) ≡ c ∷ p
unfolding parent_of
parent_of-append c p s h = rw (rfind-append (c ∷ p) s h) (take-append (c ∷ p) (slash ∷ s))

parent_of_top : (s : FilePath) → has_byte slash s ≡ false → parent_of (slash ∷ s) ≡ root
unfolding parent_of
parent_of_top s h = rw (rfind-append [] s h)

ends_with-append : (p : FilePath) (b : ℕ) → ends_with b (p ++ b ∷ []) ≡ true
unfolding ends_with
ends_with-append [] b = ground arith
ends_with-append (c ∷ []) b = ground arith
ends_with-append (c ∷ d ∷ p) b = ends_with-append (d ∷ p) b

-- What a valid path looks like.
pub record IsAbsolute (path : FilePath) : Type 0 where
  pub no_double : contains (slash ∷ slash ∷ []) path ≡ false
  pub no_trailing : (ltb 1 (length path) && ends_with slash path) ≡ false
  pub leading : starts_with (slash ∷ []) path ≡ true

pub validate_path-IsAbsolute : {path : FilePath} → validate_path path ≡ ok tt → IsAbsolute path
unfolding validate_path
validate_path-IsAbsolute e = record {
  no_double = ground arith;
  no_trailing = ground arith;
  leading = ground arith;
}

pub leading_slash :
    (path : FilePath) → starts_with (slash ∷ []) path ≡ true → (s : FilePath) × (path ≡ slash ∷ s)
unfolding starts_with strip_prefix
leading_slash [] e = cc
leading_slash (c ∷ s) e = (s, ground arith)

one_name_of : (s : FilePath) → s ≢ [] → has_byte slash s ≡ false → one_name (some s) ≡ true
one_name_of [] h e = absurd (h refl)
one_name_of (c ∷ s) h e = rw e

longer_ne : (p : FilePath) (c : ℕ) (s : FilePath) → p ++ c ∷ s ≢ p
longer_ne p c s e = omega (arith, ap length e, length-append p (c ∷ s))

is_child_top : (s : FilePath) → s ≢ [] → has_byte slash s ≡ false → is_child root (slash ∷ s) ≡ true
unfolding is_child
is_child_top s h e = rw (ne→bytes_eq (slash ∷ s) root (λ q. h (ground arith))) (one_name_of s h e)

is_child_below :
    (p s : FilePath)
    → p ≢ root
    → s ≢ []
    → has_byte slash s ≡ false
    → is_child p (p ++ slash ∷ s) ≡ true
unfolding is_child
is_child_below p s top h e =
    rw
      (
        ne→bytes_eq (p ++ slash ∷ s) p (longer_ne p slash s),
        ne→bytes_eq p root top,
        strip_prefix-append p (slash ∷ s),
      )
      (one_name_of s h e)

has_slash : (s : FilePath) → has_byte slash (slash ∷ s) ≡ true
unfolding has_byte
has_slash s = refl

double_slash : (s : FilePath) → contains (slash ∷ slash ∷ []) (slash ∷ slash ∷ s) ≡ true
unfolding contains
double_slash s = refl

-- A valid path other than the root is a child of its parent.
pub is_child-parent_of :
    (path : FilePath) → IsAbsolute path → path ≢ root → is_child (parent_of path) path ≡ true
is_child-parent_of path v top =
    let (rest, lead) = leading_slash path v.leading in
    let (p, s, e, plain) = split_last path (rw lead (has_slash rest)) in by_prefix p s e plain
  where
    named : (p s : FilePath) → path ≡ p ++ slash ∷ s → s ≢ []
    named p s e empty = not_trailing p (e ∙ ap (λ t. p ++ slash ∷ t) empty)
      where
        not_trailing : (p : FilePath) → path ≢ p ++ slash ∷ []
        not_trailing [] e = top e
        not_trailing (c ∷ p) e = ground (
          arith,
          v.no_trailing,
          ends_with-append (c ∷ p) slash,
          ap (ends_with slash) e,
          ap length e,
          length-append p (slash ∷ []),
        )

    by_prefix :
        (p s : FilePath)
        → path ≡ p ++ slash ∷ s
        → has_byte slash s ≡ false
        → is_child (parent_of path) path ≡ true
    by_prefix [] s e plain = rw (e, parent_of_top s plain) (is_child_top s (named [] s e) plain)
    by_prefix (c ∷ p) s e plain =
        rw (e, parent_of-append c p s plain)
          (is_child_below (c ∷ p) s (λ q. doubled s (e ∙ ap (λ t. t ++ slash ∷ s) q))
            (named (c ∷ p) s e) plain)
      where
        doubled : (s : FilePath) → path ≢ slash ∷ slash ∷ s
        doubled s e =
            ground (arith, double_slash s, v.no_double, ap (contains (slash ∷ slash ∷ [])) e)

plain_name :
    (r : Option FilePath)
    → one_name r ≡ true
    → (s : FilePath) × (r ≡ some s) × (has_byte slash s ≡ false)
plain_name none e = cc
plain_name (some []) e = cc
plain_name (some (c ∷ s)) e = (c ∷ s, refl, ground arith)

strip_slash-some :
    (r : Option FilePath) {s : FilePath} → strip_slash r ≡ some s → r ≡ some (slash ∷ s)
unfolding strip_prefix
strip_slash-some none e = cc
strip_slash-some (some []) e = cc
strip_slash-some (some (c ∷ v)) {s} e = ground arith

child_of_top :
    (path : FilePath) → one_name (strip_prefix (slash ∷ []) path) ≡ true → parent_of path ≡ root
child_of_top path e =
    let (s, at, plain) = plain_name _ e in
    rw (strip_prefix→append (slash ∷ []) path at) (parent_of_top s plain)

child_of_below :
    (c : ℕ) (p path : FilePath)
    → one_name (strip_slash (strip_prefix (c ∷ p) path)) ≡ true
    → parent_of path ≡ c ∷ p
child_of_below c p path e =
    let (s, at, plain) = plain_name _ e in
    rw (strip_prefix→append (c ∷ p) path (strip_slash-some _ at)) (parent_of-append c p s plain)

parent_of-is_child : (p path : FilePath) → p ≢ [] → is_child p path ≡ true → parent_of path ≡ p
unfolding is_child
parent_of-is_child [] path ne e = absurd (ne refl)
parent_of-is_child (c ∷ p) path ne e = elim (Bool-cases (bytes_eq path (c ∷ p))) [
  | inl same ↦ let e' = rw (same, is_child) at e in cc
  | inr other ↦ elim (Bool-cases (bytes_eq (c ∷ p) root)) [
    | inl top ↦
        child_of_top path (rw (other, top, is_child) at e) ∙ sym (bytes_eq→eq (c ∷ p) root top)
    | inr below ↦ child_of_below c p path (rw (other, below, is_child) at e)
  ]
]

-- For a valid path other than the root, `read_dir` and `rmdir` see it as a child of exactly the
-- directory that `make` checks as its parent.
pub is_child_iff-parent_of :
    (p path : FilePath)
    → p ≢ []
    → validate_path path ≡ ok tt
    → path ≢ root
    → (is_child p path ≡ true) ↔ (parent_of path ≡ p)
is_child_iff-parent_of p path ne v top = (
  parent_of-is_child p path ne,
  λ e.
      subst (λ q. is_child q path ≡ true) e
        (is_child-parent_of path (validate_path-IsAbsolute v) top),
)
