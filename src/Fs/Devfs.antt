-- ===== src/Fs/Devfs.antt =====
-- The device registry of crates/kernel/src/fs/devfs.rs. A device's operations are a static of its
-- driver; here they are the number that names that static.
use kazuos.Prelude.{
  ℕ, ◌&&◌, Option, none, some, List, [], ◌∷◌, length, replicate, ◌==◌, ltb, if◌then◌else◌,
}
use kazuos.Fs.Path.{FilePath, bytes_eq}

pub record Entry : Type 0 where
  pub name : FilePath
  pub ops : ℕ

abbrev pub max_dev : ℕ
max_dev = 16

abbrev pub Registry : Type 0
Registry = List (Option Entry)

abbrev pub empty_registry : Registry
empty_registry = replicate max_dev none

fill : Registry → Entry → Registry
fill [] e = []
fill (none ∷ slots) e = some e ∷ slots
fill (some d ∷ slots) e = some d ∷ fill slots e

unfoldable pub register : FilePath → ℕ → Registry → Registry
unfolding fill
register name ops reg =
    if ltb 32 (length name) then reg else fill reg (record { name = name; ops = ops })

unfoldable pub lookup : Registry → FilePath → Option ℕ
unfolding bytes_eq
lookup [] name = none
lookup (none ∷ slots) name = lookup slots name
lookup (some e ∷ slots) name =
    if length e.name == length name && bytes_eq e.name name then some e.ops else lookup slots name
