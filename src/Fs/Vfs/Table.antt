-- ===== src/Fs/Vfs/Table.antt =====
-- The slot table of crates/kernel/src/fs/vfs.rs and the operations that read it: `find`, `lookup`,
-- `metadata`, `read_file` and `read_dir`.
use kazuos.Prelude.{
  ℕ, suc, ◌-◌, ◌%◌, ◌^◌, Bool, false, not, Option, none, some, List, [], ◌∷◌, length, get_elem?,
  set, take, ◌==◌, if◌then◌else◌,
}
use kazuos.Fs.Error.{
  Result, ok, err, ◌>>=◌, ◌>>◌, ok_or, refuse_if, not_found, not_a_file, not_a_directory,
  buffer_too_small,
}
use kazuos.Fs.Path.{FilePath, bytes_eq, starts_with, validate_path, is_child}
use kazuos.Fs.Devfs
use kazuos.Fs.Devfs.{Registry}

pub record Node : Type 0 where
  pub path : FilePath
  pub is_dir : Bool
  pub contents : List ℕ

pub record Slot : Type 0 where
  pub generation : ℕ
  pub node : Option Node

abbrev pub Nodes : Type 0
Nodes = List Slot

pub data FileType : Type 0 where
  file directory : FileType

pub data VfsNode : Type 0 where
  file_at : ℕ → ℕ → ℕ → VfsNode
  dir : VfsNode
  device : ℕ → VfsNode

pub record Metadata : Type 0 where
  pub len : ℕ
  pub kind : FileType

-- `path` is the filled part of the array, `path[..path_len]`.
pub record DirEntry : Type 0 where
  pub path : FilePath
  pub kind : FileType
  pub len : ℕ

abbrev pub path_cap : ℕ
path_cap = 96

abbrev pub has_path : Option Node → FilePath → Bool
has_path none path = false
has_path (some n) path = bytes_eq n.path path

abbrev pub shift : Option ℕ → Option ℕ
shift none = none
shift (some i) = some (suc i)

unfoldable pub find : Nodes → FilePath → Option ℕ
find [] path = none
find (s ∷ nodes) path = if has_path s.node path then some 0 else shift (find nodes path)

abbrev pub slot_node : Option Slot → Option Node
slot_node none = none
slot_node (some s) = s.node

-- `nodes[id].node`
abbrev pub node_at : Nodes → ℕ → Option Node
node_at nodes id = slot_node (get_elem? nodes id)

-- `nodes[id].node.as_ref().unwrap()`. What `find` returns holds a node, so the first case, which
-- stands for a panic, is not taken.
abbrev pub unwrap_node : Option Node → Node
unwrap_node none = record { path = []; is_dir = false; contents = [] }
unwrap_node (some n) = n

abbrev pub generation_at : Nodes → ℕ → ℕ
generation_at nodes id = elim (get_elem? nodes id) [ none ↦ 0 | some s ↦ s.generation ]

-- `nodes[id].node = n`
abbrev pub put_node : Nodes → ℕ → Option Node → Nodes
put_node nodes id n = elim (get_elem? nodes id) [
  | none ↦ nodes
  | some s ↦ set nodes id (record s { node = n })
]

abbrev pub kind_of : Node → FileType
kind_of n = if n.is_dir then directory else file

unfoldable pub lookup_ram : Nodes → FilePath → Result VfsNode
unfolding find
lookup_ram nodes path = do
  id ← ok_or (find nodes path) not_found
  let n = unwrap_node (node_at nodes id)
  ok (if n.is_dir then dir else file_at (id % 2 ^ 32) (generation_at nodes id) (length n.contents))

abbrev pub dev_prefix : FilePath
dev_prefix = b'/' ∷ b'd' ∷ b'e' ∷ b'v' ∷ b'/' ∷ []

abbrev pub or_ram : Option ℕ → Result VfsNode → Result VfsNode
or_ram none r = r
or_ram (some ops) r = ok (device ops)

unfoldable pub lookup : Registry → Nodes → FilePath → Result VfsNode
unfolding lookup_ram
lookup reg nodes path = do
  validate_path path
  or_ram (if starts_with dev_prefix path then Devfs.lookup reg path else none)
      (lookup_ram nodes path)

unfoldable pub metadata : Nodes → FilePath → Result Metadata
metadata nodes path = do
  validate_path path
  id ← ok_or (find nodes path) not_found
  let n = unwrap_node (node_at nodes id)
  ok (record { len = length n.contents; kind = kind_of n })

unfoldable pub read_file : Nodes → FilePath → Result (List ℕ)
read_file nodes path = do
  validate_path path
  id ← ok_or (find nodes path) not_found
  let n = unwrap_node (node_at nodes id)
  refuse_if n.is_dir not_a_file
  ok n.contents

abbrev pub dir_entry : Node → DirEntry
dir_entry n = record { path = take path_cap n.path; kind = kind_of n; len = length n.contents }

abbrev pub is_child_node : FilePath → Option Node → Bool
is_child_node path none = false
is_child_node path (some n) = is_child path n.path

-- The loop of `read_dir`, with `room` entries of `out` left.
unfoldable pub list_dir : FilePath → ℕ → Nodes → Result (List DirEntry)
list_dir path room [] = ok []
list_dir path room (s ∷ nodes) =
    let skip = list_dir path room nodes in
    let rest = list_dir path (room - 1) nodes in
    if is_child_node path s.node
    then if room == 0
      then err buffer_too_small
      else (rest >>= λ entries. ok (dir_entry (unwrap_node s.node) ∷ entries))
    else skip

-- The entries that go to `out`, which has `room` places; their number is the result.
unfoldable pub read_dir : Nodes → FilePath → ℕ → Result (List DirEntry)
unfolding list_dir
read_dir nodes path room = do
  validate_path path
  id ← ok_or (find nodes path) not_found
  refuse_if (not (unwrap_node (node_at nodes id)).is_dir) not_a_directory
  list_dir path room nodes
