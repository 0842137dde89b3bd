-- ===== src/Fs/Vfs/Access.antt =====
-- Access to open files by `(node, generation)`: `read_at`, `write_at` and `truncate` of
-- crates/kernel/src/fs/vfs.rs.
use kazuos.Prelude.{
  ℕ, ◌-◌, min, ◌||◌, Option, none, some, List, [], ◌++◌, length, get_elem?, take, drop, pad, ◌==◌,
  ltb, leb, if◌then◌else◌, add64,
}
use kazuos.Fs.Vfs.Table.{Node, Slot, Nodes, put_node}

-- `live` and `live_mut`
abbrev pub live_in : Option Slot → ℕ → Option Node
live_in none generation = none
live_in (some s) generation = if s.generation == generation then s.node else none

unfoldable pub live : Nodes → ℕ → ℕ → Option Node
live nodes node generation = live_in (get_elem? nodes node) generation

abbrev pub read_node : Option Node → ℕ → ℕ → List ℕ
read_node none offset len = []
read_node (some n) offset len =
    if n.is_dir || leb (length n.contents) offset
    then []
    else take (min len (length n.contents - offset)) (drop offset n.contents)

-- The bytes that are copied to a buffer of `len` bytes; their number is the result.
unfoldable pub read_at : Nodes → ℕ → ℕ → ℕ → ℕ → List ℕ
unfolding live
read_at nodes node generation offset len = read_node (live nodes node generation) offset len

abbrev pub clear_node : Nodes → ℕ → Option Node → Nodes
clear_node nodes node none = nodes
clear_node nodes node (some n) =
    if n.is_dir then nodes else put_node nodes node (some (record n { contents = [] }))

unfoldable pub truncate : Nodes → ℕ → ℕ → Nodes
unfolding live
truncate nodes node generation = clear_node nodes node (live nodes node generation)

-- `data.resize(end, 0)` if it is too short, then `data[offset..end].copy_from_slice(src)`.
abbrev pub splice : List ℕ → ℕ → ℕ → List ℕ → List ℕ
splice contents offset last src =
    let padded = if ltb (length contents) last then pad contents last 0 else contents in
    take offset padded ++ (src ++ drop last padded)

-- `none` is the panic of the slice `[offset..end]` where `offset + src.len()` has wrapped.
abbrev pub write_node : Nodes → ℕ → Option Node → ℕ → List ℕ → Option (ℕ × Nodes)
write_node nodes node none offset src = some (0, nodes)
write_node nodes node (some n) offset src =
    let last = add64 offset (length src) in
    if n.is_dir
    then some (0, nodes)
    else if ltb last offset
    then none
    else some (
      length src,
      put_node nodes node (some (record n { contents = splice n.contents offset last src })),
    )

unfoldable pub write_at : Nodes → ℕ → ℕ → ℕ → List ℕ → Option (ℕ × Nodes)
unfolding live
write_at nodes node generation offset src =
    write_node nodes node (live nodes node generation) offset src
