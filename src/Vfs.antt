-- ===== src/Vfs.antt =====
-- The file system switch, kernel/fs/vfs.c. A file system's nodes and the functions that a node points
-- to are an interface, `FileSystem`; a function that is NULL is `none`. A path is its characters.
pub mod Paths
mod Tests
use aerogel.Common.{
  ℕ, zero, suc, ◌+◌, Bool, true, false, not, ◌&&◌, ◌||◌, ◌==◌, ◌!=◌, ltb, leb, if◌then◌else◌, List,
  [], ◌∷◌, ◌++◌, Option, none, some, length, take, bit_and,
}
use aerogel.Common.Array.{Array}

abbrev pub max_mounts : ℕ
max_mounts = 16

abbrev pub vfs_file : ℕ
vfs_file = 0x01

abbrev pub vfs_dir : ℕ
vfs_dir = 0x02

-- `vfs_node_t`: what its fields and its functions give for a node
pub record FileSystem (Node : Type 0) : Type 0 where
  pub flags : Node → ℕ
  pub read : Node → Option ((off sz : ℕ) → Array ℕ → ℕ × Array ℕ)
  pub readdir : Node → Option (ℕ → Option Node)
  pub finddir : Node → Option (List ℕ → Option Node)

-- `mounts` and `vfs_root`
pub record Vfs (Node : Type 0) : Type 0 where
  pub mounts : List (List ℕ × Node)
  pub root : Option Node

pub is_root_path : List ℕ → Bool
is_root_path [] = false
is_root_path (c ∷ []) = c == b'/'
is_root_path (c ∷ d ∷ path) = false

-- A component up to the first `/`, and what stands behind that `/`.
pub split_path : List ℕ → List ℕ × Option (List ℕ)
split_path [] = ([], none)
split_path (c ∷ s) =
    let (name, rest) = split_path s in if c == b'/' then ([], some s) else (c ∷ name, rest)

-- `buf` after `strncpy(buf, path + 1, 255)`, where `tail` stands in the last byte of the buffer and
-- behind it: a path of 255 characters or more has no terminator there.
abbrev pub path_buffer : (tail path : List ℕ) → List ℕ
path_buffer tail path = if ltb (length path) 255 then path else take 255 path ++ tail

module _ {Node : Type 0} where
  pub init : Vfs Node
  init = record { mounts = []; root = none }

  -- `false` for -1
  pub mount : List ℕ → Node → Vfs Node → Bool × Vfs Node
  unfolding is_root_path
  mount path node v = if leb max_mounts (length v.mounts) then (false, v) else (
    true,
    record {
      mounts = v.mounts ++ (take 255 path, node) ∷ [];
      root = elim v.root [ none ↦ if is_root_path path then some node else none | some r ↦ some r ];
    },
  )

  -- the end of one round: the node found, what is left of the path, and the loop
  pub go_on : Option Node → Option (List ℕ) → (Node → List ℕ → Option Node) → Option Node
  go_on none rest loop = none
  go_on (some node) none loop = some node
  go_on (some node) (some tok) loop = loop node tok

  module _ (fs : FileSystem Node) where
    -- `finddir` where a node has it
    unfoldable pub find : Node → List ℕ → Option Node
    find node name = elim (fs.finddir node) [ none ↦ none | some f ↦ f name ]

    -- The loop of `resolve`, with `none` also when the fuel is used up.
    pub walk : ℕ → Node → List ℕ → Option Node
    unfolding split_path find go_on
    walk f node [] = some node
    walk zero node (c ∷ tok) = none
    walk (suc f) node (c ∷ tok) = let s = split_path (c ∷ tok) in go_on (find node s.0) s.1 (walk f)

    pub resolve : (tail path : List ℕ) → Vfs Node → Option Node
    unfolding walk
    resolve tail [] v = none
    resolve tail (c ∷ path) v =
        let buf = path_buffer tail path in
        if c == b'/'
        then elim v.root [ none ↦ none | some node ↦ walk (length buf) node buf ]
        else none

    unfoldable pub vfs_read : Option Node → (off sz : ℕ) → Array ℕ → ℕ × Array ℕ
    vfs_read none off sz buf = (0, buf)
    vfs_read (some n) off sz buf = elim (fs.read n) [ none ↦ (0, buf) | some f ↦ f off sz buf ]

    pub vfs_readdir : Option Node → ℕ → Option Node
    vfs_readdir none idx = none
    vfs_readdir (some n) idx =
        if bit_and (fs.flags n) vfs_dir == 0
        then none
        else elim (fs.readdir n) [ none ↦ none | some f ↦ f idx ]

    pub vfs_finddir : Option Node → List ℕ → Option Node
    vfs_finddir none name = none
    vfs_finddir (some n) name = if bit_and (fs.flags n) vfs_dir == 0 then none else find n name
