-- ===== src/Tmpfs.antt =====
-- The file system in memory, kernel/fs/tmpfs.c. A node is its index in the store, in the order in which
-- the nodes are made; `kmalloc` and `krealloc` give the memory asked for, and what a file's memory holds
-- behind the bytes that are written is `fresh`.
pub mod Files
pub mod Nodes
pub mod Tree
mod Tests
use aerogel.Common.{
  ℕ, zero, suc, ◌+◌, ◌-◌, ◌*◌, ◌/◌, ◌%◌, ◌^◌, Bool, true, false, ◌&&◌, ◌==◌, ltb, leb,
  if◌then◌else◌, List, [], ◌∷◌, ◌++◌, Option, none, some, length, take, get_elem?,
}
use aerogel.Common.Array.{Array, copy, update}

-- `tmpfs_file_t`
pub record File : Type 0 where
  pub data_at : Array ℕ
  pub size : ℕ

-- `tmpfs_dir_t`: the entries are `entries` up to `count`
pub record Dir : Type 0 where
  pub entries : List ℕ
  pub cap : ℕ

pub data Content : Type 0 where
  file : File → Content
  dir : Dir → Content

-- the fields of a node that this file system sets; `flags` and the functions follow from the content
pub record Node : Type 0 where
  pub name : List ℕ
  pub content : Content

pub record Store : Type 0 where
  pub nodes : Array Node
  pub used : ℕ

abbrev pub u32 : ℕ
u32 = 2 ^ 32

-- the bytes read, and the buffer
pub read : File → (off sz : ℕ) → Array ℕ → ℕ × Array ℕ
read f off sz buf =
    let n = if ltb f.size ((off + sz) % 2 ^ 64) then (f.size - off) % u32 else sz in
    if leb f.size off then (0, buf) else (n, copy 0 (off % u32) n f.data_at buf)

-- the memory of the file after `krealloc`
abbrev pub grow : (fresh : Array ℕ) → ℕ → File → File
grow fresh size f = record { data_at = copy 0 0 f.size f.data_at fresh; size = size }

pub write : (fresh : Array ℕ) → File → (off sz : ℕ) → Array ℕ → ℕ × File
write fresh f off sz buf =
    let at = off % u32 in
    let end = (at + sz) % u32 in
    let f' = if ltb f.size end then grow fresh end f else f in
    (sz, record f' { data_at = copy at 0 sz buf f'.data_at })

pub readdir : Dir → ℕ → Option ℕ
readdir d idx = get_elem? d.entries idx

-- `!strcmp(a, b)`
pub same_name : (a b : List ℕ) → Bool
same_name [] [] = true
same_name [] (d ∷ b) = false
same_name (c ∷ a) [] = false
same_name (c ∷ a) (d ∷ b) = (c == d) && same_name a b

pub find_entry : Store → List ℕ → List ℕ → Option ℕ
unfolding same_name
find_entry s name [] = none
find_entry s name (e ∷ entries) =
    if same_name (s.nodes e).name name then some e else find_entry s name entries

pub finddir : Store → Dir → List ℕ → Option ℕ
unfolding find_entry
finddir s d name = find_entry s name d.entries

pub dir_add : Dir → ℕ → Dir
dir_add d n = record {
  entries = d.entries ++ n ∷ [];
  cap = if leb d.cap (length d.entries) then (if d.cap == 0 then 4 else d.cap * 2) else d.cap;
}

-- a node with this name and content
abbrev make : List ℕ → Content → Store → ℕ × Store
make name content s = (
  s.used,
  record {
    nodes = update s.nodes s.used (record { name = take 255 name; content = content });
    used = s.used + 1;
  },
)

pub create : List ℕ → Store → ℕ × Store
create name s = make name (dir (record { entries = []; cap = 0 })) s

-- the node `n` into the directory `parent`
-- (in the source a parent that is no directory is undefined behaviour)
abbrev pub add_to : (parent n : ℕ) → Store → Store
add_to parent n s =
    let p = s.nodes parent in
    elim p.content [
      | file f ↦ s
      | dir d ↦ record s {
        nodes = update s.nodes parent (record p { content = dir (dir_add d n) });
      }
    ]

pub mkdir : (parent : ℕ) → List ℕ → Store → ℕ × Store
unfolding create dir_add
mkdir parent name s = let (n, s') = create name s in (n, add_to parent n s')

pub mkfile : (fresh : Array ℕ) (parent : ℕ) → List ℕ → Option (Array ℕ) → ℕ → Store → ℕ × Store
unfolding dir_add
mkfile fresh parent name bytes size s =
    let content : Array ℕ = elim bytes [ none ↦ fresh | some b ↦ copy 0 0 size b fresh ] in
    let (n, s') = make name (file (record { data_at = content; size = size })) s in
    (n, add_to parent n s')
