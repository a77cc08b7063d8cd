-- ===== src/Fat32/Directory.antt =====
-- Directories and mounting, `load_dir`, `fat32_readdir`, `fat32_finddir` and `fat32_mount` of
-- kernel/fs/fat32.c. Allocation succeeds, and what is allocated and lost is left out.
pub mod Slots
pub mod Listing
mod Tests
use aerogel.Common.{
  ℕ, zero, suc, ◌+◌, ◌-◌, ◌*◌, ◌/◌, ◌%◌, ◌^◌, Bool, true, false, not, ◌&&◌, ◌==◌, ◌!=◌, ltb, leb,
  if◌then◌else◌, List, [], ◌∷◌, ◌++◌, Option, none, some, length, get_elem?, take,
}
use aerogel.Common.Array.{Array}
use aerogel.Common.Bytes.{bit}
use aerogel.Fat32.{
  fat_eoc, Volume, DirEntry, LongName, next_cluster, cluster_to_lba, parse_83, parse_lfn,
}
use aerogel.Fat32.Read.{Fat32File}
use aerogel.Tmpfs.{same_name}

-- the numbers of 16 and 32 bits at `i`
abbrev pub u16_at : Array ℕ → ℕ → ℕ
u16_at b i = b i + b (i + 1) * 2 ^ 8

abbrev pub u32_at : Array ℕ → ℕ → ℕ
u32_at b i = u16_at b i + u16_at b (i + 2) * 2 ^ 16

-- `entries[i]` of the sector buffer, where `at` is 32 i
abbrev pub dir_entry : Array ℕ → ℕ → DirEntry
dir_entry b at = record {
  name = λ k. b (at + k);
  ext = λ k. b (at + 8 + k);
  attr = b (at + 11);
  cluster_hi = u16_at b (at + 20);
  cluster_lo = u16_at b (at + 26);
  size = u32_at b (at + 28);
}

abbrev pub long_name : Array ℕ → ℕ → LongName
long_name b at = record {
  name1 = λ k. u16_at b (at + 1 + 2 * k);
  name2 = λ k. u16_at b (at + 14 + 2 * k);
  name3 = λ k. u16_at b (at + 28 + 2 * k);
}

abbrev pub fat_attr_lfn : ℕ
fat_attr_lfn = 0x0F

-- The nodes that `load_dir` makes: a directory with its first cluster, or a file.
pub data FatNode : Type 0 where
  directory : (name : List ℕ) → (cluster : ℕ) → FatNode
  file : (name : List ℕ) → Fat32File → FatNode

-- `lfns`, the newest first, and `entries`
pub record Scan : Type 0 where
  pub lfns : List LongName
  pub nodes : List FatNode

pub make_node : DirEntry → List LongName → FatNode
make_node de lfns =
    let name : List ℕ = elim lfns [ [] ↦ parse_83 de | l ∷ ls ↦ parse_lfn (l ∷ ls) [] ] in
    let cluster = de.cluster_hi * 2 ^ 16 + de.cluster_lo in
    if bit de.attr 4 == 1
    then directory name cluster
    else file name (record { start_cluster = cluster; size = de.size })

-- one round of the loop over the entries of a sector; `true` for `goto done`
pub scan_entry : Array ℕ → (at : ℕ) → Scan → Bool × Scan
unfolding make_node
scan_entry b at s =
    let de = dir_entry b at in
    let forget : Scan = record s { lfns = [] } in
    if de.name 0 == 0
    then (true, s)
    else if de.name 0 == 0xE5
    then (false, forget)
    else if de.attr == fat_attr_lfn
    then (false, if ltb (length s.lfns) 20 then record s { lfns = long_name b at ∷ s.lfns } else s)
    else if bit de.attr 3 == 1
    then (false, forget)
    else if de.name 0 == b'.'
    then (false, forget)
    else (false, record { lfns = []; nodes = s.nodes ++ make_node de s.lfns ∷ [] })

-- the loop over the entries of a sector, `n` from `at` on
pub scan_entries : ℕ → Array ℕ → (at : ℕ) → Scan → Bool × Scan
unfolding scan_entry
scan_entries zero b at s = (false, s)
scan_entries (suc n) b at s =
    let (stop, s') = scan_entry b at s in
    let rest = scan_entries n b (at + 32) s' in if stop then (true, s') else rest

module _ (read_sector : ℕ → Array ℕ → Array ℕ) where
  -- the loop over the sectors of a cluster, `n` from `lba` on
  pub scan_sectors : ℕ → (lba : ℕ) → (buf : Array ℕ) → Scan → Bool × Scan × Array ℕ
  unfolding scan_entries
  scan_sectors zero lba buf s = (false, s, buf)
  scan_sectors (suc n) lba buf s =
      let b = read_sector (lba % 2 ^ 32) buf in
      let (stop, s') = scan_entries 16 b 0 s in
      let rest = scan_sectors n (lba + 1) b s' in if stop then (true, s', b) else rest

  -- the loop over the clusters; `none` when the fuel runs out
  pub scan_clusters : (fuel : ℕ) → Volume → (cluster : ℕ) → (buf : Array ℕ) → Scan → Option Scan
  unfolding scan_sectors
  scan_clusters zero v cluster buf s = none
  scan_clusters (suc f) v cluster buf s =
      let (stop, s', b) = scan_sectors v.sectors_per_cluster (cluster_to_lba v cluster) buf s in
      let (c, b') = next_cluster read_sector v cluster b in
      let rest = scan_clusters f v c b' s' in
      if leb fat_eoc cluster then some s else if stop then some s' else rest

  pub load_dir : (fuel : ℕ) → Volume → (cluster : ℕ) → (buf : Array ℕ) → Option (List FatNode)
  unfolding scan_clusters
  load_dir fuel v cluster buf =
      elim (scan_clusters fuel v cluster buf (record { lfns = []; nodes = [] })) [
        | none ↦ none
        | some s ↦ some s.nodes
      ]

  -- The volume and its root directory, or NULL.
  pub fat32_mount : (part_lba : ℕ) → (buf : Array ℕ) → Option (Volume × FatNode)
  fat32_mount part_lba buf =
      let b = read_sector part_lba buf in
      let spc = b 13 in
      let fat = (part_lba + u16_at b 14) % 2 ^ 32 in
      if u16_at b 11 != 512
      then none
      else some (
        record {
          fat_lba = fat;
          data_lba = (fat + b 16 * u32_at b 36) % 2 ^ 32;
          root_cluster = u32_at b 44;
          sectors_per_cluster = spc;
          bytes_per_cluster = spc * 512;
        },
        directory (b'f' ∷ b'a' ∷ b't' ∷ b'3' ∷ b'2' ∷ []) (u32_at b 44),
      )

-- `fat32_readdir` and `fat32_finddir`, over the entries of the directory once they are loaded
pub fat32_readdir : List FatNode → (idx : ℕ) → Option FatNode
fat32_readdir nodes idx = get_elem? nodes idx

abbrev pub node_name : FatNode → List ℕ
node_name (directory name cluster) = name
node_name (file name f) = name

pub fat32_finddir : List FatNode → (name : List ℕ) → Option FatNode
fat32_finddir [] name = none
fat32_finddir (n ∷ nodes) name =
    let rest = fat32_finddir nodes name in if same_name (node_name n) name then some n else rest
