-- ===== src/Fat32.antt =====
-- Clusters and names of the FAT32 file system, kernel/fs/fat32.c. The function that reads a sector is an
-- argument: from the number of a sector and the bytes in the buffer it gives the bytes there afterwards.
pub mod Names
pub mod Read
pub mod Directory
mod Tests
use aerogel.Common.{
  ℕ, zero, suc, ◌+◌, ◌-◌, ◌*◌, ◌/◌, ◌%◌, ◌^◌, Bool, true, false, ◌&&◌, ◌==◌, ◌!=◌, ltb, leb,
  if◌then◌else◌, List, [], ◌∷◌, ◌++◌, Option, none, some, length, get_or,
}
use aerogel.Common.Array.{Array}

abbrev pub fat_eoc : ℕ
fat_eoc = 0x0FFFFFF8

-- the numbers of `fat32_vol_t`
pub record Volume : Type 0 where
  pub fat_lba : ℕ
  pub data_lba : ℕ
  pub root_cluster : ℕ
  pub sectors_per_cluster : ℕ
  pub bytes_per_cluster : ℕ

-- the fields of `fat32_dirent_t` that the code reads
pub record DirEntry : Type 0 where
  pub name : Array ℕ
  pub ext : Array ℕ
  pub attr : ℕ
  pub cluster_hi : ℕ
  pub cluster_lo : ℕ
  pub size : ℕ

-- the name of `fat32_lfn_t`
pub record LongName : Type 0 where
  pub name1 : Array ℕ
  pub name2 : Array ℕ
  pub name3 : Array ℕ

module _ (read_sector : ℕ → Array ℕ → Array ℕ) where
  -- the cluster behind `cluster`, and the buffer
  pub next_cluster : Volume → ℕ → Array ℕ → ℕ × Array ℕ
  next_cluster v cluster buf =
      let fat_offset = cluster * 4 % 2 ^ 32 in
      let off = fat_offset % 512 in
      let b = read_sector ((v.fat_lba + fat_offset / 512) % 2 ^ 32) buf in
      ((b off + b (off + 1) * 2 ^ 8 + b (off + 2) * 2 ^ 16 + b (off + 3) * 2 ^ 24) % 2 ^ 28, b)

  -- The loop over the clusters that a read skips; `none` at the end of the chain.
  pub skip_clusters : ℕ → Volume → ℕ → Array ℕ → Option (ℕ × Array ℕ)
  unfolding next_cluster
  skip_clusters zero v cluster buf = some (cluster, buf)
  skip_clusters (suc n) v cluster buf =
      let (c, b) = next_cluster v cluster buf in
      let rest = skip_clusters n v c b in if leb fat_eoc c then none else rest

pub cluster_to_lba : Volume → ℕ → ℕ
cluster_to_lba v cluster =
    (v.data_lba + (cluster + 2 ^ 32 - 2) % 2 ^ 32 * v.sectors_per_cluster) % 2 ^ 32

-- the characters from index `i` on, `n` at most, up to a space
pub until_space : ℕ → ℕ → Array ℕ → List ℕ
until_space zero i a = []
until_space (suc n) i a = if a i == b' ' then [] else a i ∷ until_space n (i + 1) a

pub parse_83 : DirEntry → List ℕ
unfolding until_space
parse_83 de =
    until_space 8 0 de.name ++ (if de.ext 0 == b' ' then [] else b'.' ∷ until_space 3 0 de.ext)

-- One of the three loops over the characters of a long name, `n` of them from index `j` on. `out` is
-- what is written so far.
pub lfn_chars : ℕ → ℕ → Array ℕ → List ℕ → List ℕ
lfn_chars zero j name out = out
lfn_chars (suc n) j name out =
    if ltb (length out) 255 && ((name j != 0) && (name j != 0xFFFF))
    then lfn_chars n (j + 1) name (out ++ name j % 256 ∷ [])
    else out

-- the characters of one entry
pub lfn_entry : LongName → List ℕ → List ℕ
unfolding lfn_chars
lfn_entry l out = lfn_chars 2 0 l.name3 (lfn_chars 6 0 l.name2 (lfn_chars 5 0 l.name1 out))

-- `parse_lfn` over the entries in the order in which the loop visits them, the last one first
pub parse_lfn : List LongName → List ℕ → List ℕ
parse_lfn [] out = out
parse_lfn (l ∷ lfns) out = if ltb (length out) 255 then parse_lfn lfns (lfn_entry l out) else out
