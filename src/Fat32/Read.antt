-- ===== src/Fat32/Read.antt =====
-- Reading a file, `fat32_read_file` of kernel/fs/fat32.c. The buffer `buf` and the sector buffer of the
-- volume are memory of their own.
pub mod Content
pub mod Chain
pub mod Files
use aerogel.Common.{
  ℕ, zero, suc, ◌+◌, ◌-◌, ◌*◌, ◌/◌, ◌%◌, ◌^◌, min, Bool, true, false, ◌&&◌, ltb, leb, if◌then◌else◌,
  Option, none, some,
}
use aerogel.Common.Array.{Array, copy}
use aerogel.Fat32.{fat_eoc, Volume, next_cluster, cluster_to_lba, skip_clusters}

-- `fat32_file_t`
pub record Fat32File : Type 0 where
  pub start_cluster : ℕ
  pub size : ℕ

-- the bytes to read from a cluster, where `left` bytes are left to read
abbrev pub chunk_size : Volume → (left in_cluster : ℕ) → ℕ
chunk_size v left in_cluster =
    let avail = v.bytes_per_cluster - in_cluster in if ltb left avail then left else avail

module _ (read_sector : ℕ → Array ℕ → Array ℕ) where
  -- the loop over the sectors of one chunk; `wrote` bytes are in `out` from `at` on
  pub read_sectors :
      (fuel lba at chunk wrote sec_off byte_off : ℕ)
      → (out buf : Array ℕ) → Option (Array ℕ × Array ℕ)
  read_sectors zero lba at chunk wrote sec_off byte_off out buf = none
  read_sectors (suc f) lba at chunk wrote sec_off byte_off out buf =
      let b = read_sector ((lba + sec_off) % 2 ^ 32) buf in
      let n = if ltb (chunk - wrote) (512 - byte_off) then chunk - wrote else 512 - byte_off in
      let rest =
        read_sectors f lba at chunk (wrote + n) (sec_off + 1) 0 (copy (at + wrote) byte_off n b out)
          b in
      if ltb wrote chunk then rest else some (out, buf)

  -- the number of bytes read and the buffer that they are read to; `none` when the fuel runs out. The buffer
  -- of the volume is left out of the result: each operation reads a sector to it first.
  abbrev pub ReadResult : Type 0
  ReadResult = Option (ℕ × Array ℕ)

  -- the loop over the clusters, `read_total` bytes are read
  pub read_clusters :
      (fuel : ℕ)
      → Volume
      → (size read_total in_cluster cluster : ℕ) → (out buf : Array ℕ) → ReadResult
  unfolding read_sectors
  read_clusters zero v size read_total in_cluster cluster out buf = none
  read_clusters (suc f) v size read_total in_cluster cluster out buf =
      let chunk = chunk_size v (size - read_total) in_cluster in
      let sectors =
        read_sectors (chunk + 1) (cluster_to_lba v cluster) read_total chunk 0 (in_cluster / 512)
          (in_cluster % 512) out buf in
      let rest : ReadResult = elim sectors [
        | none ↦ none
        | some (out', buf') ↦
            let (c, b) = next_cluster read_sector v cluster buf' in
            read_clusters f v size (read_total + chunk) 0 c out' b
      ] in
      if ltb read_total size && ltb cluster fat_eoc then rest else some (read_total, out)

  -- the rest of `fat32_read_file`, where `n` bytes are to be read and the walk has ended at `found`
  pub from_cluster :
      Volume → (n in_cluster : ℕ) → (out : Array ℕ) → (found : Option (ℕ × Array ℕ)) → ReadResult
  unfolding read_clusters
  from_cluster v n in_cluster out none = some (0, out)
  from_cluster v n in_cluster out (some (cluster, b)) =
      read_clusters (n + 1) v n 0 in_cluster cluster out b

  -- The bytes that are left for the read are taken in one cluster at least, so `size + 1` rounds are enough.
  pub read_file : Volume → Fat32File → (off size : ℕ) → (out buf : Array ℕ) → ReadResult
  unfolding from_cluster
  read_file v f off size out buf =
      let n = if ltb f.size ((off + size) % 2 ^ 64) then (f.size - off) % 2 ^ 32 else size in
      let off32 = off % 2 ^ 32 in
      if leb f.size off
      then some (0, out)
      else from_cluster v n (off32 % v.bytes_per_cluster) out
          (skip_clusters read_sector (off32 / v.bytes_per_cluster) v f.start_cluster buf)
