-- ===== src/Fat32/Directory/Tests.antt =====
-- A disk with one directory.
use aerogel.Common.{
  ℕ, zero, suc, ◌<◌, ◌≤◌, ◌≡◌, ap, refl, arith, [], ◌∷◌, ◌++◌, List, replicate, get_or, ltb, ◌==◌,
  if◌then◌else◌, some,
}
use aerogel.Common.Array.{Array}
use aerogel.Fat32.{fat_eoc, Volume, next_cluster, cluster_to_lba, parse_83}
use aerogel.Fat32.Read.Chain.{chain, next_of, chain_zero, chain_step}
use aerogel.Fat32.Directory.{load_dir, file}
use aerogel.Fat32.Directory.Slots.{directory_entries, whole}
use aerogel.Fat32.Directory.Listing.{listed, load_dir_lem}

abbrev volume : Volume
volume = record {
  fat_lba = 2080;
  data_lba = 4000;
  root_cluster = 2;
  sectors_per_cluster = 8;
  bytes_per_cluster = 4096;
}

-- A root directory of one cluster with one file, `A.TXT`.
abbrev one_file : List ℕ
one_file = b'A' ∷ replicate 7 b' ' ++ b'T' ∷ b'X' ∷ b'T' ∷ 0x20 ∷ []

abbrev small_disk : ℕ → Array ℕ
small_disk lba i = if ltb lba 4000 then 255 else if lba == 4000 then get_or one_file i 0 else 0

chain_end : fat_eoc ≤ chain (whole small_disk) small_disk volume 2 1
chain_end =
    let step = chain_step (whole small_disk) small_disk volume (λ lba b i h. refl) 2 0 in
    let first =
      ap (next_of (whole small_disk) small_disk volume)
        (chain_zero (whole small_disk) small_disk volume (λ lba b i h. refl) 2) in
    omega (arith, step, first)

chain_inside : (i : ℕ) → i < 1 → chain (whole small_disk) small_disk volume 2 i < fat_eoc
chain_inside zero h =
    omega (arith, chain_zero (whole small_disk) small_disk volume (λ lba b i h. refl) 2)
chain_inside (suc i) h = absurd (omega arith)

load_dir_lem_example :
    load_dir (whole small_disk) 2 volume 2 (λ _. 0)
    ≡ some (listed [] (directory_entries small_disk volume 2 0 1))
load_dir_lem_example =
    load_dir_lem (whole small_disk) small_disk (λ lba buf. refl) volume 2 1 2 (λ _. 0) chain_inside
      chain_end (omega arith)

load_dir-file :
    load_dir (whole small_disk) 2 volume 2 (λ _. 0)
    ≡ some
        (file (b'A' ∷ b'.' ∷ b'T' ∷ b'X' ∷ b'T' ∷ []) (record { start_cluster = 0; size = 0 }) ∷ [])
unfolding load_dir next_cluster cluster_to_lba parse_83
load_dir-file = refl
