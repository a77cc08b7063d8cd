-- ===== src/Fat32/Tests.antt =====
-- Files, a directory, and a long name of 13 letters in each of 20 entries.
use aerogel.Common.{ℕ, ◌-◌, min, refl, arith}
use aerogel.Common.Array.{Array}
use aerogel.Fat32.{LongName, Volume}
use aerogel.Fat32.Read.{read_file}
use aerogel.Fat32.Read.Content.{Reads}
use aerogel.Fat32.Read.Files.{ReadsBytes, read_file_lem}

abbrev letters : LongName
letters = record { name1 = λ _. b'a'; name2 = λ _. b'b'; name3 = λ _. b'c' }

-- A disk of zeros, where every cluster is followed by cluster 0.
abbrev volume : Volume
volume = record {
  fat_lba = 2080;
  data_lba = 4000;
  root_cluster = 2;
  sectors_per_cluster = 8;
  bytes_per_cluster = 4096;
}

abbrev zeros : ℕ → Array ℕ
zeros lba i = 0

zeros-Reads : Reads (λ lba buf. zeros lba) zeros
zeros-Reads lba buf i h = refl

read_file_lem_example :
    ReadsBytes
      (λ lba buf. zeros lba)
      zeros
      volume
      zeros-Reads
      (omega arith)
      5
      100
      (min 300 (250 - 100))
      0
      (λ _. 7)
      (read_file
        (λ lba buf. zeros lba)
        volume
        (record { start_cluster = 5; size = 250 })
        100
        300
        (λ _. 7)
        (λ _. 0))
read_file_lem_example =
    read_file_lem (λ lba buf. zeros lba) zeros volume zeros-Reads (omega arith)
      (record { start_cluster = 5; size = 250 }) 100 300 (λ _. 7) (λ _. 0) (omega arith)
      (omega arith)
