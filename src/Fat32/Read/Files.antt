-- ===== src/Fat32/Read/Files.antt =====
-- What `fat32_read_file` of kernel/fs/fat32.c reads of a file: the bytes of the clusters of its chain.
use native.Mathlib.Nat.{div-add-mod', mod-lt, mul-le-mul_right}
use aerogel.Common.{
  ℕ, zero, suc, ◌+◌, ◌-◌, ◌*◌, ◌/◌, ◌%◌, ◌^◌, ◌<◌, ◌≤◌, ◌≡◌, min, refl, sym, ap, ◌∙◌, subst, arith,
  ◌&&◌, ltb, leb, if◌then◌else◌, Bool-cases, inl, inr, none, some,
}
use aerogel.Common.Array.{Array}
use aerogel.Fat32.{fat_eoc, Volume, next_cluster, cluster_to_lba, skip_clusters}
use aerogel.Fat32.Read.{
  Fat32File, chunk_size, read_sectors, read_clusters, ReadResult, read_file, from_cluster,
}
use aerogel.Fat32.Read.Content.{Reads, byte_from, read_sectors_lem}
use aerogel.Fat32.Read.Chain.{
  next_of, chain, file_byte, next_cluster-next_of, file_byte-at, skip_clusters_lem, chain_zero,
  chain_step,
}

module _ (read_sector : ℕ → Array ℕ → Array ℕ) (disk : ℕ → Array ℕ) (v : Volume)
    (reads : Reads read_sector disk) (wide : 0 < v.bytes_per_cluster) where
  -- What a read gives: `count` bytes of the file from byte `off` on, in `out'` from index `from` on; it stops
  -- before `size` bytes only where the chain ends.
  abbrev pub ReadsBytes :
      (start off size from : ℕ) → (out : Array ℕ) → ReadResult read_sector → Type 0
  ReadsBytes start off size from out r =
      (count : ℕ) × (out' : Array ℕ) × (r ≡ some (count, out'))
      × (from ≤ count)
      × (count ≤ size)
      × ((i : ℕ)
          → out' i ≡ (
              if leb from i && ltb i count
              then file_byte read_sector disk v start (off + i)
              else out i))
      × (count < size
          → (k : ℕ) × (k * v.bytes_per_cluster ≤ off + count)
            × (fat_eoc ≤ chain read_sector disk v start k))

  read_step :
      (f size t in_cluster cluster : ℕ) (out buf out' buf' : Array ℕ)
      → read_sectors read_sector
          (chunk_size v (size - t) in_cluster + 1)
          (cluster_to_lba v cluster)
          t
          (chunk_size v (size - t) in_cluster)
          0
          (in_cluster / 512)
          (in_cluster % 512)
          out
          buf
        ≡ some (out', buf')
      → read_clusters read_sector (suc f) v size t in_cluster cluster out buf ≡ (
          let (c, b) = next_cluster read_sector v cluster buf' in
          let rest =
            read_clusters read_sector f v size
              (t + chunk_size v (size - t) in_cluster)
              0
              c
              out'
              b in
          if ltb t size && ltb cluster fat_eoc then rest else some (t, out))
  unfolding read_clusters
  read_step f size t in_cluster cluster out buf out' buf' r =
      ap
        (λ o.
          let rest : ReadResult read_sector = elim o [
            | none ↦ none
            | some (out', buf') ↦
                let (c, b) = next_cluster read_sector v cluster buf' in
                read_clusters read_sector f v size (t + chunk_size v (size - t) in_cluster) 0 c out'
                  b
          ] in
          if ltb t size && ltb cluster fat_eoc then rest else some (t, out))
        r

  -- The bytes of a chunk are those of the file, and those of the chunks behind it follow.
  join_chunks :
      (start off size t chunk idx r0 cluster : ℕ) (out out' : Array ℕ) (r : ReadResult read_sector)
      → off + t ≡ idx * v.bytes_per_cluster + r0
      → r0 + chunk ≤ v.bytes_per_cluster
      → cluster ≡ chain read_sector disk v start idx
      → ((i : ℕ)
          → out' i ≡ (
              if leb (t + 0) i && ltb i (t + chunk)
              then byte_from read_sector disk (cluster_to_lba v cluster) (r0 + (i - t))
              else out i))
      → ReadsBytes start off size (t + chunk) out' r
      → ReadsBytes start off size t out r
  join_chunks start off size t chunk idx r0 cluster out out' r place fits at bytes
        (count, out2, e, from, le, later, stop) =
      (
        count,
        out2,
        e,
        omega arith,
        le,
        λ i. elim (Bool-cases (leb t i && ltb i (t + chunk))) [
          | inl here ↦
              let first : t ≤ i = ground (arith, here) in
              let last : i < t + chunk = ground (arith, here) in
              let same : byte_from read_sector disk (cluster_to_lba v cluster) (r0 + (i - t))
                  ≡ file_byte read_sector disk v start (off + i) =
                ap (λ c. byte_from read_sector disk (cluster_to_lba v c) (r0 + (i - t))) at
                ∙ sym (
                    file_byte-at read_sector disk v reads wide start idx (r0 + (i - t))
                      (omega arith))
                ∙ ap (file_byte read_sector disk v start) (omega arith) in
              ground (arith, later i, bytes i, here, same, from)
          | inr outside ↦ ground (arith, later i, bytes i, outside, from)
        ],
        stop,
      )

  read_clusters_lem :
      (fuel start off size t idx r0 cluster : ℕ) (out buf : Array ℕ)
      → r0 < v.bytes_per_cluster
      → (t < size → off + t ≡ idx * v.bytes_per_cluster + r0)
      → t ≤ size
      → size < fuel + t
      → cluster ≡ chain read_sector disk v start idx
      → ReadsBytes start off size t out (read_clusters read_sector fuel v size t r0 cluster out buf)
  read_clusters_lem zero start off size t idx r0 cluster out buf r0_low place le enough at =
      absurd (omega (arith, enough, le))
  read_clusters_lem (suc f) start off size t idx r0 cluster out buf r0_low place le enough at =
      let (out', buf', e, bytes) =
        read_sectors_lem read_sector disk reads (chunk + 1) (cluster_to_lba v cluster) t chunk 0
          (r0 / 512) (r0 % 512) out buf r0 (omega arith) (omega arith) (λ h. omega arith)
          (omega arith) in
      subst (ReadsBytes start off size t out)
        (sym (read_step f size t r0 cluster out buf out' buf' e))
        (elim (Bool-cases (ltb t size && ltb cluster fat_eoc)) [
          | inl more ↦
              let less : t < size = ground (arith, more) in
              rw more (
                join_chunks start off size t chunk idx r0 cluster out out'
                  (read_clusters read_sector f v size (t + chunk) 0
                    (next_cluster read_sector v cluster buf').0 out'
                    (next_cluster read_sector v cluster buf').1)
                  (place less) (ground (arith, r0_low)) at bytes
                  (read_clusters_lem f start off size (t + chunk) (idx + 1) 0
                    (next_cluster read_sector v cluster buf').0 out'
                    (next_cluster read_sector v cluster buf').1 wide
                    (λ h. ground (arith, place less, h)) (ground (arith, less))
                    (ground (arith, less, r0_low, enough))
                    (next_cluster-next_of read_sector disk v reads cluster buf'
                      ∙ ap (next_of read_sector disk v) at
                      ∙ sym (chain_step read_sector disk v reads start idx))))
          | inr over ↦ rw over (
            t,
            out,
            refl,
            omega arith,
            le,
            (λ i. ground arith),
            (λ less. (idx, omega (arith, place less), ground (arith, over, less, at))),
          )
        ])
    where
      chunk : ℕ
      chunk = chunk_size v (size - t) r0

  from_cluster_lem :
      (start off n : ℕ) (out buf : Array ℕ)
      → ReadsBytes start off n 0 out (
          from_cluster read_sector v n
            (off % v.bytes_per_cluster)
            out
            (skip_clusters read_sector (off / v.bytes_per_cluster) v start buf))
  unfolding from_cluster
  from_cluster_lem start off n out buf =
      elim (skip_clusters_lem read_sector disk v reads (off / v.bytes_per_cluster) start 0 start buf
        (chain_zero read_sector disk v reads start)) [
          | inl (c, b, e, there) ↦
              subst
                (λ o.
                  ReadsBytes start off n 0 out
                    (from_cluster read_sector v n (off % v.bytes_per_cluster) out o))
                (sym e)
                (read_clusters_lem (n + 1) start off n 0 (off / v.bytes_per_cluster)
                  (off % v.bytes_per_cluster) c out b (mod-lt off wide) (λ h. omega (arith, parts))
                  (omega arith) (omega arith)
                  (there ∙ ap (chain read_sector disk v start) (omega arith)))
          | inr (e, (j, le, ends)) ↦
              subst
                (λ o.
                  ReadsBytes start off n 0 out
                    (from_cluster read_sector v n (off % v.bytes_per_cluster) out o))
                (sym e)
                (
                  0,
                  out,
                  refl,
                  omega arith,
                  omega arith,
                  (λ i. ground arith),
                  λ less. (j, omega (arith, parts, mul-le-mul_right v.bytes_per_cluster le), ends),
                )
        ]
    where
      parts : off / v.bytes_per_cluster * v.bytes_per_cluster + off % v.bytes_per_cluster ≡ off
      parts = div-add-mod' off v.bytes_per_cluster

  count_eq :
      (size file off : ℕ)
      → file < 2 ^ 32
      → size < 2 ^ 32
      → off < file
      → (if ltb file ((off + size) % 2 ^ 64) then (file - off) % 2 ^ 32 else size)
        ≡ min size (file - off)
  count_eq size file off h h' h'' = ground arith

  -- Where the function that reads sectors fills the buffer, and clusters have bytes, `fat32_read_file` of
  -- `size` bytes from `off` on, of a file below 2 ^ 32 bytes, ends. It writes bytes of the file in their
  -- order, no more than `size` and none behind the end of the file, and changes no other byte of the
  -- buffer. It reads less than the file has of them only where the chain of clusters ends before.
  pub read_file_lem :
      (f : Fat32File) (off size : ℕ) (out buf : Array ℕ)
      → f.size < 2 ^ 32
      → size < 2 ^ 32
      → ReadsBytes f.start_cluster off
          (min size (f.size - off))
          0
          out
          (read_file read_sector v f off size out buf)
  unfolding read_file
  read_file_lem f off size out buf file_low size_low = elim (Bool-cases (leb f.size off)) [
    | inl behind ↦ rw behind (
      0,
      out,
      refl,
      omega arith,
      omega arith,
      (λ i. ground arith),
      λ less. absurd (ground (arith, behind, less)),
    )
    | inr inside ↦
        let low : off < f.size = ground (arith, inside) in
        let n = count_eq size f.size off file_low size_low low in
        let short : off % 2 ^ 32 ≡ off = omega arith in
        rw (inside, short, n)
          (from_cluster_lem f.start_cluster off (min size (f.size - off)) out buf)
  ]
