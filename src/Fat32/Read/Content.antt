-- ===== src/Fat32/Read/Content.antt =====
-- What `fat32_read_file` of kernel/fs/fat32.c reads.
use aerogel.Common.{
  ℕ, zero, suc, ◌+◌, ◌-◌, ◌*◌, ◌/◌, ◌%◌, ◌^◌, ◌<◌, ◌≤◌, ◌≡◌, refl, ap₂, arith, ◌&&◌, ltb, leb,
  if◌then◌else◌, Bool-cases, inl, inr, some,
}
use aerogel.Common.Array.{Array, copy}
use aerogel.Fat32.Read.{read_sectors}

module _ (read_sector : ℕ → Array ℕ → Array ℕ) (disk : ℕ → Array ℕ) where
  -- The function that reads a sector fills the buffer with the sector's 512 bytes.
  abbrev pub Reads : Type 0
  Reads = (lba : ℕ) (buf : Array ℕ) (i : ℕ) → i < 512 → read_sector lba buf i ≡ disk lba i

  -- byte `i` from the start of sector `lba` on
  abbrev pub byte_from : (lba i : ℕ) → ℕ
  byte_from lba i = disk ((lba + i / 512) % 2 ^ 32) (i % 512)

  module _ (reads : Reads) where
    -- The bytes taken from one sector, `n` from `byte_off` on, are those of the run from `start` on.
    sector_bytes :
        (lba sec_off byte_off n start wrote at chunk : ℕ) (out out' buf : Array ℕ)
        → byte_off + n ≤ 512
        → wrote + n ≤ chunk
        → start + wrote ≡ sec_off * 512 + byte_off
        → (i : ℕ)
        → out' i ≡ (
            if leb (at + (wrote + n)) i && ltb i (at + chunk)
            then byte_from lba (start + (i - at))
            else copy (at + wrote) byte_off n (read_sector ((lba + sec_off) % 2 ^ 32) buf) out i)
        → out' i ≡ (
            if leb (at + wrote) i && ltb i (at + chunk)
            then byte_from lba (start + (i - at))
            else out i)
    sector_bytes lba sec_off byte_off n start wrote at chunk out out' buf inside fits place i
          later =
        elim (Bool-cases (leb (at + wrote) i && ltb i (at + wrote + n))) [
          | inl here ↦
              let k : byte_off + (i - (at + wrote)) < 512 = ground (arith, here) in
              let sector = reads ((lba + sec_off) % 2 ^ 32) buf (byte_off + (i - (at + wrote))) k in
              let first : at + wrote ≤ i = ground (arith, here) in
              let last : i < at + wrote + n = ground (arith, here) in
              let same : byte_from lba (start + (i - at))
                  ≡ disk ((lba + sec_off) % 2 ^ 32) (byte_off + (i - (at + wrote))) =
                ap₂ (λ x y. disk ((lba + x) % 2 ^ 32) y) (omega arith) (omega arith) in
              ground (arith, later, here, sector, same)
          | inr off ↦ ground (arith, later, off)
        ]

    -- One chunk: `chunk` bytes, from byte `start` of the cluster on.
    pub read_sectors_lem :
        (fuel lba at chunk wrote sec_off byte_off : ℕ) (out buf : Array ℕ) (start : ℕ)
        → byte_off < 512
        → wrote ≤ chunk
        → (wrote < chunk → start + wrote ≡ sec_off * 512 + byte_off)
        → chunk < fuel + wrote
        → (out' : Array ℕ) × (buf' : Array ℕ) × (read_sectors read_sector fuel lba at chunk wrote
              sec_off byte_off out buf
            ≡ some (out', buf'))
          × ((i : ℕ)
              → out' i ≡ (
                  if leb (at + wrote) i && ltb i (at + chunk)
                  then byte_from lba (start + (i - at))
                  else out i))
    unfolding read_sectors
    read_sectors_lem zero lba at chunk wrote sec_off byte_off out buf start low le place enough =
        absurd (omega (arith, enough, le))
    read_sectors_lem (suc f) lba at chunk wrote sec_off byte_off out buf start low le place enough =
        elim (Bool-cases (ltb wrote chunk)) [
          | inl more ↦
              let less : wrote < chunk = ground (arith, more) in
              let after_place : (wrote + taken < chunk
                  → start + (wrote + taken) ≡ (sec_off + 1) * 512 + 0) =
                λ h. ground (arith, place less, h) in
              let (out', buf', e, bytes) =
                read_sectors_lem f lba at chunk (wrote + taken) (sec_off + 1) 0
                  (copy (at + wrote) byte_off taken (read_sector ((lba + sec_off) % 2 ^ 32) buf)
                    out)
                  (read_sector ((lba + sec_off) % 2 ^ 32) buf) start (omega arith)
                  (ground (arith, less)) after_place (ground (arith, less, enough, low)) in
              rw more (
                out',
                buf',
                e,
                λ i.
                    sector_bytes lba sec_off byte_off taken start wrote at chunk out out' buf
                      (ground (arith, low)) (ground (arith, less)) (place less) i (bytes i),
              )
          | inr over ↦ rw over (out, buf, refl, λ i. ground (arith, le, over))
        ]
      where
        taken : ℕ
        taken = if ltb (chunk - wrote) (512 - byte_off) then chunk - wrote else 512 - byte_off
