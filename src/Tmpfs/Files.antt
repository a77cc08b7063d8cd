-- ===== src/Tmpfs/Files.antt =====
-- What a file of kernel/fs/tmpfs.c holds after a write.
use aerogel.Common.{
  ℕ, ◌+◌, ◌-◌, ◌%◌, ◌^◌, ◌<◌, ◌≤◌, ◌≡◌, min, ap, arith, ◌⊎◌, inl, inr, leb, Bool-cases,
}
use aerogel.Common.Array.{Array}
use aerogel.Tmpfs.{File, u32, read, write}

-- The file after a write of `sz` bytes at `off`: its new bytes, the old ones beside them, and its size.
pub record Written (off sz : ℕ) (src : Array ℕ) (f f' : File) : Type 0 where
  pub bytes : (i : ℕ) → i < sz → f'.data_at (off + i) ≡ src i
  pub others : (k : ℕ) → k < f.size → (k < off) ⊎ (off + sz ≤ k) → f'.data_at k ≡ f.data_at k
  pub grows : (off + sz ≤ f'.size) × (f.size ≤ f'.size)
  pub size : (f'.size ≡ f.size) ⊎ (f'.size ≡ off + sz)

-- A write that ends below 2 ^ 32 puts the bytes in their place, keeps the file's other bytes, and makes
-- the file as long as needed, but never shorter.
pub write-Written :
    (fresh : Array ℕ) (f : File) (off sz : ℕ) (src : Array ℕ)
    → off + sz < u32
    → Written off sz src f (write fresh f off sz src).1
unfolding write
write-Written fresh f off sz src h = record {
  bytes = λ i hi. ground (arith, h, hi);
  others = λ k hk out. ground (arith, h, hk, out);
  grows = ground (arith, h);
  size = ground (arith, h);
}

-- Reading back what was written gives the same bytes.
pub read-write :
    (fresh : Array ℕ) (f : File) (off sz : ℕ) (src buf : Array ℕ)
    → 0 < sz
    → off + sz < u32
    → ((read (write fresh f off sz src).1 off sz buf).0 ≡ sz)
      × ((i : ℕ) → i < sz → (read (write fresh f off sz src).1 off sz buf).1 i ≡ src i)
unfolding read write
read-write fresh f off sz src buf pos h =
    (ground (arith, h, pos), λ i hi. ground (arith, h, hi, pos))

-- A read up to the end of a file below 2 ^ 32 bytes gives the bytes that are there.
pub read_up_to_end :
    (f : File) (off sz : ℕ) (buf : Array ℕ)
    → f.size < 2 ^ 32
    → sz < 2 ^ 32
    → off ≤ f.size
    → ((read f off sz buf).0 ≡ min sz (f.size - off))
      × ((i : ℕ) → i < min sz (f.size - off) → (read f off sz buf).1 i ≡ f.data_at (off + i))
unfolding read
read_up_to_end f off sz buf low sz_low le = elim (Bool-cases (leb f.size off)) [
  | inl ends ↦ rw ends (ground (arith, ends), λ i h. absurd (ground (arith, ends, h)))
  | inr inside ↦ rw inside (
    ground (arith, low, sz_low, inside),
    λ i h.
        let same : f.data_at (off % 2 ^ 32 + (i - 0)) ≡ f.data_at (off + i) =
          ap f.data_at (place i) in
        ground (arith, low, sz_low, inside, h, same),
  )
]
  where
    place : (i : ℕ) → off % 2 ^ 32 + (i - 0) ≡ off + i
    place i = omega (arith, le, low)
