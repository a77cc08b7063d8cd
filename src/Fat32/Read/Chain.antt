-- ===== src/Fat32/Read/Chain.antt =====
-- The chain of clusters of a file, for `fat32_read_file` of kernel/fs/fat32.c.
use native.Mathlib.Nat.{mul-add-div_right, mul-add-mod_self_right, mod-eq_of_lt, div-eq_of_lt}
use aerogel.Common.{
  ℕ, zero, suc, ◌+◌, ◌*◌, ◌/◌, ◌%◌, ◌^◌, ◌<◌, ◌≤◌, ◌≡◌, refl, sym, ap, ap₂, ◌∙◌, arith, leb,
  if◌then◌else◌, Bool-cases, inl, inr, ◌⊎◌, none, some,
}
use aerogel.Common.Array.{Array}
use aerogel.Fat32.{fat_eoc, Volume, next_cluster, cluster_to_lba, skip_clusters}
use aerogel.Fat32.Read.Content.{Reads, byte_from}

module _ (read_sector : ℕ → Array ℕ → Array ℕ) (disk : ℕ → Array ℕ) (v : Volume) where
  -- the entry of the table for a cluster
  abbrev pub next_of : ℕ → ℕ
  next_of cluster =
      let sector = disk ((v.fat_lba + cluster * 4 % 2 ^ 32 / 512) % 2 ^ 32) in
      let off = cluster * 4 % 2 ^ 32 % 512 in
      (sector off
        + sector (off + 1) * 2 ^ 8
        + sector (off + 2) * 2 ^ 16
        + sector (off + 3) * 2 ^ 24)
      % 2 ^ 28

  -- cluster `k` of the chain from `start` on
  pub chain : (start k : ℕ) → ℕ
  chain start zero = start
  chain start (suc k) = next_of (chain start k)

  -- byte `p` of the file whose chain starts at `start`
  abbrev pub file_byte : (start p : ℕ) → ℕ
  file_byte start p =
      byte_from read_sector disk (cluster_to_lba v (chain start (p / v.bytes_per_cluster)))
        (p % v.bytes_per_cluster)

  module _ (reads : Reads read_sector disk) where
    pub next_cluster-next_of :
        (c : ℕ) (buf : Array ℕ) → (next_cluster read_sector v c buf).0 ≡ next_of c
    unfolding next_cluster
    next_cluster-next_of c buf =
        ap₂ (λ x y. (x + y) % 2 ^ 28)
          (ap₂ (λ x y. x + y)
            (ap₂ (λ x y. x + y)
              (reads ((v.fat_lba + c * 4 % 2 ^ 32 / 512) % 2 ^ 32) buf (c * 4 % 2 ^ 32 % 512)
                (omega arith))
              (ap (λ x. x * 2 ^ 8) (at 1 (omega arith))))
            (ap (λ x. x * 2 ^ 16) (at 2 (omega arith))))
          (ap (λ x. x * 2 ^ 24) (at 3 (omega arith)))
      where
        at :
            (k : ℕ)
            → k < 4
            → read_sector
                ((v.fat_lba + c * 4 % 2 ^ 32 / 512) % 2 ^ 32)
                buf
                (c * 4 % 2 ^ 32 % 512 + k)
              ≡ disk ((v.fat_lba + c * 4 % 2 ^ 32 / 512) % 2 ^ 32) (c * 4 % 2 ^ 32 % 512 + k)
        at k h =
            reads ((v.fat_lba + c * 4 % 2 ^ 32 / 512) % 2 ^ 32) buf (c * 4 % 2 ^ 32 % 512 + k)
              (omega (arith, h))

    pub file_byte-at :
        0 < v.bytes_per_cluster
        → (start idx r : ℕ) → r < v.bytes_per_cluster
        → file_byte start (idx * v.bytes_per_cluster + r)
          ≡ byte_from read_sector disk (cluster_to_lba v (chain start idx)) r
    file_byte-at wide start idx r h =
        ap₂ (λ k i. byte_from read_sector disk (cluster_to_lba v (chain start k)) i)
          (mul-add-div_right wide idx r ∙ ap (λ q. idx + q) (div-eq_of_lt h) ∙ omega arith)
          (mul-add-mod_self_right idx v.bytes_per_cluster r ∙ mod-eq_of_lt h)

    pub chain_zero : (start : ℕ) → start ≡ chain start 0
    unfolding chain
    chain_zero start = refl

    pub chain_step : (start k : ℕ) → chain start (k + 1) ≡ next_of (chain start k)
    unfolding chain
    chain_step start k = ap (chain start) one_more
      where
        one_more : k + 1 ≡ suc k
        one_more = omega arith

    skip_step :
        (n c : ℕ) (buf : Array ℕ)
        → skip_clusters read_sector (suc n) v c buf ≡ (
            let (c', b) = next_cluster read_sector v c buf in
            let rest = skip_clusters read_sector n v c' b in if leb fat_eoc c' then none else rest)
    unfolding skip_clusters
    skip_step n c buf = refl

    -- The walk that skips clusters ends at the cluster asked for, or stops where the chain ends.
    pub skip_clusters_lem :
        (n start k c : ℕ) (buf : Array ℕ)
        → c ≡ chain start k
        → ((c' : ℕ) × (b : Array ℕ) × (skip_clusters read_sector n v c buf ≡ some (c', b))
            × (c' ≡ chain start (k + n)))
          ⊎ ((skip_clusters read_sector n v c buf ≡ none)
              × ((j : ℕ) × (j ≤ k + n) × (fat_eoc ≤ chain start j)))
    unfolding skip_clusters chain
    skip_clusters_lem zero start k c buf at =
        inl (c, buf, refl, at ∙ ap (chain start) (omega arith))
    skip_clusters_lem (suc n) start k c buf at =
        elim (Bool-cases (leb fat_eoc (next_cluster read_sector v c buf).0)) [
          | inl ends ↦ inr (
            skip_step n c buf ∙ rw ends refl,
            (k + 1, omega arith, ground (arith, ends, next_at)),
          )
          | inr goes ↦
              rw (skip_step n c buf, goes)
                (elim (skip_clusters_lem n start (k + 1) (next_cluster read_sector v c buf).0
                  (next_cluster read_sector v c buf).1 next_at) [
                    | inl (c', b, e, there) ↦ inl (c', b, e, there ∙ ap (chain start) (omega arith))
                    | inr (e, (j, le, ends)) ↦ inr (e, (j, omega arith, ends))
                  ])
        ]
      where
        next_at : (next_cluster read_sector v c buf).0 ≡ chain start (k + 1)
        next_at = next_cluster-next_of c buf ∙ ap next_of at ∙ sym (chain_step start k)
