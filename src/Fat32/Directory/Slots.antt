-- ===== src/Fat32/Directory/Slots.antt =====
-- The directory that `load_dir` of kernel/fs/fat32.c loads, as one walk over the entries of its clusters.
use aerogel.Common.{
  ℕ, zero, suc, ◌+◌, ◌%◌, ◌^◌, ◌<◌, ◌≤◌, ◌≡◌, refl, sym, ap, ◌∙◌, subst, arith, Bool, true, false,
  leb, if◌then◌else◌, Bool-cases, inl, inr, List, [], ◌∷◌, ◌++◌, none, some,
}
use aerogel.Common.Array.{Array}
use aerogel.Fat32.{fat_eoc, Volume, next_cluster, cluster_to_lba}
use aerogel.Fat32.Read.Chain.{chain, next_cluster-next_of, chain_zero, chain_step}
use aerogel.Fat32.Directory.{Scan, scan_entry, scan_entries, scan_sectors, scan_clusters, load_dir}

-- an entry: the sector that it stands in, and its place there
abbrev pub Slot : Type 0
Slot = Array ℕ × ℕ

-- the walk over a list of entries, up to the one that ends the directory
unfoldable pub scan_all : List Slot → Scan → Bool × Scan
scan_all [] s = (false, s)
scan_all ((b, at) ∷ slots) s =
    let (stop, s') = scan_entry b at s in
    let rest = scan_all slots s' in if stop then (true, s') else rest

-- The second walk goes on where the first has not ended the directory.
abbrev go_on : Bool × Scan → (Scan → Bool × Scan) → Bool × Scan
go_on (stop, s) f = if stop then (true, s) else f s

scan_all-append :
    (xs ys : List Slot) (s : Scan) → scan_all (xs ++ ys) s ≡ go_on (scan_all xs s) (scan_all ys)
unfolding scan_all
scan_all-append [] ys s = refl
scan_all-append ((b, at) ∷ xs) ys s = elim (Bool-cases (scan_entry b at s).0) [
  | inl stop ↦ rw stop refl
  | inr more ↦ rw more (scan_all-append xs ys (scan_entry b at s).1)
]

-- the entries of a sector, `n` from `at` on
abbrev pub entries_of : ℕ → Array ℕ → (at : ℕ) → List Slot
entries_of zero b at = []
entries_of (suc n) b at = (b, at) ∷ entries_of n b (at + 32)

scan_entries_lem :
    (n : ℕ) (b : Array ℕ) (at : ℕ) (s : Scan)
    → scan_entries n b at s ≡ scan_all (entries_of n b at) s
unfolding scan_entries scan_all
scan_entries_lem zero b at s = refl
scan_entries_lem (suc n) b at s =
    ap (λ r. if (scan_entry b at s).0 then (true, (scan_entry b at s).1) else r)
      (scan_entries_lem n b (at + 32) (scan_entry b at s).1)

module _ (disk : ℕ → Array ℕ) where
  -- the entries of a cluster, `n` sectors from `lba` on
  abbrev pub entries_at : ℕ → (lba : ℕ) → List Slot
  entries_at zero lba = []
  entries_at (suc n) lba = entries_of 16 (disk (lba % 2 ^ 32)) 0 ++ entries_at n (lba + 1)

  -- the entries of `n` clusters of the chain of `start`, from cluster `k` of it on
  abbrev pub directory_entries : Volume → (start k n : ℕ) → List Slot
  directory_entries v start k zero = []
  directory_entries v start k (suc n) =
      entries_at v.sectors_per_cluster
        (cluster_to_lba v (chain (λ lba buf. disk lba) disk v start k))
      ++ directory_entries v start (k + 1) n

  abbrev pub whole : ℕ → Array ℕ → Array ℕ
  whole lba buf = disk lba

  -- the result of a walk, less the buffer
  abbrev result : Bool × Scan × Array ℕ → Bool × Scan
  result (stop, s, buf) = (stop, s)

  -- A cluster is walked entry by entry.
  scan_sectors_lem :
      (n lba : ℕ) (buf : Array ℕ) (s : Scan)
      → result (scan_sectors whole n lba buf s) ≡ scan_all (entries_at n lba) s
  unfolding scan_sectors scan_all
  scan_sectors_lem zero lba buf s = refl
  scan_sectors_lem (suc n) lba buf s =
      split (scan_entries 16 (disk (lba % 2 ^ 32)) 0 s)
        (scan_sectors_lem n (lba + 1) (disk (lba % 2 ^ 32)))
      ∙ ap (λ r. go_on r (scan_all (entries_at n (lba + 1))))
          (scan_entries_lem 16 (disk (lba % 2 ^ 32)) 0 s)
      ∙ sym (scan_all-append (entries_of 16 (disk (lba % 2 ^ 32)) 0) (entries_at n (lba + 1)) s)
    where
      split :
          (r : Bool × Scan)
          → ((s' : Scan)
              → result (scan_sectors whole n (lba + 1) (disk (lba % 2 ^ 32)) s')
                ≡ scan_all (entries_at n (lba + 1)) s')
          → result (
              if r.0
              then (true, r.1, disk (lba % 2 ^ 32))
              else scan_sectors whole n (lba + 1) (disk (lba % 2 ^ 32)) r.1)
            ≡ go_on r (scan_all (entries_at n (lba + 1)))
      split (true, s') later = refl
      split (false, s') later = later s'

  module _ (v : Volume) (start : ℕ) where
    abbrev at_cluster : ℕ → ℕ
    at_cluster k = chain whole disk v start k

    next_at :
        (k : ℕ) (buf : Array ℕ) → (next_cluster whole v (at_cluster k) buf).0 ≡ at_cluster (k + 1)
    next_at k buf =
        next_cluster-next_of whole disk v (λ lba b i h. refl) (at_cluster k) buf
        ∙ sym (chain_step whole disk v (λ lba b i h. refl) start k)

    past : (k : ℕ) → fat_eoc ≤ at_cluster k → leb fat_eoc (at_cluster k) ≡ true
    past k h = ground arith

    not_past : (k : ℕ) → at_cluster k < fat_eoc → leb fat_eoc (at_cluster k) ≡ false
    not_past k h = ground arith

    -- Behind a cluster the walk goes on with the next one.
    next_clusters :
        (f n k : ℕ) (r : Bool × Scan × Array ℕ)
        → ((buf : Array ℕ) (s : Scan)
            → scan_clusters whole f v (at_cluster (k + 1)) buf s
              ≡ some (scan_all (directory_entries v start (k + 1) n) s).1)
        → (if r.0
            then some r.1
            else scan_clusters whole f v
                (next_cluster whole v (at_cluster k) r.2).0
                (next_cluster whole v (at_cluster k) r.2).1
                r.1)
          ≡ some (go_on (result r) (scan_all (directory_entries v start (k + 1) n))).1
    next_clusters f n k (true, s, buf) later = refl
    next_clusters f n k (false, s, buf) later =
        ap (λ c. scan_clusters whole f v c (next_cluster whole v (at_cluster k) buf).1 s)
          (next_at k buf)
        ∙ later (next_cluster whole v (at_cluster k) buf).1 s

    scan_clusters_lem :
        (fuel n k : ℕ) (buf : Array ℕ) (s : Scan)
        → ((i : ℕ) → k ≤ i → i < k + n → at_cluster i < fat_eoc)
        → fat_eoc ≤ at_cluster (k + n)
        → n < fuel
        → scan_clusters whole fuel v (at_cluster k) buf s
          ≡ some (scan_all (directory_entries v start k n) s).1
    unfolding scan_clusters scan_all
    scan_clusters_lem zero n k buf s inside ends enough = absurd (omega arith)
    scan_clusters_lem (suc f) zero k buf s inside ends enough =
        let ended : leb fat_eoc (at_cluster k) ≡ true =
          past k (subst (λ i. fat_eoc ≤ at_cluster i) (omega arith) ends) in
        rw ended refl
    scan_clusters_lem (suc f) (suc n) k buf s inside ends enough =
        let open_cluster = not_past k (inside k (omega arith) (omega arith)) in
        let walk =
          scan_sectors whole v.sectors_per_cluster (cluster_to_lba v (at_cluster k)) buf s in
        rw open_cluster (
          next_clusters f n k walk (λ b s'.
            scan_clusters_lem f n (k + 1) b s' (λ i h h'. inside i (omega arith) (omega arith))
              (subst (λ i. fat_eoc ≤ at_cluster i) (omega arith) ends) (omega arith))
          ∙ ap (λ r. some (go_on r (scan_all (directory_entries v start (k + 1) n))).1)
              (scan_sectors_lem v.sectors_per_cluster (cluster_to_lba v (at_cluster k)) buf s)
          ∙ ap (λ r. some r.1)
              (sym (
                scan_all-append (entries_at v.sectors_per_cluster (cluster_to_lba v (at_cluster k)))
                  (directory_entries v start (k + 1) n) s)))

-- the walk before the first entry
abbrev pub unscanned : Scan
unscanned = record { lfns = []; nodes = [] }

-- The directory is one walk over the entries of its clusters.
pub load_dir-scan_all :
    (read_sector : ℕ → Array ℕ → Array ℕ) (disk : ℕ → Array ℕ)
    → ((lba : ℕ) (buf : Array ℕ) → read_sector lba buf ≡ disk lba)
    → (v : Volume) (fuel n cluster : ℕ) (buf : Array ℕ)
    → ((i : ℕ) → i < n → chain (whole disk) disk v cluster i < fat_eoc)
    → fat_eoc ≤ chain (whole disk) disk v cluster n
    → n < fuel
    → load_dir read_sector fuel v cluster buf
      ≡ some (scan_all (directory_entries disk v cluster 0 n) unscanned).1.nodes
unfolding load_dir
load_dir-scan_all read_sector disk fills v fuel n cluster buf inside ends enough =
    ap (λ f. load_dir f fuel v cluster buf) (λ i lba b. fills lba b i)
    ∙ ap (λ c. load_dir (whole disk) fuel v c buf)
        (chain_zero (whole disk) disk v (λ lba b i h. refl) cluster)
    ∙ ap (λ o. elim o [ none ↦ none | some s ↦ some s.nodes ])
        (scan_clusters_lem disk v cluster fuel n 0 buf unscanned (λ i h h'. inside i (omega arith))
          (subst (λ i. fat_eoc ≤ chain (whole disk) disk v cluster i) (omega arith) ends) enough)
