-- ===== src/Ata/Transfer.antt =====
-- The data that the transfers of drivers/storage/ata.c move.
use aerogel.Common.{
  ℕ, zero, suc, ◌+◌, ◌*◌, ◌/◌, ◌%◌, ◌^◌, ◌≤◌, ◌≡◌, refl, ap, ◌∙◌, arith, List, ◌∷◌, Bool, true, not,
  ◌||◌, leb, Bool-cases, inl, inr, ◌⊎◌,
}
use aerogel.Common.Array.{Array, update, update_ne}
use aerogel.Io.{Access, out8, out16, Bus, inw, send}
use aerogel.Ata.{
  ata_max_drives, Drive, reg_cmd, wait_busy, wait_drq, command, read_words, read_sectors, read,
  write_words, write_sectors, write,
}
use aerogel.Ata.Commands.{wait_busy-outs, wait_drq-outs}

read_words-outside :
    (n i : ℕ) (buf : Array ℕ) (b : Bus) (k : ℕ) → i + n ≤ k → (read_words n i buf b).0 k ≡ buf k
unfolding read_words
read_words-outside zero i buf b k h = refl
read_words-outside (suc n) i buf b k h =
    read_words-outside n (i + 1) (update buf i (inw b).0) (inw b).1 k (omega arith)
    ∙ update_ne buf i k (inw b).0 (omega arith)

read_words-outs : (n i : ℕ) (buf : Array ℕ) (b : Bus) → (read_words n i buf b).1.outs ≡ b.outs
unfolding read_words
read_words-outs zero i buf b = refl
read_words-outs (suc n) i buf b = read_words-outs n (i + 1) (update buf i (inw b).0) (inw b).1

read_sectors-outside :
    (n s : ℕ) (buf : Array ℕ) (b : Bus) (k : ℕ)
    → (s + n) * 256 ≤ k
    → (read_sectors n s buf b).1 k ≡ buf k
unfolding read_sectors
read_sectors-outside zero s buf b k h = refl
read_sectors-outside (suc n) s buf b k h = elim (Bool-cases (wait_drq b).0) [
  | inl ready ↦
      rw (ready, read_sectors)
        (read_sectors-outside n (s + 1) _ _ k (omega arith)
          ∙ read_words-outside 256 (s * 256) buf (wait_drq b).1 k (omega arith))
  | inr late ↦ rw (late, read_sectors)
]

read_sectors-outs : (n s : ℕ) (buf : Array ℕ) (b : Bus) → (read_sectors n s buf b).2.outs ≡ b.outs
unfolding read_sectors
read_sectors-outs zero s buf b = refl
read_sectors-outs (suc n) s buf b = elim (Bool-cases (wait_drq b).0) [
  | inl ready ↦
      rw (ready, read_sectors)
        (read_sectors-outs n (s + 1) _ _
          ∙ read_words-outs 256 (s * 256) buf (wait_drq b).1
          ∙ wait_drq-outs b)
  | inr late ↦ rw (late, read_sectors) (wait_drq-outs b)
]

-- What a read leaves: the words past the sectors asked for, and the ports written.
pub record IsContained (d : Drive) (lba count : ℕ) (buf : Array ℕ) (b : Bus)
    (r : Bool × Array ℕ × Bus) : Type 0 where
  pub outside : (k : ℕ) → count * 256 ≤ k → r.1 k ≡ buf k
  pub ports : (r.2.outs ≡ b.outs) ⊎ (r.2.outs ≡ (command d lba count 0x20 b).outs)

pub read-IsContained :
    (drives : Array Drive) (drv lba count : ℕ) (buf : Array ℕ) (b : Bus)
    → IsContained (drives drv) lba count buf b (read drives drv lba count buf b)
unfolding read command
read-IsContained drives drv lba count buf b =
    elim (Bool-cases (leb ata_max_drives drv || not (drives drv).present)) [
      | inl bad ↦ rw bad (record { outside = λ k h. refl; ports = inl refl })
      | inr good ↦ rw good (elim (Bool-cases (wait_busy b).0) [
        | inl free ↦ rw free (record {
          outside = λ k h. read_sectors-outside count 0 buf _ k (omega arith);
          ports = inr (
              read_sectors-outs count 0 buf (command (drives drv) lba count 0x20 (wait_busy b).1)
              ∙ ap (λ outs. (command (drives drv) lba count 0x20 (record b { outs = outs })).outs)
                  (wait_busy-outs b));
        })
        | inr busy ↦ rw busy (record { outside = λ k h. refl; ports = inl (wait_busy-outs b) })
      ])
    ]

-- The writes of `n` words of the buffer to the data register, from index `i` on, the last one first, before `outs`.
abbrev pub words_out : (base : ℕ) → Array ℕ → (i n : ℕ) → List Access → List Access
words_out base buf i zero outs = outs
words_out base buf i (suc n) outs = out16 base (buf (i + n)) ∷ words_out base buf i n outs

-- The writes of `n` sectors: for each of them its 256 words and then a flush of the cache, command 0xE7.
abbrev pub sectors_out : (base : ℕ) → Array ℕ → (n : ℕ) → List Access → List Access
sectors_out base buf zero outs = outs
sectors_out base buf (suc n) outs =
    out8 (base + 7) 0xE7 ∷ words_out base buf (n * 256) 256 (sectors_out base buf n outs)

-- The writes that ask the drive `d` for `count` sectors from `lba` on to be written, command 0x30: the four parts of
-- the sector number of 28 bits go to the registers 3, 4, 5 and the lower half of 6.
abbrev pub ask_write : Drive → (lba count : ℕ) → List Access → List Access
ask_write d lba count outs =
    out8 (d.base + 7) 0x30
    ∷ out8 (d.base + 5) (lba / 2 ^ 16 % 2 ^ 8)
    ∷ out8 (d.base + 4) (lba / 2 ^ 8 % 2 ^ 8)
    ∷ out8 (d.base + 3) (lba % 2 ^ 8)
    ∷ out8 (d.base + 2) count
    ∷ out8 (d.base + 6) (0xE0 + d.slave * 2 ^ 4 + lba / 2 ^ 24 % 2 ^ 4)
    ∷ outs

module _ (base : ℕ) (buf : Array ℕ) (sent : List Access) where
  write_words-outs :
      (n i j : ℕ) (b : Bus)
      → b.outs ≡ words_out base buf i j sent
      → (write_words base n (i + j) buf b).outs ≡ words_out base buf i (j + n) sent
  unfolding write_words
  write_words-outs zero i j b h = h ∙ ap (λ k. words_out base buf i k sent) (omega arith)
  write_words-outs (suc n) i j b h =
      ap (λ k. (write_words base n k buf (send (out16 base (buf (i + j))) b)).outs) (omega arith)
      ∙ write_words-outs n i (suc j) (send (out16 base (buf (i + j))) b)
          (ap (λ l. out16 base (buf (i + j)) ∷ l) h)
      ∙ ap (λ k. words_out base buf i k sent) (omega arith)

module _ (base : ℕ) (buf : Array ℕ) (sent : List Access) where
  -- one sector with its flush, after the wait for DRQ
  sector-outs :
      (s : ℕ) (b : Bus)
      → b.outs ≡ sectors_out base buf s sent
      → (wait_busy (
          send
            (out8 (base + reg_cmd) 0xE7)
            (write_words base 256 (s * 256) buf (wait_drq b).1))).1.outs
        ≡ sectors_out base buf (suc s) sent
  sector-outs s b h =
      wait_busy-outs _
      ∙ ap (λ l. out8 (base + 7) 0xE7 ∷ l)
          (ap (λ k. (write_words base 256 k buf (wait_drq b).1).outs) (omega arith)
            ∙ write_words-outs base buf (sectors_out base buf s sent) 256 (s * 256) 0 (wait_drq b).1
                (wait_drq-outs b ∙ h))

  write_sectors-outs :
      (n s : ℕ) (b : Bus)
      → b.outs ≡ sectors_out base buf s sent
      → (write_sectors base n s buf b).0 ≡ true
      → (write_sectors base n s buf b).1.outs ≡ sectors_out base buf (s + n) sent
  unfolding write_sectors
  write_sectors-outs zero s b h = λ ok. h ∙ ap (λ k. sectors_out base buf k sent) (omega arith)
  write_sectors-outs (suc n) s b h = elim (Bool-cases (wait_drq b).0) [
    | inl ready ↦
        rw (ready, write_sectors)
          (elim (Bool-cases
            (wait_busy (
              send (out8 (base + reg_cmd) 0xE7)
                (write_words base 256 (s * 256) buf (wait_drq b).1))).0) [
                  | inl done ↦
                      rw (done, write_sectors)
                        (λ ok.
                          write_sectors-outs n (s + 1) _
                            (sector-outs s b h
                              ∙ ap (λ k. sectors_out base buf k sent) {x = suc s} (omega arith))
                            ok
                          ∙ ap (λ k. sectors_out base buf k sent) (omega arith))
                  | inr stuck ↦ rw (stuck, write_sectors) (λ ok. ground (arith, ok))
                ])
    | inr late ↦ rw (late, write_sectors) (λ ok. ground (arith, ok))
  ]

-- A write that succeeds has written to these ports and no other, in this order: the command with the sector number,
-- and then the words of its sectors to the data register, each sector with a flush.
pub write_lem :
    (drives : Array Drive) (drv lba count : ℕ) (buf : Array ℕ) (b : Bus)
    → (write drives drv lba count buf b).0 ≡ true
    → (write drives drv lba count buf b).1.outs
      ≡ sectors_out (drives drv).base buf count (ask_write (drives drv) lba count b.outs)
unfolding write command
write_lem drives drv lba count buf b =
    elim (Bool-cases (leb ata_max_drives drv || not (drives drv).present)) [
      | inl bad ↦ rw bad (λ ok. ground (arith, ok))
      | inr good ↦ rw good (elim (Bool-cases (wait_busy b).0) [
        | inl free ↦ rw free (λ ok.
            write_sectors-outs (drives drv).base buf (ask_write (drives drv) lba count b.outs) count
              0 _ (ap (ask_write (drives drv) lba count) (wait_busy-outs b)) ok
            ∙ ap
                (λ k. sectors_out (drives drv).base buf k (ask_write (drives drv) lba count b.outs))
                (omega arith))
        | inr busy ↦ rw busy (λ ok. ground (arith, ok))
      ])
    ]
