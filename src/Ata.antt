-- ===== src/Ata.antt =====
-- The ATA driver, drivers/storage/ata.c, over the port answers of `Io`. A result is `true` for 0 and
-- `false` for -1. The C loops that poll a status register are bounded, and so are these.
pub mod Commands
pub mod Transfer
mod Tests
use aerogel.Common.{
  ℕ, zero, suc, ◌+◌, ◌-◌, ◌*◌, ◌/◌, ◌%◌, ◌^◌, Bool, true, false, not, ◌&&◌, ◌||◌, ◌==◌, ◌!=◌, ltb,
  leb, if◌then◌else◌, List, [], ◌∷◌, Option, none, some, bit_and,
}
use aerogel.Common.Array.{Array, update}
use aerogel.Io.{Access, out8, out16, Bus, inb, inw, send}

abbrev pub ata_primary_base : ℕ
ata_primary_base = 0x1F0

abbrev pub ata_primary_alt : ℕ
ata_primary_alt = 0x3F6

abbrev pub ata_secondary_base : ℕ
ata_secondary_base = 0x170

abbrev pub ata_secondary_alt : ℕ
ata_secondary_alt = 0x376

abbrev pub ata_max_drives : ℕ
ata_max_drives = 4

-- `ata_drive_t`; the model name is its 41 bytes
pub record Drive : Type 0 where
  pub present : Bool
  pub base : ℕ
  pub alt : ℕ
  pub slave : ℕ
  pub sectors : ℕ
  pub model : Array ℕ

-- the registers, as offsets from the base
abbrev pub reg_seccount : ℕ
reg_seccount = 2

abbrev pub reg_lba_lo : ℕ
reg_lba_lo = 3

abbrev pub reg_lba_mid : ℕ
reg_lba_mid = 4

abbrev pub reg_lba_hi : ℕ
reg_lba_hi = 5

abbrev pub reg_drive : ℕ
reg_drive = 6

abbrev pub reg_cmd : ℕ
reg_cmd = 7

pub delay400 : Bus → Bus
delay400 b = record b { reads = b.reads + 4 }

abbrev pub poll_limit : ℕ
poll_limit = 100000

abbrev pub flag : ℕ → ℕ → Bool
flag s mask = bit_and s mask != 0

-- `wait_busy` by the rounds left: until BSY falls, and then the answer is whether ERR is clear.
pub busy_loop : ℕ → Bus → Bool × Bus
busy_loop zero b = (false, b)
busy_loop (suc n) b =
    let (s, b') = inb b in
    let rest = busy_loop n b' in if not (flag s 0x80) then (not (flag s 0x01), b') else rest

pub drq_loop : ℕ → Bus → Bool × Bus
drq_loop zero b = (false, b)
drq_loop (suc n) b =
    let (s, b') = inb b in
    let rest = drq_loop n b' in
    if flag s 0x01 then (false, b') else if flag s 0x08 then (true, b') else rest

pub wait_busy : Bus → Bool × Bus
wait_busy b = busy_loop poll_limit b

pub wait_drq : Bus → Bool × Bus
wait_drq b = drq_loop poll_limit b

-- the six writes that start a transfer, the last one first
pub command : Drive → (lba count cmd : ℕ) → Bus → Bus
command d lba count cmd b = record b {
  outs =
      out8 (d.base + reg_cmd) cmd
      ∷ out8 (d.base + reg_lba_hi) (lba / 2 ^ 16 % 256)
      ∷ out8 (d.base + reg_lba_mid) (lba / 2 ^ 8 % 256)
      ∷ out8 (d.base + reg_lba_lo) (lba % 256)
      ∷ out8 (d.base + reg_seccount) count
      ∷ out8 (d.base + reg_drive) (0xE0 + d.slave * 16 + lba / 2 ^ 24 % 16)
      ∷ b.outs;
}

-- `n` words from the data register into the buffer from index `i` on
pub read_words : ℕ → ℕ → Array ℕ → Bus → Array ℕ × Bus
read_words zero i buf b = (buf, b)
read_words (suc n) i buf b = let (w, b') = inw b in read_words n (i + 1) (update buf i w) b'

-- the sectors from `s` on, `n` of them
pub read_sectors : ℕ → ℕ → Array ℕ → Bus → Bool × Array ℕ × Bus
read_sectors zero s buf b = (true, buf, b)
read_sectors (suc n) s buf b =
    let (ready, b1) = wait_drq b in
    elim ready [
      | true ↦ let (buf', b2) = read_words 256 (s * 256) buf b1 in read_sectors n (s + 1) buf' b2
      | false ↦ (false, buf, b1)
    ]

abbrev pub no_drive : Drive
no_drive = record { present = false; base = 0; alt = 0; slave = 0; sectors = 0; model = λ _. 0 }

pub read : Array Drive → (drv lba count : ℕ) → Array ℕ → Bus → Bool × Array ℕ × Bus
unfolding command
read drives drv lba count buf b =
    if leb ata_max_drives drv || not (drives drv).present
    then (false, buf, b)
    else (let (free, b1) = wait_busy b in
        if free
        then read_sectors count 0 buf (command (drives drv) lba count 0x20 b1)
        else (false, buf, b1))

-- `n` words of the buffer from index `i` on into the data register
pub write_words : (base : ℕ) → ℕ → ℕ → Array ℕ → Bus → Bus
write_words base zero i buf b = b
write_words base (suc n) i buf b = write_words base n (i + 1) buf (send (out16 base (buf i)) b)

pub write_sectors : (base : ℕ) → ℕ → ℕ → Array ℕ → Bus → Bool × Bus
write_sectors base zero s buf b = (true, b)
write_sectors base (suc n) s buf b =
    let (ready, b1) = wait_drq b in
    let (done, b2) =
      wait_busy (send (out8 (base + reg_cmd) 0xE7) (write_words base 256 (s * 256) buf b1)) in
    elim ready [
      | true ↦ elim done [ true ↦ write_sectors base n (s + 1) buf b2 | false ↦ (false, b2) ]
      | false ↦ (false, b1)
    ]

pub write : Array Drive → (drv lba count : ℕ) → Array ℕ → Bus → Bool × Bus
unfolding command
write drives drv lba count buf b =
    if leb ata_max_drives drv || not (drives drv).present
    then (false, b)
    else (let (free, b1) = wait_busy b in
        if free
        then write_sectors (drives drv).base count 0 buf (command (drives drv) lba count 0x30 b1)
        else (false, b1))

-- The model name: two characters from each of the words 27 to 46, then a NUL.
pub model_bytes : ℕ → ℕ → Array ℕ → Array ℕ → Array ℕ
model_bytes zero i id m = update m 40 0
model_bytes (suc n) i id m =
    model_bytes n (i + 1) id
      (update (update m (i * 2) (id (27 + i) / 256)) (i * 2 + 1) (id (27 + i) % 256))

-- `while (end > d->model && *end == ' ') *end-- = 0;`, where `end` is `model + n`
pub trim : ℕ → Array ℕ → Array ℕ
trim zero m = m
trim (suc n) m = let rest = trim n (update m (suc n) 0) in if m (suc n) == b' ' then rest else m

-- the writes of `probe`, up to the IDENTIFY command
pub identify : (base slave : ℕ) → Bus → Bus
unfolding delay400
identify base slave b =
    let b1 = delay400 (send (out8 (base + reg_drive) (if slave == 0 then 0xA0 else 0xB0)) b) in
    delay400 (record b1 {
      outs =
          out8 (base + reg_cmd) 0xEC
          ∷ out8 (base + reg_lba_hi) 0
          ∷ out8 (base + reg_lba_mid) 0
          ∷ out8 (base + reg_lba_lo) 0
          ∷ out8 (base + reg_seccount) 0
          ∷ b1.outs;
    })

-- the drive that the identification words describe
pub describe : (base alt slave : ℕ) → Array ℕ → Array ℕ → Drive
unfolding model_bytes trim
describe base alt slave id old = record {
  present = true;
  base = base;
  alt = alt;
  slave = slave;
  sectors = id 60 + id 61 * 2 ^ 16;
  model = trim 39 (model_bytes 20 0 id old);
}

pub probe : (base alt slave idx : ℕ) → Array Drive → Bus → Array Drive × Bus
unfolding identify describe
probe base alt slave idx drives b =
    let (status, b1) = inb (identify base slave b) in
    let (free, b2) = wait_busy b1 in
    let (mid, b3) = inb b2 in
    let (hi, b4) = inb b3 in
    let (ready, b5) = wait_drq b4 in
    let (id, b6) = read_words 256 0 (λ _. 0) b5 in
    if status == 0
    then (drives, b1)
    else if not free
    then (drives, b2)
    else if (mid != 0) || (hi != 0)
    then (drives, b4)
    else if not ready
    then (drives, b5)
    else (update drives idx (describe base alt slave id (drives idx).model), b6)

-- The number of drives that `ata_init` adds to `ndrives`; the lines printed are left out.
pub count_drives : ℕ → ℕ → Array Drive → ℕ
count_drives zero i drives = 0
count_drives (suc n) i drives =
    (if (drives i).present then 1 else 0) + count_drives n (i + 1) drives

pub init : Array Drive → Bus → Array Drive × ℕ × Bus
unfolding probe count_drives
init drives b =
    let (d0, b0) = probe ata_primary_base ata_primary_alt 0 0 drives b in
    let (d1, b1) = probe ata_primary_base ata_primary_alt 1 1 d0 b0 in
    let (d2, b2) = probe ata_secondary_base ata_secondary_alt 0 2 d1 b1 in
    let (d3, b3) = probe ata_secondary_base ata_secondary_alt 1 3 d2 b2 in
    (d3, count_drives ata_max_drives 0 d3, b3)
