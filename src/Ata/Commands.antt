-- ===== src/Ata/Commands.antt =====
-- The command block of drivers/storage/ata.c.
use aerogel.Common.{
  ℕ, zero, suc, ◌+◌, ◌*◌, ◌%◌, ◌^◌, ◌≡◌, refl, ap, arith, List, ◌∷◌, Option, none, some, not,
  Bool-cases, inl, inr,
}
use aerogel.Io.{Access, out8, Bus, inb}
use aerogel.Ata.{Drive, flag, busy_loop, drq_loop, wait_busy, wait_drq, poll_limit, command}

-- The sector that the registers of a command name.
abbrev pub lba_of : List Access → Option ℕ
lba_of (out8 p5 c ∷ out8 p4 hi ∷ out8 p3 mid ∷ out8 p2 lo ∷ out8 p1 n ∷ out8 p0 drv ∷ rest) =
    some (lo + mid * 2 ^ 8 + hi * 2 ^ 16 + drv % 16 * 2 ^ 24)
lba_of outs = none

-- The registers hold the low 28 bits of the sector number: all of it exactly if it has no more.
pub command-lba :
    (d : Drive) (lba count cmd : ℕ) (b : Bus)
    → lba_of (command d lba count cmd b).outs ≡ some (lba % 2 ^ 28)
unfolding command
command-lba d lba count cmd b = ap some (omega arith)

-- Waiting writes to no port.
pub busy_loop-outs : (n : ℕ) (b : Bus) → (busy_loop n b).1.outs ≡ b.outs
unfolding busy_loop
busy_loop-outs zero b = refl
busy_loop-outs (suc n) b = elim (Bool-cases (not (flag (inb b).0 0x80))) [
  | inl e ↦ rw e
  | inr e ↦ rw e (busy_loop-outs n (inb b).1)
]

pub drq_loop-outs : (n : ℕ) (b : Bus) → (drq_loop n b).1.outs ≡ b.outs
unfolding drq_loop
drq_loop-outs zero b = refl
drq_loop-outs (suc n) b = elim (Bool-cases (flag (inb b).0 0x01)) [
  | inl e ↦ rw e
  | inr e ↦ rw e (elim (Bool-cases (flag (inb b).0 0x08)) [
    | inl e' ↦ rw e'
    | inr e' ↦ rw e' (drq_loop-outs n (inb b).1)
  ])
]

pub wait_busy-outs : (b : Bus) → (wait_busy b).1.outs ≡ b.outs
unfolding wait_busy
wait_busy-outs b = busy_loop-outs poll_limit b

pub wait_drq-outs : (b : Bus) → (wait_drq b).1.outs ≡ b.outs
unfolding wait_drq
wait_drq-outs b = drq_loop-outs poll_limit b
