-- ===== src/Pci.antt =====
-- The PCI bus scan, drivers/bus/pci.c. The configuration space is not part of the program: `config` is
-- the word that the hardware answers at an address written to port 0xCF8.
pub mod Scan
mod Tests
use aerogel.Common.{
  ℕ, zero, suc, ◌+◌, ◌-◌, ◌*◌, ◌/◌, ◌%◌, ◌^◌, Bool, ◌&&◌, ◌||◌, ◌==◌, ◌!=◌, ltb, leb, if◌then◌else◌,
  List, [], ◌∷◌, ◌++◌, Option, none, some, length, get_elem?, bit_and, bit_or,
}
use aerogel.Common.Array.{Array}
use aerogel.Io.{Access, out32}

abbrev pub pci_max_devices : ℕ
pci_max_devices = 64

abbrev pub pci_vendor_none : ℕ
pci_vendor_none = 0xFFFF

-- `pci_dev_t`
pub record Device : Type 0 where
  pub bus : ℕ
  pub dev : ℕ
  pub fn : ℕ
  pub vendor_id : ℕ
  pub device_id : ℕ
  pub class_code : ℕ
  pub subclass : ℕ
  pub prog_if : ℕ
  pub revision : ℕ
  pub bar : List ℕ
  pub irq_line : ℕ

-- The word written to the address port: the fields share no bit, so their `|` is their sum.
pub address : (bus dev fn offset : ℕ) → ℕ
address bus dev fn offset =
    0x80000000 + bus * 2 ^ 16 + dev * 2 ^ 11 + fn * 2 ^ 8 + (offset - offset % 4)

-- the port writes of `pci_write`, the last one first, before `outs`
pub write : (bus dev fn offset val : ℕ) → List Access → List Access
unfolding address
write bus dev fn offset val outs = out32 0xCFC val ∷ out32 0xCF8 (address bus dev fn offset) ∷ outs

module _ (config : Array ℕ) where
  pub read : (bus dev fn offset : ℕ) → ℕ
  unfolding address
  read bus dev fn offset = config (address bus dev fn offset) % 2 ^ 32

  -- the entry that `probe` fills
  pub describe : (bus dev fn : ℕ) → Device
  unfolding read
  describe bus dev fn =
      let id = read bus dev fn 0x00 in
      let cc = read bus dev fn 0x08 in
      record {
        bus = bus;
        dev = dev;
        fn = fn;
        vendor_id = id % 2 ^ 16;
        device_id = id / 2 ^ 16;
        class_code = cc / 2 ^ 24 % 256;
        subclass = cc / 2 ^ 16 % 256;
        prog_if = cc / 2 ^ 8 % 256;
        revision = cc % 256;
        bar =
            read bus dev fn 0x10
            ∷ read bus dev fn 0x14
            ∷ read bus dev fn 0x18
            ∷ read bus dev fn 0x1C
            ∷ read bus dev fn 0x20
            ∷ read bus dev fn 0x24
            ∷ [];
        irq_line = read bus dev fn 0x3C % 256;
      }

  abbrev pub absent : (bus dev fn : ℕ) → Bool
  absent bus dev fn = read bus dev fn 0x00 % 2 ^ 16 == pci_vendor_none

  -- The list is the array `devices` up to `ndevices`.
  pub probe : (bus dev fn : ℕ) → List Device → List Device
  unfolding describe
  probe bus dev fn devices =
      if absent bus dev fn || leb pci_max_devices (length devices)
      then devices
      else devices ++ describe bus dev fn ∷ []

  -- the functions from `fn` on, `n` of them
  pub scan_functions : ℕ → (bus dev fn : ℕ) → List Device → List Device
  unfolding probe
  scan_functions zero bus dev fn devices = devices
  scan_functions (suc n) bus dev fn devices =
      scan_functions n bus dev (fn + 1)
        (if absent bus dev fn then devices else probe bus dev fn devices)

  -- one round of the loop over the slots
  pub scan_slot : (bus dev : ℕ) → List Device → List Device
  unfolding scan_functions
  scan_slot bus dev devices =
      let first = probe bus dev 0 devices in
      if absent bus dev 0
      then devices
      else if bit_and (read bus dev 0 0x0C / 2 ^ 16 % 256) 0x80 != 0
      then scan_functions 7 bus dev 1 first
      else first

  pub scan_slots : ℕ → (bus dev : ℕ) → List Device → List Device
  unfolding scan_slot
  scan_slots zero bus dev devices = devices
  scan_slots (suc n) bus dev devices = scan_slots n bus (dev + 1) (scan_slot bus dev devices)

  pub scan_buses : ℕ → (bus : ℕ) → List Device → List Device
  unfolding scan_slots
  scan_buses zero bus devices = devices
  scan_buses (suc n) bus devices = scan_buses n (bus + 1) (scan_slots 32 bus 0 devices)

  pub init : List Device
  init = scan_buses 256 0 []

pub get : ℕ → List Device → Option Device
get i devices = get_elem? devices i

abbrev pub matches : (cls sub pif : ℕ) → Device → Bool
matches cls sub pif d =
    (d.class_code == cls) && (d.subclass == sub) && ((pif == 0xFF) || (d.prog_if == pif))

pub find_class : (cls sub pif : ℕ) → List Device → Option Device
find_class cls sub pif [] = none
find_class cls sub pif (d ∷ devices) =
    if matches cls sub pif d then some d else find_class cls sub pif devices
