-- ===== src/Pci/Scan.antt =====
-- What the scan of drivers/bus/pci.c collects.
use aerogel.Common.{
  ℕ, zero, suc, ◌+◌, ◌/◌, ◌≤◌, ◌<◌, ◌≡◌, refl, ap, Bool, true, false, leb, if◌then◌else◌, arith,
  Bool-cases, inl, inr, List, [], ◌∷◌, ◌++◌, Option, none, some, length, length-append, All,
}
use aerogel.Common.Array.{Array}
use aerogel.Pci.{
  Device, pci_max_devices, address, describe, absent, probe, scan_functions, scan_slot, scan_slots,
  scan_buses, init, matches, find_class,
}

-- Different functions and registers have different addresses.
pub address_injective :
    (b d f o b' d' f' o' : ℕ)
    → d < 32
    → d' < 32
    → f < 8
    → f' < 8
    → o < 256
    → o' < 256
    → address b d f o ≡ address b' d' f' o'
    → (b ≡ b') × (d ≡ d') × (f ≡ f') × (o / 4 ≡ o' / 4)
unfolding address
address_injective b d f o b' d' f' o' hd hd' hf hf' ho ho' e = omega arith

module _ (config : Array ℕ) where
  -- An entry describes a function that is there, as its registers do.
  pub record IsFound (e : Device) : Type 0 where
    pub entry : e ≡ describe config e.bus e.dev e.fn
    pub present : absent config e.bus e.dev e.fn ≡ false

  -- The array of devices is not overrun, and each entry is right.
  pub record IsValid (devices : List Device) : Type 0 where
    pub bounded : length devices ≤ pci_max_devices
    pub found : All IsFound devices

  All-append :
      (ds : List Device) (d : Device) → All IsFound ds → IsFound d → All IsFound (ds ++ d ∷ [])
  All-append [] d h p = (p, tt)
  All-append (x ∷ ds) d h p = (h.0, All-append ds d h.1 p)

  describe-IsFound : (b d f : ℕ) → absent config b d f ≡ false → IsFound (describe config b d f)
  unfolding describe
  describe-IsFound b d f h = record { entry = refl; present = h }

  probe-IsValid : (b d f : ℕ) {ds : List Device} → IsValid ds → IsValid (probe config b d f ds)
  unfolding probe
  probe-IsValid b d f {ds} v = elim (Bool-cases (absent config b d f)) [
    | inl gone ↦ rw gone v
    | inr there ↦ rw there (elim (Bool-cases (leb pci_max_devices (length ds))) [
      | inl full ↦ rw full v
      | inr room ↦ rw room (record {
        bounded = ground (arith, length-append ds (describe config b d f ∷ []));
        found = All-append ds _ v.found (describe-IsFound b d f there);
      })
    ])
  ]

  scan_functions-IsValid :
      (n b d f : ℕ) {ds : List Device} → IsValid ds → IsValid (scan_functions config n b d f ds)
  unfolding scan_functions
  scan_functions-IsValid zero b d f v = v
  scan_functions-IsValid (suc n) b d f {ds} v =
      scan_functions-IsValid n b d (f + 1) (choose (absent config b d f))
    where
      choose : (c : Bool) → IsValid (if c then ds else probe config b d f ds)
      choose true = v
      choose false = probe-IsValid b d f v

  scan_slot-IsValid : (b d : ℕ) {ds : List Device} → IsValid ds → IsValid (scan_slot config b d ds)
  unfolding scan_slot
  scan_slot-IsValid b d {ds} v = choose (absent config b d 0) _
    where
      choose :
          (c e : Bool)
          → IsValid (
              if c
              then ds
              else if e
              then scan_functions config 7 b d 1 (probe config b d 0 ds)
              else probe config b d 0 ds)
      choose true e = v
      choose false true = scan_functions-IsValid 7 b d 1 (probe-IsValid b d 0 v)
      choose false false = probe-IsValid b d 0 v

  scan_slots-IsValid :
      (n b d : ℕ) {ds : List Device} → IsValid ds → IsValid (scan_slots config n b d ds)
  unfolding scan_slots
  scan_slots-IsValid zero b d v = v
  scan_slots-IsValid (suc n) b d v = scan_slots-IsValid n b (d + 1) (scan_slot-IsValid b d v)

  scan_buses-IsValid :
      (n b : ℕ) {ds : List Device} → IsValid ds → IsValid (scan_buses config n b ds)
  unfolding scan_buses
  scan_buses-IsValid zero b v = v
  scan_buses-IsValid (suc n) b v = scan_buses-IsValid n (b + 1) (scan_slots-IsValid 32 b 0 v)

  -- Whatever the hardware answers, `pci_init` keeps within the 64 entries of its array, and each entry
  -- describes, by the registers of its own address, a function that is there.
  pub init-IsValid : IsValid (init config)
  unfolding init
  init-IsValid = scan_buses-IsValid 256 0 (record { bounded = omega arith; found = tt })

-- What `pci_find_class` returns: the first entry that matches, or nothing when none does.
abbrev pub Found : (cls sub pif : ℕ) → List Device → Option Device → Type 0
Found cls sub pif ds none = All (λ d. matches cls sub pif d ≡ false) ds
Found cls sub pif ds (some d) =
    (before : List Device) × (after : List Device) × (ds ≡ before ++ d ∷ after)
    × (matches cls sub pif d ≡ true)
    × All (λ e. matches cls sub pif e ≡ false) before

pub find_class_lem :
    (cls sub pif : ℕ) (ds : List Device) → Found cls sub pif ds (find_class cls sub pif ds)
unfolding find_class
find_class_lem cls sub pif [] = tt
find_class_lem cls sub pif (d ∷ ds) = elim (Bool-cases (matches cls sub pif d)) [
  | inl yes_d ↦ rw yes_d ([], ds, refl, yes_d, tt)
  | inr no_d ↦ rw no_d (later (find_class cls sub pif ds) no_d (find_class_lem cls sub pif ds))
]
  where
    later :
        (r : Option Device)
        → matches cls sub pif d ≡ false
        → Found cls sub pif ds r
        → Found cls sub pif (d ∷ ds) r
    later none h f = (h, f)
    later (some e) h (before, after, eq, m, none_before) =
        (d ∷ before, after, ap (λ l. d ∷ l) eq, m, (h, none_before))
