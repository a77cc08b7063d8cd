-- ===== src/Pci/Tests.antt =====
-- The PCI scan on a small machine.
use aerogel.Common.{ℕ, ◌≡◌, refl, List, [], ◌∷◌, if◌then◌else◌, ◌==◌}
use aerogel.Common.Array.{Array}
use aerogel.Pci.{Device, describe, scan_slot}

-- One network card, in slot 2 of bus 0.
abbrev machine : Array ℕ
machine a =
    if a == 0x80001000
    then 0x813910EC
    else if a == 0x80001008
    then 0x02000010
    else if a == 0x8000100C
    then 0
    else 0xFFFFFFFF

abbrev found : List Device
found = scan_slot machine 0 2 []

card : found ≡ describe machine 0 2 0 ∷ []
unfolding scan_slot
card = refl

abbrev slot : ℕ
slot = 2

abbrev fun : ℕ
fun = 1
