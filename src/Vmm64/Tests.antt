-- ===== src/Vmm64/Tests.antt =====
-- An empty first table on page 2, where pages 5 to 7 are free.
use aerogel.Common.{refl, arith, ◌==◌, if◌then◌else◌, Bool-cases, inl, inr, ==_iff}
use aerogel.Pmm.Tests.{holed, holed-IsValid, page_two-used}
use aerogel.Vmm64.{Vmm, vmm_map}
use aerogel.Vmm64.Walk.{IsTree}
use aerogel.Vmm64.Map.{Maps, vmm_map_lem}

abbrev only_root : Vmm
only_root = record { pml4 = 0x2000; tables = λ _ _. 0; pmm = holed }

only_root-IsTree : IsTree only_root
only_root-IsTree = record {
  level = λ t. if t == 0x2000 then 4 else 0;
  prefix = λ t. 0;
  valid = holed-IsValid;
  root = (refl, refl);
  child = λ t i deep lt there small. absurd (ground (arith, there));
  in_use = λ t h. elim (Bool-cases (t == 0x2000)) [
    | inl e ↦ rw ((==_iff t 0x2000).0 e) (refl, page_two-used)
    | inr ne ↦ absurd (h (rw ne refl))
  ];
}

vmm_map_lem_example :
    Maps 0x7654321000 0x200000 only_root (vmm_map 0x7654321000 0x200000 2 only_root)
vmm_map_lem_example =
    vmm_map_lem 0x7654321000 0x200000 2 (omega arith) (omega arith) only_root only_root-IsTree
