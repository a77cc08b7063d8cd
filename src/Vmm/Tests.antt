-- ===== src/Vmm/Tests.antt =====
-- Mapping pages with kernel/mm/vmm.c, where pages 5 and 6 are free.
use aerogel.Common.{arith}
use aerogel.Pmm.Tests.{holed, holed-IsValid}
use aerogel.Vmm.{Vmm, init, vmm_map}
use aerogel.Vmm.Tables.{IsPaged}
use aerogel.Vmm.Map.{MapCases, vmm_map-MapCases}
use aerogel.Vmm.Init.{init-IsPaged}

abbrev boot : Vmm
boot = record { page_dir = λ _. 0; tables = λ _ _. 0; pmm = holed }

abbrev paged : Vmm
paged = init boot

paged-IsPaged : IsPaged paged
paged-IsPaged = init-IsPaged boot holed-IsValid

vmm_map-MapCases_example : MapCases 0xC0001234 0x200000 paged (vmm_map 0xC0001234 0x200000 2 paged)
vmm_map-MapCases_example = vmm_map-MapCases paged paged-IsPaged 0xC0001234 0x200000 2 (omega arith)
