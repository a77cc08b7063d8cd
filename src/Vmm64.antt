-- ===== src/Vmm64.antt =====
-- Virtual memory on x86_64, arch/x86_64/mm/vmm.c: four levels of tables of 512 entries, the first at the
-- address `pml4`, the others on pages that `pmm_alloc` gives. A table is kept at its address.
-- `(virt >> 39) & 0x1FF` is `virt / 2 ^ 39 % 512`, and `e & ~0xFFF` is `frame e`. The write of the control
-- register and the flush of the processor's cache are left out.
pub mod Walk
pub mod Grow
pub mod Write
pub mod Map
pub mod Unmap
mod Tests
use aerogel.Common.{
  ℕ, zero, suc, ◌+◌, ◌-◌, ◌*◌, ◌/◌, ◌%◌, ◌^◌, Bool, true, false, not, ◌||◌, ◌==◌, if◌then◌else◌,
  Option, none, some, bit_or,
}
use aerogel.Common.Array.{Array, update}
use aerogel.Common.Bytes.{bit}
use aerogel.Pmm.{Pmm}
use aerogel.Pmm

abbrev pub pte_present : ℕ
pte_present = 0x01

abbrev pub pte_writable : ℕ
pte_writable = 0x02

abbrev pub pte_huge : ℕ
pte_huge = 0x80

-- `e & PTE_PRESENT` and `e & PTE_HUGE`
abbrev pub is_present : ℕ → Bool
is_present e = bit e 0 == 1

abbrev pub is_huge : ℕ → Bool
is_huge e = bit e 7 == 1

-- `e & ~0xFFFULL` and `e & ~0x1FFFFFULL` of a 64-bit number
abbrev pub frame : ℕ → ℕ
frame e = e / 4096 * 4096

abbrev pub huge_frame : ℕ → ℕ
huge_frame e = e / 0x200000 * 0x200000

abbrev pub pml4i : ℕ → ℕ
pml4i virt = virt / 2 ^ 39 % 512

abbrev pub pdpti : ℕ → ℕ
pdpti virt = virt / 2 ^ 30 % 512

abbrev pub pdi : ℕ → ℕ
pdi virt = virt / 2 ^ 21 % 512

abbrev pub pti : ℕ → ℕ
pti virt = virt / 2 ^ 12 % 512

pub record Vmm : Type 0 where
  pub pml4 : ℕ
  pub tables : Array (Array ℕ)
  pub pmm : Pmm

-- `table[idx] = e`
pub set_entry : (table idx e : ℕ) → Vmm → Vmm
set_entry table idx e s = record s {
  tables = update s.tables table (update (s.tables table) idx e);
}

-- `(pte_t)p | PTE_PRESENT | PTE_WRITABLE`
abbrev pub table_entry : ℕ → ℕ
table_entry p = bit_or (bit_or p pte_present) pte_writable

-- a table at `p`, all 0, for the entry `idx`
pub add_table : (table idx p : ℕ) → Vmm → Vmm
unfolding set_entry
add_table table idx p s =
    set_entry table idx (table_entry p) (record s { tables = update s.tables p (λ _. 0) })

-- `none` is NULL.
pub get_or_create : (table idx : ℕ) → Vmm → Option ℕ × Vmm
unfolding add_table
get_or_create table idx s =
    let e = s.tables table idx in
    let r = Pmm.alloc (2 ^ 64) s.pmm in
    if is_present e
    then (some (frame e), s)
    else if r.0 == 0
    then (none, record s { pmm = r.1 })
    else (some (frame (table_entry r.0)), add_table table idx r.0 (record s { pmm = r.1 }))

-- the entry that `vmm_init` writes for the 2 MiB page `k` of the directory `j` of the table `i`
abbrev pub identity_entry : (i j k : ℕ) → ℕ
identity_entry i j k =
    bit_or
      (bit_or (bit_or (i * 512 * 512 * 0x200000 + j * 512 * 0x200000 + k * 0x200000) pte_present)
        pte_writable)
      pte_huge

-- `for (k = 0; k < 512; k++)`, by the rounds left
pub fill_loop : (n i j k : ℕ) → Array ℕ → Array ℕ
fill_loop zero i j k pd = pd
fill_loop (suc n) i j k pd = fill_loop n i j (k + 1) (update pd k (identity_entry i j k))

-- one round of the loop over `j`: the page is not tested
pub make_pd : (i j pdpt : ℕ) → Vmm → Vmm
unfolding add_table fill_loop
make_pd i j pdpt s =
    let r = Pmm.alloc (2 ^ 64) s.pmm in
    let t = add_table pdpt j r.0 (record s { pmm = r.1 }) in
    record t { tables = update t.tables r.0 (fill_loop 512 i j 0 (t.tables r.0)) }

pub pd_loop : (n i j pdpt : ℕ) → Vmm → Vmm
unfolding make_pd
pd_loop zero i j pdpt s = s
pd_loop (suc n) i j pdpt s = pd_loop n i (j + 1) pdpt (make_pd i j pdpt s)

pub pdpt_loop : (n i : ℕ) → Vmm → Vmm
unfolding add_table pd_loop
pdpt_loop zero i s = s
pdpt_loop (suc n) i s =
    let r = Pmm.alloc (2 ^ 64) s.pmm in
    pdpt_loop n (i + 1) (pd_loop 512 i 0 r.0 (add_table s.pml4 i r.0 (record s { pmm = r.1 })))

pub init : Vmm → Vmm
unfolding pdpt_loop
init s = pdpt_loop 4 0 (record s { tables = update s.tables s.pml4 (λ _. 0) })

-- `null_table` is the state in which the code first uses NULL as a table, where a page was not to be had; what it
-- does from there on is undefined in C.
pub data Mapped : Type 0 where
  done : Vmm → Mapped
  null_table : Vmm → Mapped

abbrev pub entry : (phys flags : ℕ) → ℕ
entry phys flags = bit_or (bit_or (frame phys) flags) pte_present

-- `vmm_map` from the page table on
pub map_page : (virt phys flags : ℕ) → Option ℕ × Vmm → Mapped
unfolding set_entry
map_page virt phys flags (none, s) = null_table s
map_page virt phys flags (some pt, s) = done (set_entry pt (pti virt) (entry phys flags) s)

-- `vmm_map` from the page directory on
pub map_pd : (virt phys flags : ℕ) → Option ℕ × Vmm → Mapped
unfolding map_page get_or_create
map_pd virt phys flags (none, s) = null_table s
map_pd virt phys flags (some pd, s) =
    if is_huge (s.tables pd (pdi virt))
    then done s
    else map_page virt phys flags (get_or_create pd (pdi virt) s)

-- `vmm_map` from the page directory pointer table on
pub map_pdpt : (virt phys flags : ℕ) → Option ℕ × Vmm → Mapped
unfolding map_pd get_or_create
map_pdpt virt phys flags (none, s) = null_table s
map_pdpt virt phys flags (some pdpt, s) = map_pd virt phys flags (get_or_create pdpt (pdpti virt) s)

pub vmm_map : (virt phys flags : ℕ) → Vmm → Mapped
unfolding map_pdpt get_or_create
vmm_map virt phys flags s = map_pdpt virt phys flags (get_or_create s.pml4 (pml4i virt) s)

pub vmm_unmap : ℕ → Vmm → Vmm
unfolding set_entry
vmm_unmap virt s =
    let e4 = s.tables s.pml4 (pml4i virt) in
    let e3 = s.tables (frame e4) (pdpti virt) in
    let e2 = s.tables (frame e3) (pdi virt) in
    if not (is_present e4)
    then s
    else if not (is_present e3)
    then s
    else if not (is_present e2) || is_huge e2
    then s
    else set_entry (frame e2) (pti virt) 0 s

pub vmm_phys : ℕ → Vmm → ℕ
vmm_phys virt s =
    let e4 = s.tables s.pml4 (pml4i virt) in
    let e3 = s.tables (frame e4) (pdpti virt) in
    let e2 = s.tables (frame e3) (pdi virt) in
    let e1 = s.tables (frame e2) (pti virt) in
    if not (is_present e4)
    then 0
    else if not (is_present e3)
    then 0
    else if not (is_present e2)
    then 0
    else if is_huge e2
    then bit_or (huge_frame e2) (virt % 0x200000)
    else if not (is_present e1)
    then 0
    else bit_or (frame e1) (virt % 4096)
