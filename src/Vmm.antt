-- ===== src/Vmm.antt =====
-- Virtual memory, kernel/mm/vmm.c on x86: the page directory, a static array, and the page tables, which
-- `pmm_alloc` gives a page each. A table is kept at the address of its page. `pt & ~0xFFF` is written
-- `page_floor`, `virt >> 22` is `virt / 2 ^ 22`, and `x & 0xFFF` is `x % 4096`. The writes of the control
-- registers and the flush of the processor's cache are left out. `vmm_unmap` and `vmm_phys` are modelled for tables
-- whose pages are mapped to themselves.
pub mod Entries
mod Tables
mod Grow
pub mod Map
pub mod Init
mod Tests
use aerogel.Common.{
  ℕ, zero, suc, ◌+◌, ◌-◌, ◌*◌, ◌/◌, ◌%◌, ◌^◌, Bool, true, false, not, ◌||◌, ◌==◌, if◌then◌else◌,
  bit_or,
}
use aerogel.Common.Array.{Array, update}
use aerogel.Common.Bytes.{bit}
use aerogel.Pmm.{Pmm}
use aerogel.Pmm

-- the bits PDE_PRESENT, PDE_WRITABLE and PDE_PS
abbrev pub pde_present : ℕ
pde_present = 0x01

abbrev pub pde_writable : ℕ
pde_writable = 0x02

abbrev pub pde_ps : ℕ
pde_ps = 0x80

abbrev pub identity_mb : ℕ
identity_mb = 128

-- `e & PDE_PRESENT` and `e & PDE_PS`
abbrev pub is_present : ℕ → Bool
is_present e = bit e 0 == 1

abbrev pub is_large : ℕ → Bool
is_large e = bit e 7 == 1

-- `e & ~0xFFF` and `e & 0xFFC00000` of a 32-bit number
abbrev pub frame : ℕ → ℕ
frame e = e / 4096 * 4096

abbrev pub large_frame : ℕ → ℕ
large_frame e = e / 0x400000 * 0x400000

-- `virt >> 22` and `(virt >> 12) & 0x3FF`
abbrev pub pd_index : ℕ → ℕ
pd_index virt = virt / 2 ^ 22

abbrev pub pt_index : ℕ → ℕ
pt_index virt = virt / 2 ^ 12 % 1024

pub record Vmm : Type 0 where
  pub page_dir : Array ℕ
  pub tables : Array (Array ℕ)
  pub pmm : Pmm

-- What `vmm_map` ends in: the calls of `kpanic`, and `fault` for a write to a table whose page is not mapped to
-- itself, where the processor raises a page fault or writes elsewhere.
pub data Mapped : Type 0 where
  done : Vmm → Mapped
  fault : Mapped
  within_pse : Mapped
  out_of_memory : Mapped

-- the loop of `vmm_init`, over `n` entries from `i`
pub identity_loop : ℕ → ℕ → Array ℕ → Array ℕ
identity_loop zero i dir = dir
identity_loop (suc n) i dir = identity_loop n (i + 1) (
    update dir i (bit_or (i * 0x400000 % 2 ^ 32) (bit_or (bit_or pde_present pde_writable) pde_ps)))

pub init : Vmm → Vmm
unfolding identity_loop
init s = record s { page_dir = identity_loop (identity_mb / 4) 0 (λ _. 0) }

-- `pt[pti] = v`
pub set_entry : (pt pti v : ℕ) → Vmm → Vmm
set_entry pt pti v s = record s { tables = update s.tables pt (update (s.tables pt) pti v) }

abbrev pub entry : (phys flags : ℕ) → ℕ
entry phys flags = bit_or (bit_or (frame phys) (flags % 4096)) pde_present

-- a table at the page `pa` that `pmm_alloc` returned, all 0, for entry `pdi` of the directory
pub add_table : (pdi pa : ℕ) → Vmm → Vmm
add_table pdi pa s = record s {
  page_dir = update s.page_dir pdi (bit_or (bit_or pa pde_present) pde_writable);
  tables = update s.tables pa (λ _. 0);
}

pub vmm_phys : ℕ → Vmm → ℕ
vmm_phys virt s =
    let e = s.page_dir (pd_index virt) in
    let t = s.tables (frame e) (pt_index virt) in
    if not (is_present e)
    then 0
    else if is_large e
    then bit_or (large_frame e) (virt % 0x400000)
    else if not (is_present t)
    then 0
    else bit_or (frame t) (virt % 4096)

-- A table is written at the address of its page, which has to be mapped to itself.
pub reaches : (table : ℕ) → Vmm → Bool
reaches table s = vmm_phys table s == table

pub vmm_map : (virt phys flags : ℕ) → Vmm → Mapped
unfolding set_entry add_table
vmm_map virt phys flags s =
    let pdi = pd_index virt in
    let e = s.page_dir pdi in
    let r = Pmm.alloc (2 ^ 32) s.pmm in
    let linked : Mapped =
      if reaches (frame e) s
      then done (set_entry (frame e) (pt_index virt) (entry phys flags) s)
      else fault in
    let grown : Mapped =
      if reaches r.0 s
      then done (
          set_entry r.0 (pt_index virt) (entry phys flags)
            (add_table pdi r.0 (record s { pmm = r.1 })))
      else fault in
    if is_large e
    then within_pse
    else if is_present e
    then linked
    else if r.0 == 0
    then out_of_memory
    else grown

pub vmm_unmap : ℕ → Vmm → Vmm
unfolding set_entry
vmm_unmap virt s =
    let e = s.page_dir (pd_index virt) in
    if not (is_present e) || is_large e then s else set_entry (frame e) (pt_index virt) 0 s
