-- ===== src/Efi.antt =====
-- The loader for UEFI, arch/x86_64/boot/efi_main.c: the page tables that it builds, and the memory map that it
-- hands to the kernel. The firmware's services are not modelled; the memory map that they return is a list of
-- descriptors. A table is kept at its address, as in `Vmm64`.
pub mod Tables
pub mod Identity
pub mod MemoryMap
mod Tests
use aerogel.Common.{
  ℕ, zero, suc, ◌+◌, ◌*◌, ◌%◌, ◌^◌, Bool, ◌||◌, ◌==◌, if◌then◌else◌, List, [], ◌∷◌, bit_or,
}
use aerogel.Common.Array.{Array, update}
use aerogel.Pmm.{E820Entry, page_size}

-- PT_PRESENT, PT_WRITABLE and PT_HUGE
abbrev pub pt_present : ℕ
pt_present = 1

abbrev pub pt_writable : ℕ
pt_writable = 2

abbrev pub pt_huge : ℕ
pt_huge = 128

-- `(UINT64)t | PT_PRESENT | PT_WRITABLE`
abbrev pub table_entry : ℕ → ℕ
table_entry t = bit_or (bit_or t pt_present) pt_writable

abbrev pub huge_entry : (g i : ℕ) → ℕ
huge_entry g i = bit_or (bit_or (bit_or ((g * 512 + i) * 0x200000) pt_present) pt_writable) pt_huge

-- `&pd[g]`
abbrev pub pd_of : (pd g : ℕ) → ℕ
pd_of pd g = pd + g * 4096

-- `for (i = 0; i < 512; i++)`, by the rounds left
pub fill_pd : (n g i : ℕ) → Array ℕ → Array ℕ
fill_pd zero g i t = t
fill_pd (suc n) g i t = fill_pd n g (i + 1) (update t i (huge_entry g i))

-- one round of `for (g = 0; g < 4; g++)`
pub fill_gib : (pdpt pd g : ℕ) → Array (Array ℕ) → Array (Array ℕ)
fill_gib pdpt pd g m =
    let m1 = update m pdpt (update (m pdpt) g (table_entry (pd_of pd g))) in
    update m1 (pd_of pd g) (fill_pd 512 g 0 (m1 (pd_of pd g)))

pub fill_loop : (n pdpt pd g : ℕ) → Array (Array ℕ) → Array (Array ℕ)
unfolding fill_gib
fill_loop zero pdpt pd g m = m
fill_loop (suc n) pdpt pd g m = fill_loop n pdpt pd (g + 1) (fill_gib pdpt pd g m)

pub clear_loop : (n pd g : ℕ) → Array (Array ℕ) → Array (Array ℕ)
clear_loop zero pd g m = m
clear_loop (suc n) pd g m = clear_loop n pd (g + 1) (update m (pd_of pd g) (λ _. 0))

-- `pml4`, `pdpt` and `pd` are the addresses of the static arrays.
pub build_page_tables : (pml4 pdpt pd : ℕ) → Array (Array ℕ) → Array (Array ℕ)
unfolding fill_loop clear_loop
build_page_tables pml4 pdpt pd m =
    let m1 = clear_loop 4 pd 0 (update (update m pml4 (λ _. 0)) pdpt (λ _. 0)) in
    fill_loop 4 pdpt pd 0 (update m1 pml4 (update (m1 pml4) 0 (table_entry pdpt)))

-- `EFI_MEMORY_DESCRIPTOR`, the fields that are read, and the values of `EFI_MEMORY_TYPE` that are tested
pub record Descriptor : Type 0 where
  pub kind : ℕ
  pub physical_start : ℕ
  pub number_of_pages : ℕ

abbrev pub loader_code : ℕ
loader_code = 1

abbrev pub loader_data : ℕ
loader_data = 2

abbrev pub conventional_memory : ℕ
conventional_memory = 7

abbrev pub is_usable : Descriptor → Bool
is_usable d = (d.kind == conventional_memory) || (d.kind == loader_code) || (d.kind == loader_data)

pub e820_entry : Descriptor → E820Entry
e820_entry d = record {
  base = d.physical_start;
  size = d.number_of_pages * page_size % 2 ^ 64;
  kind = if is_usable d then 1 else 2;
}

-- The loop of `build_e820` with room for `n` entries.
pub e820_loop : (n : ℕ) → List Descriptor → List E820Entry
unfolding e820_entry
e820_loop zero map = []
e820_loop (suc n) [] = []
e820_loop (suc n) (d ∷ map) = e820_entry d ∷ e820_loop n map

-- the entries at E820_ADDR; their count is the length
pub build_e820 : List Descriptor → List E820Entry
unfolding e820_loop
build_e820 map = e820_loop 128 map
