-- ===== src/Tables.antt =====
-- The descriptor tables, arch/x86/cpu/gdt.c and idt.c, and arch/x86_64/cpu/gdt.c and idt.c. The entry stubs are
-- assembly: `stubs` holds their addresses. An instruction that loads a table is left out, and its operand returned.
pub mod Decode
use aerogel.Common.{ℕ, zero, suc, ◌+◌, ◌*◌, ◌/◌, ◌%◌, ◌^◌}
use aerogel.Common.Array.{Array, update}

-- `gdt_entry_t`
pub record GdtEntry : Type 0 where
  pub limit_low : ℕ
  pub base_low : ℕ
  pub base_mid : ℕ
  pub access : ℕ
  pub granularity : ℕ
  pub base_high : ℕ

-- `idt_entry_t`
pub record IdtEntry : Type 0 where
  pub offset_low : ℕ
  pub selector : ℕ
  pub zero_byte : ℕ
  pub flags : ℕ
  pub offset_high : ℕ

-- The two halves of the granularity byte share no bit.
pub gdt_set : (i base limit access gran : ℕ) → Array GdtEntry → Array GdtEntry
gdt_set i base limit access gran gdt = update gdt i (record {
  limit_low = limit % 2 ^ 16;
  base_low = base % 2 ^ 16;
  base_mid = base / 2 ^ 16 % 256;
  access = access;
  granularity = limit / 2 ^ 16 % 16 + gran / 16 % 16 * 16;
  base_high = base / 2 ^ 24 % 256;
})

pub idt_set_gate : (num base sel flags : ℕ) → Array IdtEntry → Array IdtEntry
idt_set_gate num base sel flags idt = update idt num (record {
  offset_low = base % 2 ^ 16;
  selector = sel;
  zero_byte = 0;
  flags = flags;
  offset_high = base / 2 ^ 16 % 2 ^ 16;
})

-- The table, and the limit and the base that `lgdt` loads; `gdt_at` is the address of the table.
pub gdt_init : (gdt_at : ℕ) → Array GdtEntry → Array GdtEntry × ℕ × ℕ
unfolding gdt_set
gdt_init gdt_at gdt = (
  gdt_set 2 0 0xFFFFFFFF 0x92 0xCF (gdt_set 1 0 0xFFFFFFFF 0x9A 0xCF (gdt_set 0 0 0 0 0 gdt)),
  23,
  gdt_at % 2 ^ 32,
)

-- the loop of `idt_init`, by the rounds left
pub idt_loop : (n i : ℕ) (stubs : Array ℕ) → Array IdtEntry → Array IdtEntry
unfolding idt_set_gate
idt_loop zero i stubs idt = idt
idt_loop (suc n) i stubs idt = idt_loop n (i + 1) stubs (idt_set_gate i (stubs i) 0x08 0x8E idt)

-- The table, and the limit and the base that `lidt` loads; `idt_at` is the address of the table.
pub idt_init : (idt_at : ℕ) (stubs : Array ℕ) → Array IdtEntry → Array IdtEntry × ℕ × ℕ
unfolding idt_loop
idt_init idt_at stubs idt = (idt_loop 48 0 stubs idt, 2047, idt_at % 2 ^ 32)

-- `idt_entry_t` of x86_64
pub record IdtEntry64 : Type 0 where
  pub offset_low : ℕ
  pub selector : ℕ
  pub ist : ℕ
  pub flags : ℕ
  pub offset_mid : ℕ
  pub offset_high : ℕ
  pub zero_word : ℕ

pub idt_set_gate64 : (num base sel flags : ℕ) → Array IdtEntry64 → Array IdtEntry64
idt_set_gate64 num base sel flags idt = update idt num (record {
  offset_low = base % 2 ^ 16;
  selector = sel;
  ist = 0;
  flags = flags;
  offset_mid = base / 2 ^ 16 % 2 ^ 16;
  offset_high = base / 2 ^ 32 % 2 ^ 32;
  zero_word = 0;
})

pub idt_loop64 : (n i : ℕ) (stubs : Array ℕ) → Array IdtEntry64 → Array IdtEntry64
unfolding idt_set_gate64
idt_loop64 zero i stubs idt = idt
idt_loop64 (suc n) i stubs idt =
    idt_loop64 n (i + 1) stubs (idt_set_gate64 i (stubs i) 0x08 0x8E idt)

pub idt_init64 : (idt_at : ℕ) (stubs : Array ℕ) → Array IdtEntry64 → Array IdtEntry64 × ℕ × ℕ
unfolding idt_loop64
idt_init64 idt_at stubs idt = (idt_loop64 48 0 stubs idt, 4095, idt_at % 2 ^ 64)

-- `gdt_init` of x86_64, whose `gdt_set` sets the same fields
pub gdt_init64 : (gdt_at : ℕ) → Array GdtEntry → Array GdtEntry × ℕ × ℕ
unfolding gdt_set
gdt_init64 gdt_at gdt = (
  gdt_set 2 0 0xFFFFFFFF 0x92 0xCF (gdt_set 1 0 0xFFFFFFFF 0x9A 0xAF (gdt_set 0 0 0 0 0 gdt)),
  23,
  gdt_at % 2 ^ 64,
)
