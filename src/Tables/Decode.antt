-- ===== src/Tables/Decode.antt =====
-- What the processor reads from the tables of arch/x86/cpu/idt.c and arch/x86_64/cpu/idt.c.
use aerogel.Common.{
  ℕ, zero, suc, ◌+◌, ◌*◌, ◌/◌, ◌%◌, ◌^◌, ◌<◌, ◌≤◌, ◌≡◌, refl, ap, ◌∙◌, arith, ◌&&◌, ◌==◌, ==_iff,
  ltb, leb, if◌then◌else◌, Bool-cases, inl, inr, subst, sym,
}
use aerogel.Common.Array.{Array, update}
use aerogel.Tables.{
  IdtEntry, idt_set_gate, idt_loop, idt_init, IdtEntry64, idt_set_gate64, idt_loop64, idt_init64,
}

-- the address of a gate, as the processor puts it together
abbrev pub offset : IdtEntry → ℕ
offset e = e.offset_low + e.offset_high * 2 ^ 16

abbrev pub offset64 : IdtEntry64 → ℕ
offset64 e = e.offset_low + e.offset_mid * 2 ^ 16 + e.offset_high * 2 ^ 32

-- The bit for a present gate, its privilege level and its kind; 14 is an interrupt gate.
abbrev pub gate_present : ℕ → ℕ
gate_present flags = flags / 2 ^ 7 % 2

abbrev pub gate_level : ℕ → ℕ
gate_level flags = flags / 2 ^ 5 % 4

abbrev pub gate_kind : ℕ → ℕ
gate_kind flags = flags % 32

-- A gate of the kernel that leads to `stub`.
pub record IsGate (e : IdtEntry) (stub : ℕ) : Type 0 where
  pub leads : offset e ≡ stub
  pub code_segment : e.selector ≡ 8
  pub present : gate_present e.flags ≡ 1
  pub kernel_only : gate_level e.flags ≡ 0
  pub interrupt : gate_kind e.flags ≡ 14

pub record IsGate64 (e : IdtEntry64) (stub : ℕ) : Type 0 where
  pub leads : offset64 e ≡ stub
  pub code_segment : e.selector ≡ 8
  pub own_stack : e.ist ≡ 0
  pub present : gate_present e.flags ≡ 1
  pub kernel_only : gate_level e.flags ≡ 0
  pub interrupt : gate_kind e.flags ≡ 14

abbrev gate : ℕ → IdtEntry
gate base = record {
  offset_low = base % 2 ^ 16;
  selector = 0x08;
  zero_byte = 0;
  flags = 0x8E;
  offset_high = base / 2 ^ 16 % 2 ^ 16;
}

abbrev gate64 : ℕ → IdtEntry64
gate64 base = record {
  offset_low = base % 2 ^ 16;
  selector = 0x08;
  ist = 0;
  flags = 0x8E;
  offset_mid = base / 2 ^ 16 % 2 ^ 16;
  offset_high = base / 2 ^ 32 % 2 ^ 32;
  zero_word = 0;
}

idt_loop_lem :
    (n i : ℕ) (stubs : Array ℕ) (idt : Array IdtEntry) (j : ℕ)
    → idt_loop n i stubs idt j ≡ (if leb i j && ltb j (i + n) then gate (stubs j) else idt j)
unfolding idt_loop idt_set_gate
idt_loop_lem zero i stubs idt j = ground arith
idt_loop_lem (suc n) i stubs idt j =
    idt_loop_lem n (i + 1) stubs (update idt i (gate (stubs i))) j ∙ elim (Bool-cases (i == j)) [
      | inl e ↦ ground (arith, e, ap (λ k. gate (stubs k)) ((==_iff i j).0 e))
      | inr e ↦ ground (arith, e)
    ]

idt_loop64_lem :
    (n i : ℕ) (stubs : Array ℕ) (idt : Array IdtEntry64) (j : ℕ)
    → idt_loop64 n i stubs idt j ≡ (if leb i j && ltb j (i + n) then gate64 (stubs j) else idt j)
unfolding idt_loop64 idt_set_gate64
idt_loop64_lem zero i stubs idt j = ground arith
idt_loop64_lem (suc n) i stubs idt j =
    idt_loop64_lem n (i + 1) stubs (update idt i (gate64 (stubs i))) j
    ∙ elim (Bool-cases (i == j)) [
      | inl e ↦ ground (arith, e, ap (λ k. gate64 (stubs k)) ((==_iff i j).0 e))
      | inr e ↦ ground (arith, e)
    ]

gate-IsGate : (base : ℕ) → base < 2 ^ 32 → IsGate (gate base) base
gate-IsGate base h = record {
  leads = omega (arith, h);
  code_segment = refl;
  present = refl;
  kernel_only = refl;
  interrupt = refl;
}

gate64-IsGate64 : (base : ℕ) → base < 2 ^ 64 → IsGate64 (gate64 base) base
gate64-IsGate64 base h = record {
  leads = omega (arith, h);
  code_segment = refl;
  own_stack = refl;
  present = refl;
  kernel_only = refl;
  interrupt = refl;
}

-- After `idt_init` of either machine each of the first 48 gates is a present interrupt gate of the kernel that leads
-- to its own stub, whose address fits the machine's word, and every other gate is as before.
pub idt_init_lem :
    (idt_at : ℕ) (stubs stubs64 : Array ℕ) (idt : Array IdtEntry) (idt64 : Array IdtEntry64)
    → ((i : ℕ) → stubs i < 2 ^ 32)
    → ((i : ℕ) → stubs64 i < 2 ^ 64)
    → ((i : ℕ) → i < 48 → IsGate ((idt_init idt_at stubs idt).0 i) (stubs i))
      × ((i : ℕ) → 48 ≤ i → (idt_init idt_at stubs idt).0 i ≡ idt i)
      × ((i : ℕ) → i < 48 → IsGate64 ((idt_init64 idt_at stubs64 idt64).0 i) (stubs64 i))
      × ((i : ℕ) → 48 ≤ i → (idt_init64 idt_at stubs64 idt64).0 i ≡ idt64 i)
unfolding idt_init idt_init64
idt_init_lem idt_at stubs stubs64 idt idt64 h h64 = (
  λ i lt.
      subst (λ e. IsGate e (stubs i)) (sym (idt_loop_lem 48 0 stubs idt i ∙ ground (arith, lt)))
        (gate-IsGate (stubs i) (h i)),
  λ i le. idt_loop_lem 48 0 stubs idt i ∙ ground (arith, le),
  λ i lt.
      subst (λ e. IsGate64 e (stubs64 i))
        (sym (idt_loop64_lem 48 0 stubs64 idt64 i ∙ ground (arith, lt)))
        (gate64-IsGate64 (stubs64 i) (h64 i)),
  λ i le. idt_loop64_lem 48 0 stubs64 idt64 i ∙ ground (arith, le),
)
