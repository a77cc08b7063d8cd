-- ===== src/Vmm/Init.antt =====
-- What `vmm_init` of kernel/mm/vmm.c maps.
use aerogel.Common.{
  ℕ, zero, suc, ◌+◌, ◌*◌, ◌/◌, ◌%◌, ◌^◌, ◌<◌, ◌≤◌, ◌≡◌, ap, ◌∙◌, arith, true, ◌&&◌, ◌==◌, ltb, leb,
  if◌then◌else◌, bit_or, Bool-cases, inl, inr,
}
use aerogel.Common.Array.{Array, update}
use aerogel.Common.Bits.{bit_or-disjoint}
use aerogel.Pmm.Alloc.{IsValid}
use aerogel.Vmm.{
  Vmm, identity_loop, init, is_present, is_large, frame, pd_index, pt_index, vmm_phys, identity_mb,
}
use aerogel.Vmm.Entries.{look, vmm_phys-look, look_absent}
use aerogel.Vmm.Tables.{IsLinked, IsPaged}

abbrev large_entry : ℕ → ℕ
large_entry i = bit_or (i * 0x400000 % 2 ^ 32) 131

identity_loop_lem :
    (n i : ℕ) (dir : Array ℕ) (j : ℕ)
    → identity_loop n i dir j ≡ (if leb i j && ltb j (i + n) then large_entry j else dir j)
unfolding identity_loop
identity_loop_lem zero i dir j = ground arith
identity_loop_lem (suc n) i dir j =
    identity_loop_lem n (i + 1) (update dir i (large_entry i)) j ∙ elim (Bool-cases (i == j)) [
      | inl e ↦ let same : i ≡ j = ground (arith, e) in ground (arith, e, ap large_entry same)
      | inr e ↦ ground arith
    ]

large_entry_sum : (i : ℕ) → i < 32 → large_entry i ≡ i * 0x400000 + 131
large_entry_sum i h =
    ap (λ x. bit_or x 131) (omega (arith, h)) ∙ bit_or-disjoint 22 i 131 (omega arith)

look_large : (i t a : ℕ) → look (i * 0x400000 + 131) t a ≡ i * 0x400000 + a % 0x400000
look_large i t a =
    rw (present, big)
      (ap (λ x. bit_or (x * 0x400000) (a % 0x400000)) frame_i
        ∙ bit_or-disjoint 22 i (a % 0x400000) (omega arith))
  where
    present : is_present (i * 0x400000 + 131) ≡ true
    present = ground arith

    big : is_large (i * 0x400000 + 131) ≡ true
    big = ground arith

    frame_i : (i * 0x400000 + 131) / 0x400000 ≡ i
    frame_i = omega arith

module _ (s : Vmm) where
  dir_low : (i : ℕ) → i < 32 → (init s).page_dir i ≡ i * 0x400000 + 131
  unfolding init
  dir_low i h = identity_loop_lem 32 0 (λ _. 0) i ∙ ground (arith, large_entry_sum i h)

  dir_high : (i : ℕ) → 32 ≤ i → (init s).page_dir i ≡ 0
  unfolding init
  dir_high i h = identity_loop_lem 32 0 (λ _. 0) i ∙ ground arith

  no_table : (i : ℕ) → IsLinked (init s) i → (i < 0)
  no_table i (p, l) = elim (Bool-cases (ltb i 32)) [
    | inl h ↦ ground (arith, dir_low i (ground (arith, h)), l)
    | inr h ↦ ground (arith, dir_high i (ground (arith, h)), p)
  ]

  pub init-IsPaged : IsValid s.pmm → IsPaged (init s)
  unfolding init
  init-IsPaged v = record {
    valid = v;
    in_use = λ i h t. absurd (omega (arith, no_table i t));
    apart = λ i j hi hj t t' e. absurd (omega (arith, no_table i t));
  }

  abbrev entry_of : ℕ → ℕ
  entry_of a = (init s).page_dir (pd_index a)

  -- After `vmm_init` every address below 128 MiB is mapped to itself, and the look-up of every other one
  -- is 0.
  pub init-identity :
      (a : ℕ) → vmm_phys a (init s) ≡ (if ltb a (identity_mb * 2 ^ 20) then a else 0)
  init-identity a = vmm_phys-look a (init s) ∙ elim (Bool-cases (ltb a (identity_mb * 2 ^ 20))) [
    | inl h ↦ rw h (
        ap (λ e. look e ((init s).tables (frame (entry_of a)) (pt_index a)) a)
          (dir_low (pd_index a) (ground (arith, h)))
        ∙ look_large (pd_index a) ((init s).tables (frame (entry_of a)) (pt_index a)) a
        ∙ omega arith)
    | inr h ↦ rw h (
        look_absent (entry_of a) ((init s).tables (frame (entry_of a)) (pt_index a)) a
          (ap is_present (dir_high (pd_index a) (ground (arith, h)))))
  ]
