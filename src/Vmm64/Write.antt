-- ===== src/Vmm64/Write.antt =====
-- A write to a page table of arch/x86_64/mm/vmm.c, and the look-ups after it.
use aerogel.Common.{
  ℕ, ◌+◌, ◌*◌, ◌/◌, ◌%◌, ◌^◌, ◌<◌, ◌≤◌, ◌≡◌, ◌≢◌, refl, sym, ap, ◌∙◌, subst, arith, true, false,
  ◌==◌, ==_iff, ==_ne, ==_self, Bool-cases, inl, inr, bit_or,
}
use aerogel.Common.Array.{Array, update}
use aerogel.Vmm64.{Vmm, is_present, is_huge, frame, pml4i, pdpti, pdi, pti, set_entry, vmm_phys}
use aerogel.Vmm64.Walk.{follow, look1, look2, look3, look4, vmm_phys-look, IsTree}

-- The entry `i` of the table `t` is the table `c`.
abbrev pub At : Array (Array ℕ) → (t i c : ℕ) → Type 0
At m t i c = (is_present (m t i) ≡ true) × (frame (m t i) ≡ c)

-- A write to the entry of `virt` in its page table `c`.
module _ (s : Vmm) (v : IsTree s) (virt c e : ℕ) (low : virt < 2 ^ 48)
    (leaf : (v.level c ≡ 1) × (v.prefix c ≡ virt / 2 ^ 21)) where
  abbrev written : Array (Array ℕ)
  written = update s.tables c (update (s.tables c) (pti virt) e)

  upper_same : (t i : ℕ) → 2 ≤ v.level t → written t i ≡ s.tables t i
  upper_same t i deep =
      rw (==_ne c t (λ q. absurd (omega (arith, deep, leaf.0, ap v.level q)))) refl

  pub set_entry-IsTree : IsTree (set_entry c (pti virt) e s)
  unfolding set_entry
  set_entry-IsTree = record {
    level = v.level;
    prefix = v.prefix;
    valid = v.valid;
    root = v.root;
    child = λ t i deep lt.
        subst
          (λ x.
            is_present x ≡ true
            → (v.level t ≡ 2 → is_huge x ≡ false)
            → (v.level (frame x) + 1 ≡ v.level t) × (v.prefix (frame x) ≡ v.prefix t * 512 + i))
          (sym (upper_same t i deep)) (v.child t i deep lt);
    in_use = v.in_use;
  }

  module _ (a : ℕ) (a_low : a < 2 ^ 48) (apart : a / 4096 ≢ virt / 4096) where
    look1_other :
        (t : ℕ) → v.level t ≡ 1 → v.prefix t ≡ a / 2 ^ 21 → look1 written t a ≡ look1 s.tables t a
    look1_other t l p =
        ap (λ x. follow x (λ page. bit_or page (a % 4096)))
          (elim (Bool-cases (c == t)) [
            | inr ne ↦ rw ne refl
            | inl q ↦
                let ct : c ≡ t = (==_iff c t).0 q in
                let same : virt / 2 ^ 21 ≡ a / 2 ^ 21 = sym leaf.1 ∙ ap v.prefix ct ∙ p in
                rw (q, ==_ne (pti virt) (pti a) (λ k. absurd (omega (arith, same, k, apart))))
                  (ap (λ x. s.tables x (pti a)) ct)
          ])

    look2_other :
        (t : ℕ) → v.level t ≡ 2 → v.prefix t ≡ a / 2 ^ 30 → look2 written t a ≡ look2 s.tables t a
    look2_other t l p =
        rw (upper_same t (pdi a) (omega (arith, l)))
          (elim (Bool-cases (is_present (s.tables t (pdi a)))) [
            | inr absent ↦ rw absent refl
            | inl there ↦ elim (Bool-cases (is_huge (s.tables t (pdi a)))) [
              | inl huge ↦ rw (there, huge) refl
              | inr small ↦
                  let k = v.child t (pdi a) (omega (arith, l)) (omega arith) there (λ _. small) in
                  rw (there, small)
                    (look1_other (frame (s.tables t (pdi a))) (omega (arith, k.0, l))
                      (omega (arith, k.1, p)))
            ]
          ])

    look3_other :
        (t : ℕ) → v.level t ≡ 3 → v.prefix t ≡ a / 2 ^ 39 → look3 written t a ≡ look3 s.tables t a
    look3_other t l p =
        rw (upper_same t (pdpti a) (omega (arith, l)))
          (elim (Bool-cases (is_present (s.tables t (pdpti a)))) [
            | inr absent ↦ rw absent refl
            | inl there ↦
                let k =
                  v.child t (pdpti a) (omega (arith, l)) (omega arith) there
                    (λ two. absurd (omega (arith, two, l))) in
                rw there (
                  look2_other (frame (s.tables t (pdpti a))) (omega (arith, k.0, l))
                    (omega (arith, k.1, p)))
          ])

    look4_other : (t : ℕ) → v.level t ≡ 4 → v.prefix t ≡ 0 → look4 written t a ≡ look4 s.tables t a
    look4_other t l p =
        rw (upper_same t (pml4i a) (omega (arith, l)))
          (elim (Bool-cases (is_present (s.tables t (pml4i a)))) [
            | inr absent ↦ rw absent refl
            | inl there ↦
                let k =
                  v.child t (pml4i a) (omega (arith, l)) (omega arith) there
                    (λ two. absurd (omega (arith, two, l))) in
                rw there (
                  look3_other (frame (s.tables t (pml4i a))) (omega (arith, k.0, l))
                    (omega (arith, k.1, p, a_low)))
          ])

    pub phys_other : vmm_phys a (set_entry c (pti virt) e s) ≡ vmm_phys a s
    unfolding set_entry
    phys_other =
        vmm_phys-look a (set_entry c (pti virt) e s)
        ∙ look4_other s.pml4 v.root.0 v.root.1
        ∙ sym (vmm_phys-look a s)

  -- The look-up on the page itself, where the tables lead to the page table.
  module _ (c3 c2 : ℕ) (in4 : At s.tables s.pml4 (pml4i virt) c3)
      (in3 : At s.tables c3 (pdpti virt) c2) (in2 : At s.tables c2 (pdi virt) c)
      (small : is_huge (s.tables c2 (pdi virt)) ≡ false)
      (levels : (v.level c3 ≡ 3) × (v.level c2 ≡ 2)) (a : ℕ) (same : a / 4096 ≡ virt / 4096) where
    look1_here : look1 written c a ≡ follow e (λ page. bit_or page (a % 4096))
    look1_here =
        let q : pti a ≡ pti virt = omega (arith, same) in rw (q, ==_self c, ==_self (pti virt)) refl

    look2_here : look2 written c2 a ≡ look1 written c a
    look2_here =
        let q : pdi a ≡ pdi virt = omega (arith, same) in
        rw (q, upper_same c2 (pdi virt) (omega (arith, levels.1)), in2.0, small, in2.1) refl

    look3_here : look3 written c3 a ≡ look2 written c2 a
    look3_here =
        let q : pdpti a ≡ pdpti virt = omega (arith, same) in
        rw (q, upper_same c3 (pdpti virt) (omega (arith, levels.0)), in3.0, in3.1) refl

    look4_here : look4 written s.pml4 a ≡ look3 written c3 a
    look4_here =
        let q : pml4i a ≡ pml4i virt = omega (arith, same) in
        rw (q, upper_same s.pml4 (pml4i virt) (omega (arith, v.root.0)), in4.0, in4.1) refl

    pub phys_here :
        vmm_phys a (set_entry c (pti virt) e s) ≡ follow e (λ page. bit_or page (a % 4096))
    unfolding set_entry
    phys_here =
        vmm_phys-look a (set_entry c (pti virt) e s)
        ∙ look4_here
        ∙ look3_here
        ∙ look2_here
        ∙ look1_here
