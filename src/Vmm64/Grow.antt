-- ===== src/Vmm64/Grow.antt =====
-- The new tables of arch/x86_64/mm/vmm.c: `get_or_create`.
use aerogel.Common.{
  ap₂, ℕ, ◌+◌, ◌-◌, ◌*◌, ◌/◌, ◌^◌, ◌<◌, ◌≤◌, ◌≡◌, ◌≢◌, refl, sym, ap, ◌∙◌, subst, arith, Bool, true,
  false, ◌==◌, ==_iff, ==_ne, ==_self, if◌then◌else◌, Bool-cases, ◌⊎◌, inl, inr, Option, none, some,
}
use aerogel.Pmm.{Pmm, page_size, max_pages}
use aerogel.Pmm
use aerogel.Pmm.Alloc.{IsValid, used, Takes, AllocResult, alloc_lem}
use aerogel.Vmm64.{Vmm, is_present, is_huge, frame, table_entry, add_table, get_or_create, vmm_phys}
use aerogel.Vmm.Entries.{present-new_entry, large-new_entry, page-new_entry}
use aerogel.Vmm64.Walk.{look4, vmm_phys-look, IsTree, look4_same}

-- The state after the table `c` is found or made for the entry `i` of the table `t`.
pub record Grown (s : Vmm) (v : IsTree s) (t i c : ℕ) (s' : Vmm) : Type 0 where
  pub tree : IsTree s'
  pub pml4 : s'.pml4 ≡ s.pml4
  pub keeps : (x : ℕ) → v.level x ≢ 0 → (tree.level x ≡ v.level x) × (tree.prefix x ≡ v.prefix x)
  pub entries :
      (x j : ℕ) → v.level x ≢ 0 → is_present (s.tables x j) ≡ true → s'.tables x j ≡ s.tables x j
  pub here : (is_present (s'.tables t i) ≡ true) × (frame (s'.tables t i) ≡ c)
  pub small : v.level t ≡ 2 → is_huge (s'.tables t i) ≡ false
  pub child : (tree.level c + 1 ≡ v.level t) × (tree.prefix c ≡ v.prefix t * 512 + i)
  pub below :
      (j : ℕ)
      → s'.tables c j ≡ (if is_present (s.tables t i) then s.tables (frame (s.tables t i)) j else 0)
  pub same : is_present (s.tables t i) ≡ true → s' ≡ s
  pub phys : (virt : ℕ) → vmm_phys virt s' ≡ vmm_phys virt s

module _ (s : Vmm) (v : IsTree s) (t i : ℕ) (deep : 2 ≤ v.level t) (low : i < 512) where
  there-Grown :
      (small : v.level t ≡ 2 → is_huge (s.tables t i) ≡ false)
      → is_present (s.tables t i) ≡ true
      → Grown s v t i (frame (s.tables t i)) s
  there-Grown small there = record {
    tree = v;
    pml4 = refl;
    keeps = λ x h. (refl, refl);
    entries = λ x j h e. refl;
    here = (there, refl);
    small = small;
    child = v.child t i deep low there small;
    below = λ j. rw there refl;
    same = λ _. refl;
    phys = λ virt. refl;
  }

  -- a new table at page `p`, which was free
  module _ (absent : is_present (s.tables t i) ≡ false) (p : ℕ) (pm : Pmm)
      (takes : Takes s.pmm pm p 1) (valid : IsValid pm) where
    abbrev page : ℕ
    page = p * 4096

    abbrev grown : Vmm
    grown = add_table t i page (record s { pmm = pm })

    free : v.level page ≡ 0
    free = elim (Bool-cases (v.level page == 0)) [
      | inl e ↦ (==_iff (v.level page) 0).0 e
      | inr ne ↦
          let busy : used s.pmm (page / 4096) ≡ 1 = (v.in_use page (ground (arith, ne))).1 in
          let same : page / 4096 ≡ p = omega arith in
          let idle : used s.pmm p ≡ 0 = takes.was_free p (omega arith) (omega arith) in
          absurd (omega (arith, idle, sym (ap (used s.pmm) same) ∙ busy))
    ]

    other : (x : ℕ) → v.level x ≢ 0 → page ≢ x
    other x h e = h (sym (ap v.level e) ∙ free)

    at_parent : (j : ℕ) → grown.tables t j ≡ (if i == j then table_entry page else s.tables t j)
    unfolding add_table
    at_parent j = rw (==_self t, ==_ne page t (other t (omega (arith, deep)))) refl

    at_other : (x j : ℕ) → v.level x ≢ 0 → t ≢ x → grown.tables x j ≡ s.tables x j
    unfolding add_table
    at_other x j h ne = rw (==_ne t x ne, ==_ne page x (other x h)) refl

    at_page : (j : ℕ) → grown.tables page j ≡ 0
    unfolding add_table
    at_page j = rw (==_ne t page (λ e. other t (omega (arith, deep)) (sym e)), ==_self page) refl

    at_entry : grown.tables t i ≡ table_entry page
    at_entry = at_parent i ∙ rw (==_self i) refl

    -- An entry is as it was, or the new one.
    entry_cases :
        (x j : ℕ) → v.level x ≢ 0 → (grown.tables x j ≡ s.tables x j) ⊎ ((t ≡ x) × (i ≡ j))
    entry_cases x j h = elim (Bool-cases (t == x)) [
      | inr ne ↦ inl (at_other x j h (ground (arith, ne)))
      | inl e ↦ elim (Bool-cases (i == j)) [
        | inl ij ↦ inr ((==_iff t x).0 e, (==_iff i j).0 ij)
        | inr ij ↦ inl (
            subst (λ y. grown.tables y j ≡ s.tables y j) ((==_iff t x).0 e)
              (at_parent j ∙ rw ij refl))
      ]
    ]

    changed :
        (x j : ℕ)
        → v.level x ≢ 0
        → (grown.tables x j ≡ s.tables x j)
          ⊎ ((is_present (s.tables x j) ≡ false)
              × (grown.tables x j ≡ table_entry page)
              × (2 ≤ v.level x))
    changed x j h = elim (entry_cases x j h) [
      | inl old ↦ inl old
      | inr (e, ij) ↦ inr (
        ap₂ (λ y k. is_present (s.tables y k)) (sym e) (sym ij) ∙ absent,
        ap₂ grown.tables (sym e) (sym ij) ∙ at_entry,
        omega (arith, deep, ap v.level e),
      )
    ]

    abbrev level' : ℕ → ℕ
    level' x = if page == x then v.level t - 1 else v.level x

    abbrev prefix' : ℕ → ℕ
    prefix' x = if page == x then v.prefix t * 512 + i else v.prefix x

    keeps' : (x : ℕ) → v.level x ≢ 0 → (level' x ≡ v.level x) × (prefix' x ≡ v.prefix x)
    keeps' x h = rw (==_ne page x (other x h)) (refl, refl)

    at_new : (level' page ≡ v.level t - 1) × (prefix' page ≡ v.prefix t * 512 + i)
    at_new = rw (==_self page) (refl, refl)

    -- What an entry `e` of the table `x` at `j` leads to
    abbrev Leads : (x j e : ℕ) → Type 0
    Leads x j e = (level' (frame e) + 1 ≡ level' x) × (prefix' (frame e) ≡ prefix' x * 512 + j)

    Leads-old :
        (x j : ℕ)
        → v.level x ≢ 0
        → 2 ≤ v.level x
        → j < 512
        → is_present (s.tables x j) ≡ true
        → (v.level x ≡ 2 → is_huge (s.tables x j) ≡ false)
        → Leads x j (s.tables x j)
    Leads-old x j h two lt there small =
        let c = v.child x j two lt there small in
        let cx = keeps' x h in
        let cc' = keeps' (frame (s.tables x j)) (omega (arith, c.0, two)) in
        (omega (arith, c.0, cx.0, cc'.0), omega (arith, c.1, cx.1, cc'.1))

    Leads-new : Leads t i (table_entry page)
    Leads-new =
        subst (λ f. (level' f + 1 ≡ level' t) × (prefix' f ≡ prefix' t * 512 + i))
          (sym (ap (λ k. k * 4096) (page-new_entry p)))
          (let k = keeps' t (omega (arith, deep)) in
            (omega (arith, k.0, at_new.0, deep), omega (arith, k.1, at_new.1)))

    child' :
        (x j : ℕ)
        → 2 ≤ level' x
        → j < 512
        → is_present (grown.tables x j) ≡ true
        → (level' x ≡ 2 → is_huge (grown.tables x j) ≡ false)
        → Leads x j (grown.tables x j)
    child' x j two lt there small = elim (Bool-cases (page == x)) [
      | inl e ↦
          let e' : page ≡ x = (==_iff page x).0 e in
          absurd (blank (grown.tables x j) there (sym (ap (λ y. grown.tables y j) e') ∙ at_page j))
      | inr ne ↦
          let same : level' x ≡ v.level x = rw ne refl in
          let h : v.level x ≢ 0 = omega (arith, same, two) in
          elim (entry_cases x j h) [
            | inl old ↦ subst (Leads x j) (sym old) (
                Leads-old x j h (omega (arith, same, two)) lt (ap is_present (sym old) ∙ there)
                  (λ l. ap is_huge (sym old) ∙ small (same ∙ l)))
            | inr (tx, ij) ↦
                subst (λ y. Leads y j (grown.tables y j)) tx
                  (subst (λ k. Leads t k (grown.tables t k)) ij
                    (subst (Leads t i) (sym at_entry) Leads-new))
          ]
    ]
      where
        blank : (e : ℕ) → is_present e ≡ true → e ≢ 0
        blank e there z = let f : is_present 0 ≡ true = sym (ap is_present z) ∙ there in cc

    in_use' : (x : ℕ) → level' x ≢ 0 → (x ≡ x / 4096 * 4096) × (used pm (x / 4096) ≡ 1)
    in_use' x h = elim (Bool-cases (page == x)) [
      | inl e ↦
          let e' : page ≡ x = (==_iff page x).0 e in
          let own : page / 4096 ≡ p = omega arith in
          subst (λ y. (y ≡ y / 4096 * 4096) × (used pm (y / 4096) ≡ 1)) e'
            (omega arith, ap (used pm) own ∙ ground (arith, takes.now p))
      | inr ne ↦
          let same : level' x ≡ v.level x = rw ne refl in
          let old = v.in_use x (λ z. h (same ∙ z)) in
          (old.0, ground (arith, takes.now (x / 4096), old.1))
    ]

    grown_pml4 : grown.pml4 ≡ s.pml4
    unfolding add_table
    grown_pml4 = refl

    grown_pmm : grown.pmm ≡ pm
    unfolding add_table
    grown_pmm = refl

    root' : (level' grown.pml4 ≡ 4) × (prefix' grown.pml4 ≡ 0)
    root' =
        let k = keeps' s.pml4 (omega (arith, v.root.0)) in
        subst (λ a. (level' a ≡ 4) × (prefix' a ≡ 0)) (sym grown_pml4)
          (k.0 ∙ v.root.0, k.1 ∙ v.root.1)

    grown-IsTree : IsTree grown
    grown-IsTree = record {
      level = level';
      prefix = prefix';
      valid = subst IsValid (sym grown_pmm) valid;
      root = root';
      child = child';
      in_use = λ x h.
          subst (λ (q : Pmm). (x ≡ x / 4096 * 4096) × (used q (x / 4096) ≡ 1)) (sym grown_pmm)
            (in_use' x h);
    }

    grown-Grown : Grown s v t i page grown
    unfolding grown-IsTree
    grown-Grown = record {
      tree = grown-IsTree;
      pml4 = grown_pml4;
      keeps = keeps';
      entries = λ x j h there. elim (changed x j h) [
        | inl old ↦ old
        | inr (was, new, _) ↦ absurd (clash (is_present (s.tables x j)) there was)
      ];
      here = (
        ap is_present at_entry ∙ present-new_entry p,
        ap frame at_entry ∙ ap (λ k. k * 4096) (page-new_entry p),
      );
      small = λ two. ap is_huge at_entry ∙ large-new_entry p;
      child = (omega (arith, at_new.0, deep), at_new.1);
      below = λ j. at_page j ∙ rw absent refl;
      same = λ there. absurd (clash (is_present (s.tables t i)) there absent);
      phys = λ virt.
          vmm_phys-look virt grown
          ∙ ap (λ a. look4 grown.tables a virt) grown_pml4
          ∙ look4_same s v grown.tables p changed at_page virt s.pml4 v.root.0
          ∙ sym (vmm_phys-look virt s);
    }
      where
        clash : (b : Bool) → b ≡ true → b ≡ false → ⊥
        clash b h k = cc

-- Every page above page 0 is in use.
abbrev pub IsFull : Vmm → Type 0
IsFull s = (q : ℕ) → 1 ≤ q → q < max_pages → used s.pmm q ≡ 1

-- What `get_or_create` leaves: the table for the entry, or, where the entry has none and no page is free, the tables
-- as they were.
abbrev pub Got : (s : Vmm) (v : IsTree s) (t i : ℕ) → Option ℕ × Vmm → Type 0
Got s v t i (none, s') = (s' ≡ s) × (is_present (s.tables t i) ≡ false) × IsFull s'
Got s v t i (some c, s') = Grown s v t i c s'

-- `get_or_create` keeps the tree of tables, and no look-up changes.
pub get_or_create_lem :
    (s : Vmm) (v : IsTree s) (t i : ℕ)
    → 2 ≤ v.level t
    → i < 512
    → (v.level t ≡ 2 → is_huge (s.tables t i) ≡ false)
    → Got s v t i (get_or_create t i s)
unfolding get_or_create
get_or_create_lem s v t i deep low small = elim (Bool-cases (is_present (s.tables t i))) [
  | inl there ↦ rw there (there-Grown s v t i deep low small there)
  | inr absent ↦
      rw absent
        (allocated (Pmm.alloc (2 ^ 64) s.pmm) (alloc_lem (2 ^ 64) (omega arith) v.valid) absent)
]
  where
    allocated :
        (r : ℕ × Pmm)
        → AllocResult 1 max_pages s.pmm r
        → is_present (s.tables t i) ≡ false
        → Got s v t i (
            if r.0 == 0
            then (none, record s { pmm = r.1 })
            else (some (frame (table_entry r.0)), add_table t i r.0 (record s { pmm = r.1 })))
    allocated (a, pm) (inr (zero, same, full)) absent = rw zero (
      ap (λ (q : Pmm). record s { pmm = q }) same,
      absent,
      λ q low h. ap (λ (x : Pmm). used x q) same ∙ full q low h,
    )
    allocated (a, pm) (inl (p, addr, pos, takes, valid, _)) absent =
        rw (addr, ==_ne (p * page_size) 0 (omega (arith, pos)), page-new_entry p)
          (grown-Grown s v t i deep low absent p pm takes valid)
