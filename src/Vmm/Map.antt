-- ===== src/Vmm/Map.antt =====
-- What `vmm_map` and `vmm_unmap` of kernel/mm/vmm.c do to the look-up of every address.
use aerogel.Common.{
  ℕ, ◌+◌, ◌*◌, ◌/◌, ◌%◌, ◌^◌, ◌<◌, ◌≤◌, ◌≡◌, refl, ap, ◌∙◌, subst, arith, true, false, not, ◌&&◌,
  ◌≢◌, ◌==◌, ==_ne, ==_iff, if◌then◌else◌, Bool-cases, inl, inr,
}
use aerogel.Pmm.{Pmm, max_pages, page_size}
use aerogel.Pmm
use aerogel.Pmm.Alloc.{IsValid, used, Takes, AllocResult, alloc_lem}
use aerogel.Vmm.{
  Vmm, Mapped, done, fault, within_pse, out_of_memory, reaches, is_present, is_large, frame,
  pd_index, pt_index, entry, set_entry, add_table, vmm_map, vmm_unmap, vmm_phys,
}
use aerogel.Vmm.Entries.{look_empty, look_absent, vmm_phys-look, look-entry}
use aerogel.Vmm.Tables.{IsLinked, IsPaged, set_entry-look, set_entry-IsPaged}
use aerogel.Vmm.Grow.{add_table-look, add_table-IsPaged, add_table-IsLinked, page_of_new}

-- After `s'`, `virt` is mapped to `phys` on its page, and every other page is as in `s`.
abbrev pub MapsPage : (virt phys : ℕ) → Vmm → Vmm → Type 0
MapsPage virt phys s s' =
    (a : ℕ)
    → a < 2 ^ 32
    → vmm_phys a s' ≡ (if a / 4096 == virt / 4096 then frame phys + a % 4096 else vmm_phys a s)

-- The page that `pmm_alloc` gives: the first free one above page 0
pub record IsFirstFree (t : Pmm) (p : ℕ) : Type 0 where
  pub free : used t p ≡ 0
  pub first : (q : ℕ) → 1 ≤ q → q < p → used t q ≡ 1

reaches-false : (table : ℕ) (s : Vmm) → reaches table s ≡ false → vmm_phys table s ≢ table
unfolding reaches
reaches-false table s h e = ground (arith, h, (==_iff (vmm_phys table s) table).1 e)

-- The cases of `vmm_map`.
pub data MapCases (virt phys : ℕ) (s : Vmm) : Mapped → Type 0 where
  large : is_large (s.page_dir (pd_index virt)) ≡ true → MapCases virt phys s within_pse
  full :
      is_present (s.page_dir (pd_index virt)) ≡ false
      → ((q : ℕ) → 1 ≤ q → q < max_pages → used s.pmm q ≡ 1)
      → MapCases virt phys s out_of_memory
  fault_linked :
      is_present (s.page_dir (pd_index virt)) ≡ true
      → vmm_phys (frame (s.page_dir (pd_index virt))) s ≢ frame (s.page_dir (pd_index virt))
      → MapCases virt phys s fault
  fault_grown :
      is_present (s.page_dir (pd_index virt)) ≡ false
      → (p : ℕ) → IsFirstFree s.pmm p
      → vmm_phys (p * page_size) s ≢ p * page_size
      → MapCases virt phys s fault
  mapped : (s' : Vmm) → MapsPage virt phys s s' → IsPaged s' → MapCases virt phys s (done s')

-- Writing the entry, where the table is there.
entry_maps :
    (s : Vmm) (v : IsPaged s) (virt phys flags : ℕ)
    → virt < 2 ^ 32
    → IsLinked s (pd_index virt)
    → MapsPage virt phys s
        (set_entry (frame (s.page_dir (pd_index virt))) (pt_index virt) (entry phys flags) s)
      × IsPaged
          (set_entry (frame (s.page_dir (pd_index virt))) (pt_index virt) (entry phys flags) s)
entry_maps s v virt phys flags low here = (
  λ a a_low.
      set_entry-look s v virt (entry phys flags) low here a a_low
      ∙ ap (λ x. if a / 4096 == virt / 4096 then x else vmm_phys a s)
          (look-entry phys flags (s.page_dir (pd_index virt)) a here.0 here.1),
  set_entry-IsPaged s v virt (entry phys flags) low here,
)

module _ (s : Vmm) (v : IsPaged s) (virt phys flags : ℕ) (low : virt < 2 ^ 32)
    (not_large : is_large (s.page_dir (pd_index virt)) ≡ false)
    (absent : is_present (s.page_dir (pd_index virt)) ≡ false) where
  map_grown :
      (p : ℕ) (t : Pmm)
      → Takes s.pmm t p 1
      → IsValid t
      → MapCases virt phys s (
          done (
            set_entry
              (p * page_size)
              (pt_index virt)
              (entry phys flags)
              (add_table (pd_index virt) (p * page_size) (record s { pmm = t }))))
  map_grown p t takes valid =
      subst
        (λ f.
          MapCases virt phys s (done (set_entry (f * 4096) (pt_index virt) (entry phys flags) s1)))
        (page_of_new s v virt low absent p t takes valid)
        (mapped
          (set_entry (frame (s1.page_dir (pd_index virt))) (pt_index virt) (entry phys flags) s1)
          (λ a a_low.
            maps.0 a a_low
            ∙ ap (λ x. if a / 4096 == virt / 4096 then frame phys + a % 4096 else x)
                (add_table-look s v virt low absent p t takes valid a a_low))
          maps.1)
    where
      s1 : Vmm
      s1 = add_table (pd_index virt) (p * page_size) (record s { pmm = t })

      maps :
          MapsPage virt phys s1
            (set_entry (frame (s1.page_dir (pd_index virt))) (pt_index virt) (entry phys flags) s1)
          × IsPaged (
              set_entry (frame (s1.page_dir (pd_index virt))) (pt_index virt) (entry phys flags) s1)
      maps =
          entry_maps s1 (add_table-IsPaged s v virt low absent p t takes valid) virt phys flags low
            (add_table-IsLinked s v virt low absent p t takes valid)

  map_new :
      (r : ℕ × Pmm)
      → AllocResult 1 max_pages s.pmm r
      → MapCases virt phys s (
          if r.0 == 0
          then out_of_memory
          else if reaches r.0 s
          then done (
              set_entry r.0
                (pt_index virt)
                (entry phys flags)
                (add_table (pd_index virt) r.0 (record s { pmm = r.1 })))
          else fault)
  map_new (addr, t) (inl (p, at, above, takes, valid, before)) =
      rw (at, ==_ne (p * page_size) 0 (omega (arith, above)))
        (elim (Bool-cases (reaches (p * page_size) s)) [
          | inl there ↦ rw there (map_grown p t takes valid)
          | inr hidden ↦ rw hidden (
              fault_grown absent p
                (record { free = takes.was_free p (omega arith) (omega arith); first = before })
                (reaches-false (p * page_size) s hidden))
        ])
  map_new (addr, t) (inr (null, same, none_free)) = rw null (full absent none_free)

-- Where the tables have pages of their own, `vmm_map` of an address below 2 ^ 32 panics if a large page
-- covers it, or if it needs a table and every page above page 0 is in use. It faults only where the table to be
-- written, the one there or else the first free page, is not mapped to itself. Otherwise its page is mapped to the
-- page of `phys`, every other address below 2 ^ 32 is looked up as before, and the tables have pages of
-- their own again.
pub vmm_map-MapCases :
    (s : Vmm)
    → IsPaged s
    → (virt phys flags : ℕ) → virt < 2 ^ 32
    → MapCases virt phys s (vmm_map virt phys flags s)
unfolding vmm_map
vmm_map-MapCases s v virt phys flags low =
    elim (Bool-cases (is_large (s.page_dir (pd_index virt)))) [
      | inl l ↦ rw l (large l)
      | inr l ↦ elim (Bool-cases (is_present (s.page_dir (pd_index virt)))) [
        | inl p ↦
            let maps = entry_maps s v virt phys flags low (p, l) in
            rw (l, p)
              (elim (Bool-cases (reaches (frame (s.page_dir (pd_index virt))) s)) [
                | inl there ↦ rw there (
                    mapped
                      (set_entry (frame (s.page_dir (pd_index virt))) (pt_index virt)
                        (entry phys flags) s)
                      maps.0 maps.1)
                | inr hidden ↦ rw hidden (fault_linked p (reaches-false _ s hidden))
              ])
        | inr p ↦
            rw (l, p)
              (map_new s v virt phys flags low l p (Pmm.alloc (2 ^ 32) s.pmm)
                (alloc_lem (2 ^ 32) (omega arith) v.valid))
      ]
    ]

-- Where the tables have pages of their own, `vmm_unmap` of an address below 2 ^ 32 that no large page
-- covers makes the look-up of its page 0; every other look-up below 2 ^ 32 is as before, and all of them
-- are where a large page covers the address.
pub vmm_unmap_lem :
    (s : Vmm)
    → IsPaged s
    → (virt a : ℕ) → virt < 2 ^ 32
    → a < 2 ^ 32
    → (vmm_phys a (vmm_unmap virt s) ≡ (
        if (a / 4096 == virt / 4096) && not (is_large (s.page_dir (pd_index virt)))
        then 0
        else vmm_phys a s))
      × IsPaged (vmm_unmap virt s)
unfolding vmm_unmap
vmm_unmap_lem s v virt a low a_low = elim (Bool-cases (is_large (s.page_dir (pd_index virt)))) [
  | inl l ↦ (ground (arith, l), ground (arith, l, v))
  | inr l ↦ elim (Bool-cases (is_present (s.page_dir (pd_index virt)))) [
    | inl p ↦
        let at = s.page_dir (pd_index virt) in
        rw (l, p)
          (
            set_entry-look s v virt 0 low (p, l) a a_low
                ∙ ap (λ x. if a / 4096 == virt / 4096 then x else vmm_phys a s)
                    (look_empty at a (p, l))
                ∙ ground arith,
            set_entry-IsPaged s v virt 0 low (p, l),
          )
    | inr p ↦
        rw (l, p)
          (
            elim (Bool-cases (a / 4096 == virt / 4096)) [
              | inl e ↦ rw e (
                  vmm_phys-look a s
                  ∙ look_absent (s.page_dir (pd_index a))
                      (s.tables (frame (s.page_dir (pd_index a))) (pt_index a)) a
                      (ap (λ i. is_present (s.page_dir i)) (same_page (ground (arith, e))) ∙ p))
              | inr e ↦ rw e refl
            ],
            v,
          )
  ]
]
  where
    same_page : a / 4096 ≡ virt / 4096 → pd_index a ≡ pd_index virt
    same_page h = omega (arith, h)
