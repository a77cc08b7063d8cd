-- ===== src/Tmpfs/Tree.antt =====
-- What is found in the directories of kernel/fs/tmpfs.c after a node is made.
use aerogel.Common.Array.{Array, copy}
use aerogel.Common.{
  subst, ℕ, ◌+◌, ◌<◌, ◌≤◌, ◌≡◌, ◌≢◌, refl, sym, ap, ◌∙◌, arith, ◌==◌, if◌then◌else◌, Bool-cases,
  some, ==_iff, ==_self, ==_ne, inl, inr, List, [], ◌∷◌, ◌++◌, none, take, All,
}
use aerogel.Vfs.{find}
use aerogel.Tmpfs.{
  File, Dir, Content, file, dir, Node, Store, same_name, find_entry, dir_add, mkdir, mkfile,
}
use aerogel.Tmpfs.Nodes.{
  tmpfs_fs, same_name_iff, child, find_tmpfs, after_adding, IsClosed, added, mkdir-added,
  mkfile-added,
}

pub dir_eq : {d e : Dir} → dir d ≡ dir e → d ≡ e
dir_eq h = cc

file_dir : {f : File} {d : Dir} → file f ≡ dir d → ⊥
file_dir h = cc

All-up : (k : ℕ) (es : List ℕ) → All (λ e. e < k) es → All (λ e. e < k + 1) es
All-up k [] h = tt
All-up k (e ∷ es) h = (omega (arith, h.0), All-up k es h.1)

All-last : (k : ℕ) (es : List ℕ) → All (λ e. e < k) es → All (λ e. e < k + 1) (es ++ k ∷ [])
All-last k [] h = (omega arith, tt)
All-last k (e ∷ es) h = (omega (arith, h.0), All-last k es h.1)

pub find_entry-first :
    (s : Store) (nm : List ℕ) (e : ℕ) (es : List ℕ)
    → (s.nodes e).name ≡ nm
    → find_entry s nm (e ∷ es) ≡ some e
unfolding find_entry
find_entry-first s nm e es h = rw (h, (same_name_iff nm nm).1 refl) refl

pub no_child :
    (s : Store) (nm : List ℕ) → child s (dir (record { entries = []; cap = 0 })) nm ≡ none
unfolding find_entry
no_child s nm = refl

module _ (s : Store) (p : ℕ) (d : Dir) (is_dir : (s.nodes p).content ≡ dir d)
    (old : p < s.used) where
  module _ (name : List ℕ) (c : Content) where
    name-added : (n : ℕ) → n < s.used → ((added s p d name c).nodes n).name ≡ (s.nodes n).name
    name-added n lt = elim (Bool-cases (p == n)) [
      | inl e ↦ rw e (ap (λ k. (s.nodes k).name) ((==_iff p n).0 e))
      | inr ne ↦ rw (ne, ==_ne s.used n (omega arith)) refl
    ]

    find_entry-added :
        (nm : List ℕ) (es : List ℕ)
        → All (λ e. e < s.used) es
        → find_entry (added s p d name c) nm es ≡ find_entry s nm es
    unfolding find_entry
    find_entry-added nm [] h = refl
    find_entry-added nm (e ∷ es) h = rw (name-added e h.0, find_entry-added nm es h.1) refl

    new_name : ((added s p d name c).nodes s.used).name ≡ take 255 name
    new_name = rw (==_ne p s.used (omega (arith, old)), ==_self s.used) refl

    find_entry-last :
        (nm : List ℕ) (es : List ℕ)
        → All (λ e. e < s.used) es
        → find_entry (added s p d name c) nm (es ++ s.used ∷ [])
          ≡ after_adding name s.used nm (find_entry s nm es)
    unfolding find_entry
    find_entry-last nm [] h = rw new_name refl
    find_entry-last nm (e ∷ es) h =
        rw (name-added e h.0, find_entry-last nm es h.1)
          (elim (Bool-cases (same_name (s.nodes e).name nm)) [
            | inl y ↦ rw y refl
            | inr n ↦ rw n refl
          ])

  module _ (name : List ℕ) (c : Content) where
    pub content-parent : ((added s p d name c).nodes p).content ≡ dir (dir_add d s.used)
    content-parent = rw (==_self p) refl

    pub content-new : ((added s p d name c).nodes s.used).content ≡ c
    content-new = rw (==_ne p s.used (omega (arith, old)), ==_self s.used) refl

    pub content-other : (n : ℕ) → n ≢ p → n ≢ s.used → (added s p d name c).nodes n ≡ s.nodes n
    content-other n np nu = rw (==_ne p n (λ e. np (sym e)), ==_ne s.used n (λ e. nu (sym e))) refl

    module _ (closed : IsClosed s) where
      -- In the parent the old entries come first.
      pub find-parent :
          (nm : List ℕ)
          → find (tmpfs_fs (added s p d name c)) p nm
            ≡ after_adding name s.used nm (find (tmpfs_fs s) p nm)
      unfolding dir_add
      find-parent nm =
          find_tmpfs (added s p d name c) p nm
          ∙ ap (λ k. child (added s p d name c) k nm) content-parent
          ∙ find_entry-last name c nm d.entries (closed p d is_dir)
          ∙ ap (after_adding name s.used nm)
              (sym (find_tmpfs s p nm ∙ ap (λ k. child s k nm) is_dir))

      pub find-other :
          (n : ℕ) (nm : List ℕ)
          → n ≢ p
          → n < s.used
          → find (tmpfs_fs (added s p d name c)) n nm ≡ find (tmpfs_fs s) n nm
      find-other n nm np lt =
          find_tmpfs (added s p d name c) n nm
          ∙ ap (λ (m : Node). child (added s p d name c) m.content nm)
              (content-other n np (omega (arith, lt)))
          ∙ same (s.nodes n).content refl
          ∙ sym (find_tmpfs s n nm)
        where
          same :
              (k : Content)
              → (s.nodes n).content ≡ k
              → child (added s p d name c) k nm ≡ child s k nm
          same (file f) e = refl
          same (dir e) eq = find_entry-added name c nm e.entries (closed n e eq)

      pub find-new :
          (nm : List ℕ)
          → find (tmpfs_fs (added s p d name c)) s.used nm ≡ child (added s p d name c) c nm
      find-new nm =
          find_tmpfs (added s p d name c) s.used nm
          ∙ ap (λ k. child (added s p d name c) k nm) content-new

      pub added-IsClosed : ((e : Dir) → c ≡ dir e → e.entries ≡ []) → IsClosed (added s p d name c)
      unfolding dir_add
      added-IsClosed empty n e eq = elim (Bool-cases (p == n)) [
        | inl here ↦
            let is : dir (dir_add d s.used) ≡ dir e =
              sym (
                ap (λ k. ((added s p d name c).nodes k).content) (sym ((==_iff p n).0 here))
                ∙ content-parent)
              ∙ eq in
            subst (λ (k : Dir). All (λ x. x < s.used + 1) k.entries) (dir_eq is)
              (All-last s.used d.entries (closed p d is_dir))
        | inr there ↦ elim (Bool-cases (s.used == n)) [
          | inl new ↦
              let is : c ≡ dir e =
                sym (
                  ap (λ k. ((added s p d name c).nodes k).content) (sym ((==_iff s.used n).0 new))
                  ∙ content-new)
                ∙ eq in
              rw (empty e is) tt
          | inr other ↦ All-up s.used e.entries (
              closed n e (
                sym (
                  ap (λ (m : Node). m.content)
                    (content-other n (λ h. absurd (ground (arith, h, there)))
                      (λ h. absurd (ground (arith, h, other)))))
                ∙ eq))
        ]
      ]

-- What is found after the node `s.used` is made with this name in `p`.
abbrev pub Finds : Store → (p : ℕ) → List ℕ → Store → Type 0
Finds s p name t =
    (n : ℕ) (nm : List ℕ)
    → n ≤ s.used
    → find (tmpfs_fs t) n nm ≡ (
        if n == p
        then after_adding name s.used nm (find (tmpfs_fs s) p nm)
        else if n == s.used
        then none
        else find (tmpfs_fs s) n nm)

-- The store after the node `s.used` is made with this name and content in the directory `d` of the node `p`.
pub record Made (s : Store) (p : ℕ) (d : Dir) (name : List ℕ) (c : Content) (t : Store)
    : Type 0 where
  pub finds : Finds s p name t
  pub closed : IsClosed t
  pub used : t.used ≡ s.used + 1
  pub new : (t.nodes s.used).content ≡ c
  pub parent : (t.nodes p).content ≡ dir (dir_add d s.used)
  pub others : (n : ℕ) → n < s.used → n ≢ p → t.nodes n ≡ s.nodes n

module _ (s : Store) (p : ℕ) (d : Dir) (name : List ℕ) (closed : IsClosed s) (old : p < s.used)
    (is_dir : (s.nodes p).content ≡ dir d) where
  added-Finds :
      (c : Content)
      → ((nm : List ℕ) → child (added s p d name c) c nm ≡ none)
      → Finds s p name (added s p d name c)
  added-Finds c nothing n nm le = elim (Bool-cases (n == p)) [
    | inl here ↦ rw here (
        ap (λ k. find (tmpfs_fs (added s p d name c)) k nm) ((==_iff n p).0 here)
        ∙ find-parent s p d is_dir old name c closed nm)
    | inr there ↦ rw there (elim (Bool-cases (n == s.used)) [
      | inl new ↦ rw new (
          ap (λ k. find (tmpfs_fs (added s p d name c)) k nm) ((==_iff n s.used).0 new)
          ∙ find-new s p d is_dir old name c closed nm
          ∙ nothing nm)
      | inr other ↦ rw other (
          find-other s p d is_dir old name c closed n nm (ground (arith, there))
            (ground (arith, other, le)))
    ])
  ]

  added-Made :
      (c : Content)
      → ((nm : List ℕ) → child (added s p d name c) c nm ≡ none)
      → ((e : Dir) → c ≡ dir e → e.entries ≡ [])
      → Made s p d name c (added s p d name c)
  added-Made c nothing empty = record {
    finds = added-Finds c nothing;
    closed = added-IsClosed s p d is_dir old name c closed empty;
    used = refl;
    new = content-new s p d is_dir old name c;
    parent = content-parent s p d is_dir old name c;
    others = λ n lt np. content-other s p d is_dir old name c n np (omega (arith, lt));
  }

  -- A new directory is found in its parent by its name, cut to 255 characters, unless a node of that name was
  -- there before; it is empty, every other look-up and every other node is as before, and every entry of a
  -- directory is a node in use, as it was before.
  pub mkdir_lem : Made s p d name (dir (record { entries = []; cap = 0 })) (mkdir p name s).1
  mkdir_lem =
      let empty : Content = dir (record { entries = []; cap = 0 }) in
      subst (λ (t : ℕ × Store). Made s p d name empty t.1) (sym (mkdir-added s p d is_dir old name))
        (added-Made empty (no_child (added s p d name empty))
          (λ e eq. ap (λ (k : Dir). k.entries) (sym (dir_eq eq))))

  -- The same for a new file, which holds the bytes given.
  pub mkfile_lem :
      (fresh : Array ℕ) (bytes : Array ℕ) (size : ℕ)
      → Made s p d name
          (file (record { data_at = copy 0 0 size bytes fresh; size = size }))
          (mkfile fresh p name (some bytes) size s).1
  mkfile_lem fresh bytes size =
      let c : Content = file (record { data_at = copy 0 0 size bytes fresh; size = size }) in
      subst (λ (t : ℕ × Store). Made s p d name c t.1)
        (sym (mkfile-added s p d is_dir old fresh name bytes size))
        (added-Made c (λ nm. refl) (λ e eq. absurd (file_dir eq)))
