-- ===== src/Tmpfs/Nodes.antt =====
-- The nodes of kernel/fs/tmpfs.c as those of kernel/fs/vfs.c, and the store after a node is made.
use aerogel.Common.{
  ℕ, ◌+◌, ◌<◌, ◌≡◌, ◌↔◌, refl, ap, ap₂, ◌∙◌, arith, true, if◌then◌else◌, List, [], ◌∷◌, Option,
  none, some, take, All,
}
use aerogel.Common.Array.{Array, copy, update, update_ne}
use aerogel.Vfs.{FileSystem, vfs_file, vfs_dir, find}
use aerogel.Tmpfs.{
  Dir, Content, file, dir, Node, Store, read, readdir, same_name, find_entry, finddir, dir_add,
  create, add_to, mkdir, mkfile,
}

-- what `create` and `mkfile` set in a node
abbrev pub tmpfs_fs : Store → FileSystem ℕ
tmpfs_fs s = record {
  flags = λ n. elim (s.nodes n).content [ file f ↦ vfs_file | dir d ↦ vfs_dir ];
  read = λ n. elim (s.nodes n).content [ file f ↦ some (read f) | dir d ↦ none ];
  readdir = λ n. elim (s.nodes n).content [ file f ↦ none | dir d ↦ some (readdir d) ];
  finddir = λ n. elim (s.nodes n).content [ file f ↦ none | dir d ↦ some (finddir s d) ];
}

-- `same_name` decides equality.
pub same_name_iff : (a b : List ℕ) → (same_name a b ≡ true) ↔ (a ≡ b)
unfolding same_name
same_name_iff [] [] = (λ _. refl, λ _. refl)
same_name_iff [] (d ∷ b) = (λ h. cc, λ h. cc)
same_name_iff (c ∷ a) [] = (λ h. cc, λ h. cc)
same_name_iff (c ∷ a) (d ∷ b) =
    let ih = same_name_iff a b in
    (
      λ h. ap₂ ◌∷◌ (ground (arith, h)) (ih.0 (ground (arith, h))),
      λ h. ground (arith, heads h, ih.1 (tails h)),
    )
  where
    heads : {x y : ℕ} {s t : List ℕ} → x ∷ s ≡ y ∷ t → x ≡ y
    heads h = cc

    tails : {x y : ℕ} {s t : List ℕ} → x ∷ s ≡ y ∷ t → s ≡ t
    tails h = cc

-- Every entry of a directory is a node that is in use.
abbrev pub IsClosed : Store → Type 0
IsClosed s = (n : ℕ) (d : Dir) → (s.nodes n).content ≡ dir d → All (λ e. e < s.used) d.entries

-- the store with the new node `s.used` in the directory `d` of the node `p`
abbrev pub added : Store → (p : ℕ) → Dir → List ℕ → Content → Store
added s p d name c = record {
  nodes =
      update (update s.nodes s.used (record { name = take 255 name; content = c })) p
        (record { name = (s.nodes p).name; content = dir (dir_add d s.used) });
  used = s.used + 1;
}

-- what a node with this content is asked for
abbrev pub child : Store → Content → List ℕ → Option ℕ
child s (file f) nm = none
child s (dir d) nm = find_entry s nm d.entries

pub find_tmpfs :
    (s : Store) (n : ℕ) (nm : List ℕ) → find (tmpfs_fs s) n nm ≡ child s (s.nodes n).content nm
unfolding find finddir
find_tmpfs s n nm = asked (s.nodes n).content
  where
    asked :
        (k : Content)
        → (let f : Option (List ℕ → Option ℕ) = elim k [
          | file f ↦ none
          | dir d ↦ some (finddir s d)
        ] in
            let r : Option ℕ = elim f [ none ↦ none | some g ↦ g nm ] in r)
          ≡ child s k nm
    asked (file f) = refl
    asked (dir d) = refl

-- what a look-up for `nm` gives when the node `new` with this name stands behind the other entries
abbrev pub after_adding : (name : List ℕ) (new : ℕ) (nm : List ℕ) → Option ℕ → Option ℕ
after_adding name new nm none = if same_name (take 255 name) nm then some new else none
after_adding name new nm (some e) = some e

-- `add_to` where the parent is a directory
add_to-dir :
    (p n : ℕ) (t : Store) (nm : List ℕ) (d : Dir)
    → (t.nodes p).name ≡ nm
    → (t.nodes p).content ≡ dir d
    → add_to p n t
      ≡ record t { nodes = update t.nodes p (record { name = nm; content = dir (dir_add d n) }) }
add_to-dir p n t nm d named is_dir =
    on_dir (t.nodes p).content is_dir
    ∙ ap
        (λ m. record t {
          nodes = update t.nodes p (record { name = m; content = dir (dir_add d n) });
        })
        named
  where
    on_dir :
        (c : Content)
        → c ≡ dir d
        → (elim c [
          | file f ↦ t
          | dir e ↦ record t {
            nodes = update t.nodes p (record (t.nodes p) { content = dir (dir_add e n) });
          }
        ])
          ≡ record t {
            nodes =
                update t.nodes p (record { name = (t.nodes p).name; content = dir (dir_add d n) });
          }
    on_dir c e = rw e refl

module _ (s : Store) (p : ℕ) (d : Dir) (is_dir : (s.nodes p).content ≡ dir d)
    (old : p < s.used) where
  add_to-added :
      (name : List ℕ) (c : Content)
      → add_to p s.used (record {
        nodes = update s.nodes s.used (record { name = take 255 name; content = c });
        used = s.used + 1;
      })
        ≡ added s p d name c
  add_to-added name c =
      let node : Node = record { name = take 255 name; content = c } in
      let same : update s.nodes s.used node p ≡ s.nodes p =
        update_ne s.nodes s.used p node (omega (arith, old)) in
      add_to-dir p s.used (record { nodes = update s.nodes s.used node; used = s.used + 1 })
        (s.nodes p).name d (ap (λ (n : Node). n.name) same)
        (ap (λ (n : Node). n.content) same ∙ is_dir)

  pub mkdir-added :
      (name : List ℕ)
      → mkdir p name s ≡ (s.used, added s p d name (dir (record { entries = []; cap = 0 })))
  unfolding mkdir create
  mkdir-added name =
      ap (λ t. (s.used, t)) (add_to-added name (dir (record { entries = []; cap = 0 })))

  pub mkfile-added :
      (fresh : Array ℕ) (name : List ℕ) (bytes : Array ℕ) (size : ℕ)
      → mkfile fresh p name (some bytes) size s ≡ (
        s.used,
        added s p d name (file (record { data_at = copy 0 0 size bytes fresh; size = size })),
      )
  unfolding mkfile
  mkfile-added fresh name bytes size =
      ap (λ t. (s.used, t))
        (add_to-added name (file (record { data_at = copy 0 0 size bytes fresh; size = size })))
