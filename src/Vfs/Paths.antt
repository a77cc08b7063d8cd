-- ===== src/Vfs/Paths.antt =====
-- Which node a path names, for kernel/fs/vfs.c.
use aerogel.Common.{
  bit_and, ◌==◌, false, ℕ, zero, suc, ◌<◌, ◌≤◌, ◌≡◌, ◌≢◌, refl, ap, ◌∙◌, arith, ==_ne, lt→ltb, List,
  [], ◌∷◌, ◌++◌, Option, none, some, length, length-append, All,
}
use aerogel.Vfs.{FileSystem, Vfs, split_path, find, go_on, walk, resolve, vfs_dir, vfs_finddir}

-- A name has a character, and no `/`.
pub record IsName (name : List ℕ) : Type 0 where
  pub no_slash : All (λ c. c ≢ b'/') name
  pub nonempty : 0 < length name

-- the names of a path with `/` between them
abbrev pub join_names : List ℕ → List (List ℕ) → List ℕ
join_names name [] = name
join_names name (next ∷ names) = name ++ b'/' ∷ join_names next names

split_path-last : (name : List ℕ) → All (λ c. c ≢ b'/') name → split_path name ≡ (name, none)
unfolding split_path
split_path-last [] h = refl
split_path-last (c ∷ name) h = rw (==_ne c b'/' h.0, split_path-last name h.1) refl

split_path-append :
    (name rest : List ℕ)
    → All (λ c. c ≢ b'/') name
    → split_path (name ++ b'/' ∷ rest) ≡ (name, some rest)
unfolding split_path
split_path-append [] rest h = refl
split_path-append (c ∷ name) rest h = rw (==_ne c b'/' h.0, split_path-append name rest h.1) refl

module _ {Node : Type 0} (fs : FileSystem Node) where
  -- What a path means: each directory is asked for the next name.
  unfoldable pub descend : Node → List (List ℕ) → Option Node
  descend node [] = some node
  descend node (name ∷ names) = elim (find fs node name) [
    | none ↦ none
    | some node' ↦ descend node' names
  ]

  walk_lem :
      (f : ℕ) (node : Node) (name : List ℕ) (names : List (List ℕ))
      → IsName name
      → All IsName names
      → length (join_names name names) ≤ f
      → walk fs f node (join_names name names) ≡ descend node (name ∷ names)
  unfolding walk descend go_on
  walk_lem f node [] names n ns h = absurd (omega (arith, n.nonempty))
  walk_lem zero node (c ∷ name) [] n ns h = absurd (omega arith)
  walk_lem zero node (c ∷ name) (next ∷ names) n ns h = absurd (omega arith)
  walk_lem (suc f) node (c ∷ name) [] n ns h =
      ap (λ s. go_on (find fs node s.0) s.1 (walk fs f)) (split_path-last (c ∷ name) n.no_slash)
      ∙ found (find fs node (c ∷ name))
    where
      found :
          (o : Option Node)
          → go_on o none (walk fs f) ≡ elim o [ none ↦ none | some node' ↦ descend node' [] ]
      found none = refl
      found (some node') = refl
  walk_lem (suc f) node (c ∷ name) (next ∷ names) n ns h =
      ap (λ s. go_on (find fs node s.0) s.1 (walk fs f))
        (split_path-append (c ∷ name) (join_names next names) n.no_slash)
      ∙ found (find fs node (c ∷ name)) (λ node'.
        walk_lem f node' next names ns.0 ns.1
          (omega (arith, length-append (c ∷ name) (b'/' ∷ join_names next names))))
    where
      found :
          (o : Option Node)
          → ((node' : Node)
              → walk fs f node' (join_names next names) ≡ descend node' (next ∷ names))
          → go_on o (some (join_names next names)) (walk fs f)
            ≡ elim o [ none ↦ none | some node' ↦ descend node' (next ∷ names) ]
      found none e = refl
      found (some node') e = e node'

  -- A path of names, `/` before each, and shorter than 256 characters, names the node that asking each
  -- directory for the next name gives, from the root on; no byte behind the path is read.
  pub resolve-join_names :
      (tail name : List ℕ) (names : List (List ℕ)) (root : Node) (v : Vfs Node)
      → v.root ≡ some root
      → IsName name
      → All IsName names
      → length (join_names name names) < 255
      → resolve fs tail (b'/' ∷ join_names name names) v ≡ descend root (name ∷ names)
  unfolding resolve
  resolve-join_names tail name names root v r n ns h =
      rw (r, lt→ltb (length (join_names name names)) 255 h)
        (walk_lem (length (join_names name names)) root name names n ns (omega arith))

  -- A directory is asked by its own function.
  pub vfs_finddir-find :
      (n : Node) (name : List ℕ)
      → (bit_and (fs.flags n) vfs_dir == 0) ≡ false
      → vfs_finddir fs (some n) name ≡ find fs n name
  unfolding vfs_finddir
  vfs_finddir-find n name h = rw h refl

  -- The path `/` names the root directory.
  pub resolve-root :
      (tail : List ℕ) (root : Node) (v : Vfs Node)
      → v.root ≡ some root
      → resolve fs tail (b'/' ∷ []) v ≡ some root
  unfolding resolve walk
  resolve-root tail root v r = rw r refl
