-- ===== src/Setup/Files.antt =====
-- The files that `setup_run` of userspace/setup/setup.c makes.
use aerogel.Common.{
  get_or, ◌-◌, ℕ, ◌+◌, ◌<◌, ◌≡◌, ◌≢◌, refl, sym, ap, ◌∙◌, arith, ==_ne, ==_self, ◌⊎◌, inl, inr,
  List, [], none, some, length,
}
use aerogel.Common.Array.{Array, copy}
use aerogel.Libc.{strlen}
use aerogel.Libc.Strings.{IsString, strlen_lem}
use aerogel.Vfs.{find, vfs_finddir}
use aerogel.Vfs.Paths.{vfs_finddir-find}
use aerogel.Tmpfs.{File, Dir, Content, file, dir, Node, Store, dir_add, mkdir, mkfile}
use aerogel.Tmpfs.Nodes.{tmpfs_fs, same_name_iff, after_adding, IsClosed, mkdir-added}
use aerogel.Tmpfs.Tree.{Made, mkdir_lem, mkfile_lem}
use aerogel.Setup.Hostname.{IsString-get_or}
use aerogel.Setup.{
  etc_name, home_name, proc_name, hostname_name, release_name, release, text, find_etc, fill_root,
  make_files,
}

-- The root directory `r`, and `e`, which is found in it as /etc and holds no `hostname`.
record Ready (s : Store) (r e : ℕ) : Type 0 where
  pub closed : IsClosed s
  pub root_dir : Dir
  pub root : ((s.nodes r).content ≡ dir root_dir) × (r < s.used)
  pub etc_dir : Dir
  pub etc : ((s.nodes e).content ≡ dir etc_dir) × (e < s.used) × (e ≢ r)
  pub found : find (tmpfs_fs s) r etc_name ≡ some e
  pub free : find (tmpfs_fs s) e hostname_name ≡ none

-- The store before: `r` is a directory, and its entry `etc`, if there is one, a directory without `hostname`.
pub record Start (s : Store) (r : ℕ) : Type 0 where
  pub closed : IsClosed s
  pub root_dir : Dir
  pub root : ((s.nodes r).content ≡ dir root_dir) × (r < s.used)
  pub etc :
      (find (tmpfs_fs s) r etc_name ≡ none)
      ⊎ ((e : ℕ) × (d : Dir) × (find (tmpfs_fs s) r etc_name ≡ some e)
          × ((s.nodes e).content ≡ dir d)
          × (e < s.used)
          × (e ≢ r)
          × (find (tmpfs_fs s) e hostname_name ≡ none))

abbrev content : Node → Content
content n = n.content

-- what a look-up in another old node, in the parent and in the new node gives
module _ (s : Store) (p : ℕ) (d : Dir) (name : List ℕ) (c : Content) (t : Store)
    (m : Made s p d name c t) where
  finds-other :
      (n : ℕ) (nm : List ℕ) → n < s.used → n ≢ p → find (tmpfs_fs t) n nm ≡ find (tmpfs_fs s) n nm
  finds-other n nm lt np =
      m.finds n nm (omega (arith, lt)) ∙ rw (==_ne n p np, ==_ne n s.used (omega (arith, lt))) refl

  finds-parent :
      (nm : List ℕ)
      → p < s.used
      → find (tmpfs_fs t) p nm ≡ after_adding name s.used nm (find (tmpfs_fs s) p nm)
  finds-parent nm lt = m.finds p nm (omega (arith, lt)) ∙ rw (==_self p) refl

  finds-new : (nm : List ℕ) → p < s.used → find (tmpfs_fs t) s.used nm ≡ none
  finds-new nm lt =
      m.finds s.used nm (omega arith) ∙ rw (==_ne s.used p (omega (arith, lt)), ==_self s.used) refl

-- A further directory in the root directory
mkdir-Ready : (s : Store) (r e : ℕ) (name : List ℕ) → Ready s r e → Ready (mkdir r name s).1 r e
mkdir-Ready s r e name h =
    let empty : Content = dir (record { entries = []; cap = 0 }) in
    let t : Store = (mkdir r name s).1 in
    let m = mkdir_lem s r h.root_dir name h.closed h.root.1 h.root.0 in
    record {
      closed = m.closed;
      root_dir = dir_add h.root_dir s.used;
      root = (m.parent, omega (arith, m.used, h.root.1));
      etc_dir = h.etc_dir;
      etc = (
        ap content (m.others e h.etc.1 h.etc.2) ∙ h.etc.0,
        omega (arith, m.used, h.etc.1),
        h.etc.2,
      );
      found =
          finds-parent s r h.root_dir name empty t m etc_name h.root.1
          ∙ ap (after_adding name s.used etc_name) h.found;
      free = finds-other s r h.root_dir name empty t m e hostname_name h.etc.1 h.etc.2 ∙ h.free;
    }

finddir_dir :
    (s : Store) (r : ℕ) (d : Dir) (nm : List ℕ)
    → (s.nodes r).content ≡ dir d
    → vfs_finddir (tmpfs_fs s) (some r) nm ≡ find (tmpfs_fs s) r nm
finddir_dir s r d nm is_dir = vfs_finddir-find (tmpfs_fs s) r nm (rw is_dir refl)

find_etc-Ready :
    (s : Store) (r : ℕ) → Start s r → (e : ℕ) × (t : Store) × (find_etc r s ≡ (e, t)) × Ready t r e
find_etc-Ready s r h = on_etc h.etc
  where
    asked : vfs_finddir (tmpfs_fs s) (some r) etc_name ≡ find (tmpfs_fs s) r etc_name
    asked = finddir_dir s r h.root_dir etc_name h.root.0

    on_etc :
        (find (tmpfs_fs s) r etc_name ≡ none)
          ⊎ ((e : ℕ) × (d : Dir) × (find (tmpfs_fs s) r etc_name ≡ some e)
              × ((s.nodes e).content ≡ dir d)
              × (e < s.used)
              × (e ≢ r)
              × (find (tmpfs_fs s) e hostname_name ≡ none))
        → (e : ℕ) × (t : Store) × (find_etc r s ≡ (e, t)) × Ready t r e
    on_etc (inl missing) =
        let empty : Content = dir (record { entries = []; cap = 0 }) in
        let t : Store = (mkdir r etc_name s).1 in
        let id = mkdir-added s r h.root_dir h.root.0 h.root.1 etc_name in
        let m = mkdir_lem s r h.root_dir etc_name h.closed h.root.1 h.root.0 in
        (
          s.used,
          t,
          rw (find_etc, asked ∙ missing) (id ∙ ap (λ (u : ℕ × Store). (s.used, u.1)) (sym id)),
          record {
            closed = m.closed;
            root_dir = dir_add h.root_dir s.used;
            root = (m.parent, omega (arith, m.used, h.root.1));
            etc_dir = record { entries = []; cap = 0 };
            etc = (m.new, omega (arith, m.used), omega (arith, h.root.1));
            found =
                finds-parent s r h.root_dir etc_name empty t m etc_name h.root.1
                ∙ ap (after_adding etc_name s.used etc_name) missing
                ∙ rw ((same_name_iff etc_name etc_name).1 refl) refl;
            free = finds-new s r h.root_dir etc_name empty t m hostname_name h.root.1;
          },
        )
    on_etc (inr (e, d, found, is_dir, old, apart, free)) = (
      e,
      s,
      rw (find_etc, asked ∙ found) refl,
      record {
        closed = h.closed;
        root_dir = h.root_dir;
        root = h.root;
        etc_dir = d;
        etc = (is_dir, old, apart);
        found = found;
        free = free;
      },
    )

-- /etc/hostname is a file that holds the name.
pub record Named (s : Store) (r : ℕ) (name : List ℕ) : Type 0 where
  pub etc : ℕ
  pub node : ℕ
  pub found : find (tmpfs_fs s) r etc_name ≡ some etc
  pub named : find (tmpfs_fs s) etc hostname_name ≡ some node
  pub content : File
  pub is_file : (s.nodes node).content ≡ file content
  pub size : content.size ≡ length name
  pub bytes : (i : ℕ) → i < length name → content.data_at i ≡ get_or name i 0

-- the two files in /etc
files-Named :
    (fresh hostname : Array ℕ) (s : Store) (r e : ℕ) (name : List ℕ)
    → Ready s r e
    → IsString hostname 0 name
    → Named
        (mkfile fresh e release_name
          (some (text release))
          30
          (mkfile fresh e hostname_name (some hostname) (length name) s).1).1
        r
        name
files-Named fresh hostname s r e name h str =
    let f : File = record { data_at = copy 0 0 (length name) hostname fresh; size = length name } in
    let g : File = record { data_at = copy 0 0 30 (text release) fresh; size = 30 } in
    let t : Store = (mkfile fresh e hostname_name (some hostname) (length name) s).1 in
    let u : Store = (mkfile fresh e release_name (some (text release)) 30 t).1 in
    let m =
      mkfile_lem s e h.etc_dir hostname_name h.closed h.etc.1 h.etc.0 fresh hostname
        (length name) in
    let d : Dir = dir_add h.etc_dir s.used in
    let old : e < t.used = omega (arith, m.used, h.etc.1) in
    let m2 = mkfile_lem t e d release_name m.closed old m.parent fresh (text release) 30 in
    let here : find (tmpfs_fs t) e hostname_name ≡ some s.used =
      finds-parent s e h.etc_dir hostname_name (file f) t m hostname_name h.etc.1
      ∙ ap (after_adding hostname_name s.used hostname_name) h.free
      ∙ rw ((same_name_iff hostname_name hostname_name).1 refl) refl in
    let apart : r ≢ e = λ q. h.etc.2 (sym q) in
    record {
      etc = e;
      node = s.used;
      found =
          finds-other t e d release_name (file g) u m2 r etc_name (omega (arith, m.used, h.root.1))
            apart
          ∙ finds-other s e h.etc_dir hostname_name (file f) t m r etc_name h.root.1 apart
          ∙ h.found;
      named =
          finds-parent t e d release_name (file g) u m2 hostname_name old
          ∙ ap (after_adding release_name t.used hostname_name) here;
      content = f;
      is_file =
          ap content (m2.others s.used (omega (arith, m.used)) (omega (arith, h.etc.1))) ∙ m.new;
      size = refl;
      bytes = λ i lt.
          ground (arith, lt, place i, IsString-get_or hostname 0 i name str (omega (arith, lt)));
    }
  where
    place : (i : ℕ) → hostname (0 + (i - 0)) ≡ hostname (0 + i)
    place i = ap hostname (omega arith)

-- With enough fuel `make_files` returns, and /etc/hostname is a file that holds the name.
pub make_files-Named :
    (fuel : ℕ) (fresh hostname : Array ℕ) (s : Store) (r : ℕ) (name : List ℕ)
    → Start s r
    → IsString hostname 0 name
    → length name < fuel
    → (s' : Store) × (make_files fuel fresh hostname r s ≡ some s') × Named s' r name
unfolding make_files
make_files-Named fuel fresh hostname s r name start str enough =
    let same : 0 + length name ≡ length name = omega arith in
    let counted : strlen fuel hostname 0 0 ≡ some (length name) =
      strlen_lem fuel hostname 0 0 name str enough ∙ ap some same in
    let (e, s1, q, ready) = find_etc-Ready s r start in
    let s2 : Store = (mkdir r home_name s1).1 in
    let s3 : Store = (mkdir r proc_name s2).1 in
    let ready3 : Ready s3 r e = mkdir-Ready s2 r e proc_name (mkdir-Ready s1 r e home_name ready) in
    (
      (mkfile fresh e release_name (some (text release)) 30
          (mkfile fresh e hostname_name (some hostname) (length name) s3).1).1,
      ap (λ (u : ℕ × Store). fill_root fuel fresh hostname r u.0 u.1) q
          ∙ rw (fill_root, counted) refl,
      files-Named fresh hostname s3 r e name ready3 str,
    )
