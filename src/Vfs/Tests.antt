-- ===== src/Vfs/Tests.antt =====
-- A tree with the directories 0 and 1 and the file 2, which is /etc/rc.
use aerogel.Common.{ℕ, ◌≡◌, refl, arith, ◌==◌, if◌then◌else◌, List, [], ◌∷◌, Option, none, some}
use aerogel.Vfs.{FileSystem, Vfs, resolve}
use aerogel.Vfs.Paths.{IsName, join_names, descend, resolve-join_names}

abbrev etc : List ℕ
etc = b'e' ∷ b't' ∷ b'c' ∷ []

abbrev rc : List ℕ
rc = b'r' ∷ b'c' ∷ []

abbrev child : ℕ → List ℕ → Option ℕ
child node [] = none
child node (c ∷ name) = if c == b'e' then some 1 else if c == b'r' then some 2 else none

abbrev tree : FileSystem ℕ
tree = record {
  flags = λ node. 2;
  read = λ node. none;
  readdir = λ node. none;
  finddir = λ node. some (child node);
}

abbrev mounted : Vfs ℕ
mounted = record { mounts = []; root = some 0 }

etc-IsName : IsName etc
etc-IsName = record {
  no_slash = (omega arith, (omega arith, (omega arith, tt)));
  nonempty = omega arith;
}

rc-IsName : IsName rc
rc-IsName = record { no_slash = (omega arith, (omega arith, tt)); nonempty = omega arith }

resolve-join_names_example :
    resolve tree [] (b'/' ∷ join_names etc (rc ∷ [])) mounted ≡ descend tree 0 (etc ∷ rc ∷ [])
resolve-join_names_example =
    resolve-join_names tree [] etc (rc ∷ []) 0 mounted refl etc-IsName (rc-IsName, tt) (omega arith)
