-- ===== src/Tmpfs/Tests.antt =====
-- A file of four bytes that a write makes longer, and a directory in an empty root directory.
use aerogel.Tmpfs.{Dir, dir, Store, mkdir}
use aerogel.Tmpfs.Nodes.{IsClosed}
use aerogel.Tmpfs.Tree.{Made, mkdir_lem, dir_eq}
use aerogel.Common.{[], ◌∷◌, refl, subst, All, ℕ, ◌+◌, ◌<◌, ◌≡◌, arith}
use aerogel.Common.Array.{Array}
use aerogel.Tmpfs.{File, read, write}
use aerogel.Tmpfs.Files.{read-write}

abbrev four_bytes : File
four_bytes = record { data_at = λ i. i + 1; size = 4 }

abbrev garbage : Array ℕ
garbage i = 99

abbrev source : Array ℕ
source i = i + 65

read-write_example :
    ((read (write garbage four_bytes 2 5 source).1 2 5 garbage).0 ≡ 5)
    × ((i : ℕ) → i < 5 → (read (write garbage four_bytes 2 5 source).1 2 5 garbage).1 i ≡ source i)
read-write_example = read-write garbage four_bytes 2 5 source garbage (omega arith) (omega arith)

abbrev no_entries : Dir
no_entries = record { entries = []; cap = 0 }

abbrev only_root : Store
only_root = record { nodes = λ n. record { name = b'/' ∷ []; content = dir no_entries }; used = 1 }

only_root-IsClosed : IsClosed only_root
only_root-IsClosed n d e = subst (λ (k : Dir). All (λ x. x < 1) k.entries) (dir_eq e) tt

mkdir_lem_example :
    Made only_root 0 no_entries
      (b't' ∷ [])
      (dir (record { entries = []; cap = 0 }))
      (mkdir 0 (b't' ∷ []) only_root).1
mkdir_lem_example =
    mkdir_lem only_root 0 no_entries (b't' ∷ []) only_root-IsClosed (omega arith) refl
