-- ===== src/Shell/Cat/Tests.antt =====
-- `cat /a`, where the file system in memory has one file, of 100 letters.
use aerogel.Common.{ℕ, ◌≡◌, refl, arith, [], ◌∷◌, none, some}
use aerogel.Vfs.{FileSystem, Vfs, find, resolve, vfs_read}
use aerogel.Vfs.Paths.{IsName, join_names, descend, resolve-join_names}
use aerogel.Tmpfs.{File}
use aerogel.Tmpfs
use aerogel.Tmpfs.Files.{read_up_to_end}
use aerogel.Shell.Cat.{printed, cmd_cat}
use aerogel.Shell.Cat.Output.{slice, ReadsFile, cmd_cat_lem}

abbrev letters : File
letters = record { data_at = λ i. b'x'; size = 100 }

-- Node 0 is the root, and node 1 the file.
abbrev disk : FileSystem ℕ
disk = record {
  flags = λ node. 1;
  read = λ node. some (Tmpfs.read letters);
  readdir = λ node. none;
  finddir = λ node. some (λ name. some 1);
}

abbrev mounted : Vfs ℕ
mounted = record { mounts = []; root = some 0 }

a-IsName : IsName (b'a' ∷ [])
a-IsName = record { no_slash = (omega arith, tt); nonempty = omega arith }

named : resolve disk [] (b'/' ∷ join_names (b'a' ∷ []) []) mounted ≡ some 1
unfolding descend find
named = resolve-join_names disk [] (b'a' ∷ []) [] 0 mounted refl a-IsName tt (omega arith)

letters-ReadsFile : ReadsFile 100 (λ i. b'x') (vfs_read disk (some 1))
unfolding vfs_read
letters-ReadsFile off buf le = read_up_to_end letters off 63 buf (omega arith) (omega arith) le

cmd_cat_lem_example :
    cmd_cat disk 101 [] (λ _. 0) (some (b'/' ∷ join_names (b'a' ∷ []) [])) mounted
    ≡ printed (some (slice (λ i. b'x') 0 100))
cmd_cat_lem_example =
    cmd_cat_lem disk 101 [] (b'/' ∷ join_names (b'a' ∷ []) []) (λ _. 0) mounted 1 100 (λ i. b'x')
      named refl letters-ReadsFile (λ j. omega arith) (omega arith) (omega arith)
