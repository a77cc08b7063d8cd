-- ===== src/Setup/Tests.antt =====
-- A first start with the root directory and an empty /etc, at which `pc` and Enter, and Enter, are typed.
use aerogel.Common.{
  zero, suc, ◌<◌, All, subst, ◌∙◌, ℕ, ◌≡◌, refl, arith, true, false, List, [], ◌∷◌, none, some, inr,
}
use aerogel.Common.Array.{Array}
use aerogel.Libc.Strings.{IsString}
use aerogel.Keyboard.{KeyEvent}
use aerogel.Shell.{Line}
use aerogel.Shell.Lines.{onto}
use aerogel.Vfs.{Vfs, find}
use aerogel.Tmpfs.{Dir, dir, Node, Store}
use aerogel.Tmpfs.Nodes.{tmpfs_fs, IsClosed, find_tmpfs}
use aerogel.Tmpfs.Tree.{dir_eq, no_child, find_entry-first}
use aerogel.Setup.{etc_name, hostname_name, setup_needed, setup_run}
use aerogel.Setup.Hostname.{chosen}
use aerogel.Setup.Files.{Start, Named}
use aerogel.Setup.Run.{setup_run_lem}

abbrev press : ℕ → KeyEvent
press c = record { scancode = 0; ascii = c; modifiers = 0; pressed = true }

abbrev typed : List KeyEvent
typed = press b'p' ∷ press b'c' ∷ press 0x0A ∷ press 0x0D ∷ []

abbrev nothing : Line
nothing = record { buf = λ _. 0; buf_len = 0; echo = [] }

abbrev root_entries : Dir
root_entries = record { entries = 1 ∷ []; cap = 4 }

abbrev no_entries : Dir
no_entries = record { entries = []; cap = 0 }

abbrev dirs : Array Node
dirs zero = record { name = b'/' ∷ []; content = dir root_entries }
dirs (suc n) = record { name = etc_name; content = dir no_entries }

abbrev two_dirs : Store
two_dirs = record { nodes = dirs; used = 2 }

abbrev mounted : Vfs ℕ
mounted = record { mounts = []; root = some 0 }

two_dirs-IsClosed : IsClosed two_dirs
two_dirs-IsClosed zero d e =
    subst (λ (k : Dir). All (λ x. x < 2) k.entries) (dir_eq e) (omega arith, tt)
two_dirs-IsClosed (suc n) d e = subst (λ (k : Dir). All (λ x. x < 2) k.entries) (dir_eq e) tt

etc_there : find (tmpfs_fs two_dirs) 0 etc_name ≡ some 1
etc_there = find_tmpfs two_dirs 0 etc_name ∙ rw (find_entry-first two_dirs etc_name 1 [] refl) refl

hostname_missing : find (tmpfs_fs two_dirs) 1 hostname_name ≡ none
hostname_missing = find_tmpfs two_dirs 1 hostname_name ∙ no_child two_dirs hostname_name

started : Start two_dirs 0
started = record {
  closed = two_dirs-IsClosed;
  root_dir = root_entries;
  root = (refl, omega arith);
  etc = inr (1, no_entries, etc_there, refl, omega arith, omega arith, hostname_missing);
}

setup_run_lem_example :
    (h : Array ℕ) × (s' : Store) × (setup_run 64 (λ _. 0) [] (λ _. 0) nothing mounted two_dirs typed
      ≡ some (h, s', []))
    × IsString h 0 (chosen (onto (b'c' ∷ b'p' ∷ []) []))
    × Named s' 0 (chosen (onto (b'c' ∷ b'p' ∷ []) []))
    × (setup_needed [] s' mounted ≡ false)
setup_run_lem_example =
    setup_run_lem 64 (λ _. 0) [] (λ _. 0) nothing mounted two_dirs typed (press 0x0D ∷ []) [] 0
      (b'c' ∷ b'p' ∷ []) [] (omega arith) refl refl started refl refl
