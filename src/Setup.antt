-- ===== src/Setup.antt =====
-- The first start, userspace/setup/setup.c, over the file system in memory. `hostname` and `readln_buf` are
-- arrays of 64 bytes; what is shown on the console is left out.
pub mod Hostname
pub mod Files
pub mod Run
mod Tests
use aerogel.Common.{
  ℕ, ◌-◌, Bool, true, false, ltb, if◌then◌else◌, List, [], ◌∷◌, Option, none, some, get_or,
}
use aerogel.Common.Array.{Array}
use aerogel.Libc.{Memory, strlen, strncpy}
use aerogel.Keyboard.{KeyEvent}
use aerogel.Shell.{Line, edit_loop}
use aerogel.Vfs.{Vfs, resolve, vfs_finddir}
use aerogel.Tmpfs.{Store, mkdir, mkfile}
use aerogel.Tmpfs.Nodes.{tmpfs_fs}

abbrev pub buf_size : ℕ
buf_size = 64

abbrev pub text : List ℕ → Array ℕ
text s i = get_or s i 0

abbrev pub etc_name : List ℕ
etc_name = b'e' ∷ b't' ∷ b'c' ∷ []

abbrev pub home_name : List ℕ
home_name = b'h' ∷ b'o' ∷ b'm' ∷ b'e' ∷ []

abbrev pub proc_name : List ℕ
proc_name = b'p' ∷ b'r' ∷ b'o' ∷ b'c' ∷ []

abbrev pub hostname_name : List ℕ
hostname_name = b'h' ∷ b'o' ∷ b's' ∷ b't' ∷ b'n' ∷ b'a' ∷ b'm' ∷ b'e' ∷ []

abbrev pub release_name : List ℕ
release_name = b'o' ∷ b's' ∷ b'-' ∷ b'r' ∷ b'e' ∷ b'l' ∷ b'e' ∷ b'a' ∷ b's' ∷ b'e' ∷ []

abbrev pub default_name : List ℕ
default_name = b'a' ∷ b'e' ∷ b'r' ∷ b'o' ∷ b'g' ∷ b'e' ∷ b'l' ∷ []

-- "NAME=AerogelOS\nVERSION=0.1.0\n"
abbrev pub release : List ℕ
release =
    b'N' ∷ b'A' ∷ b'M' ∷ b'E' ∷ b'=' ∷ b'A' ∷ b'e' ∷ b'r' ∷ b'o' ∷ b'g' ∷ b'e' ∷ b'l' ∷ b'O' ∷ b'S'
    ∷ 0x0A ∷ b'V' ∷ b'E' ∷ b'R' ∷ b'S' ∷ b'I' ∷ b'O' ∷ b'N' ∷ b'=' ∷ b'0' ∷ b'.' ∷ b'1' ∷ b'.'
    ∷ b'0' ∷ 0x0A ∷ []

abbrev pub hostname_path : List ℕ
hostname_path =
    b'/' ∷ b'e' ∷ b't' ∷ b'c' ∷ b'/' ∷ b'h' ∷ b'o' ∷ b's' ∷ b't' ∷ b'n' ∷ b'a' ∷ b'm' ∷ b'e' ∷ []

pub readln : List KeyEvent → Line → Option (Line × List KeyEvent)
readln events s = edit_loop buf_size events (record s { buf = λ _. 0; buf_len = 0 })

-- `tail` is what stands behind the path buffer of `resolve`. No file system sets the hooks `open` and `close`.
pub setup_needed : (tail : List ℕ) → Store → Vfs ℕ → Bool
setup_needed tail s v = elim (resolve (tmpfs_fs s) tail hostname_path v) [
  | none ↦ true
  | some f ↦ false
]

-- the array `b` behind the array `a`
abbrev pub beside : (a b : Array ℕ) → Memory
beside a b i = if ltb i buf_size then a i else b (i - buf_size)

-- `hostname` after the line is read
pub set_hostname : Line → Array ℕ → Array ℕ
set_hostname line hostname =
    if ltb 0 line.buf_len
    then strncpy (beside hostname line.buf) 0 buf_size 63
    else strncpy (beside hostname (text default_name)) 0 buf_size 63

abbrev pub find_etc : ℕ → Store → ℕ × Store
find_etc root s = elim (vfs_finddir (tmpfs_fs s) (some root) etc_name) [
  | none ↦ mkdir root etc_name s
  | some etc ↦ (etc, s)
]

-- The files and directories once /etc is there, where `none` means that `strlen` runs out of fuel. What the
-- memory of a new file holds behind its bytes is `fresh`.
pub fill_root : (fuel : ℕ) (fresh hostname : Array ℕ) (root etc : ℕ) → Store → Option Store
fill_root fuel fresh hostname root etc s1 =
    let s2 = (mkdir root home_name s1).1 in
    let s3 = (mkdir root proc_name s2).1 in
    elim (strlen fuel hostname 0 0) [
      | none ↦ none
      | some len ↦
          let s4 = (mkfile fresh etc hostname_name (some hostname) len s3).1 in
          some (mkfile fresh etc release_name (some (text release)) 30 s4).1
    ]

pub make_files : (fuel : ℕ) (fresh hostname : Array ℕ) (root : ℕ) → Store → Option Store
unfolding fill_root
make_files fuel fresh hostname root s =
    let (etc, s1) = find_etc root s in fill_root fuel fresh hostname root etc s1

-- The host name, the line, the store and the events that are left; `none` where the events or the fuel do
-- not suffice.
pub setup_run :
    (fuel : ℕ) (fresh : Array ℕ) (tail : List ℕ) (hostname : Array ℕ) (line : Line)
    → Vfs ℕ
    → Store
    → List KeyEvent
    → Option (Array ℕ × Store × List KeyEvent)
unfolding readln set_hostname make_files
setup_run fuel fresh tail hostname line v s events = elim (readln events line) [
  | none ↦ none
  | some (typed, events1) ↦
      let name = set_hostname typed hostname in
      let made : Option Store = elim (resolve (tmpfs_fs s) tail (b'/' ∷ []) v) [
        | none ↦ some s
        | some root ↦ make_files fuel fresh name root s
      ] in
      elim made [
        | none ↦ none
        | some s' ↦ elim (readln events1 typed) [
          | none ↦ none
          | some (typed2, events2) ↦ some (name, s', events2)
        ]
      ]
]
