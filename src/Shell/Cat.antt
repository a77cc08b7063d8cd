-- ===== src/Shell/Cat.antt =====
-- The command `cat` of userspace/shell/shell.c, over the file system switch. The hooks `open` and `close` of a
-- node, which no file system sets, are left out. What is printed is the characters in their order.
pub mod Output
mod Tests
use aerogel.Common.{
  ℕ, zero, suc, ◌+◌, ◌%◌, ◌^◌, Bool, ◌==◌, ltb, if◌then◌else◌, List, [], ◌∷◌, ◌++◌, Option, none,
  some, bit_and,
}
use aerogel.Common.Array.{Array, update}
use aerogel.Vfs.{FileSystem, Vfs, vfs_file, resolve, vfs_read}

-- `sizeof(chunk) - 1`
abbrev pub chunk_room : ℕ
chunk_room = 63

-- the characters that `%s` prints of `n` bytes from index `i` on, which a NUL ends
pub text_of : (n : ℕ) → Array ℕ → (i : ℕ) → List ℕ
text_of zero chunk i = []
text_of (suc n) chunk i =
    let rest = text_of n chunk (i + 1) in if chunk i == 0 then [] else chunk i ∷ rest

-- The loop of `cmd_cat` from `off` on, where `out` is printed; `none` when the fuel runs out.
pub cat_loop :
    (fuel : ℕ) (read : ℕ → ℕ → Array ℕ → ℕ × Array ℕ) (off : ℕ) (chunk : Array ℕ) (out : List ℕ)
    → Option (List ℕ)
unfolding text_of
cat_loop zero read off chunk out = none
cat_loop (suc f) read off chunk out =
    let (n, got) = read off chunk_room chunk in
    let rest = cat_loop f read ((off + n) % 2 ^ 32) (update got n 0) (out ++ text_of n got 0) in
    if ltb 0 n then rest else some out

pub data CatResult : Type 0 where
  usage : CatResult
  not_found : CatResult
  printed : Option (List ℕ) → CatResult

-- `cmd_cat` once the path is resolved, where `chunk` is what the buffer holds at first
pub cat_node :
    {Node : Type 0} → FileSystem Node → (fuel : ℕ) → (chunk : Array ℕ) → Option Node → CatResult
unfolding cat_loop
cat_node fs fuel chunk none = not_found
cat_node fs fuel chunk (some f) =
    if bit_and (fs.flags f) vfs_file == 0
    then not_found
    else printed (cat_loop fuel (vfs_read fs (some f)) 0 chunk [])

-- `tail` is what stands behind the path buffer of `resolve`.
pub cmd_cat :
    {Node : Type 0}
    → FileSystem Node
    → (fuel : ℕ) → (tail : List ℕ) → (chunk : Array ℕ) → Option (List ℕ)
    → Vfs Node
    → CatResult
unfolding cat_node
cmd_cat fs fuel tail chunk none v = usage
cmd_cat fs fuel tail chunk (some path) v = cat_node fs fuel chunk (resolve fs tail path v)
