-- ===== src/Shell/Cat/Output.antt =====
-- What `cmd_cat` of userspace/shell/shell.c prints of a file.
use aerogel.Common.{
  ℕ, zero, suc, ◌+◌, ◌-◌, ◌%◌, ◌^◌, ◌<◌, ◌≤◌, ◌≡◌, ◌≢◌, min, refl, sym, ap, ap₂, ◌∙◌, arith, false,
  ◌==◌, ==_ne, ltb, Bool-cases, inl, inr, List, [], ◌∷◌, ◌++◌, append-nil, append_assoc, some,
  bit_and,
}
use aerogel.Common.Array.{Array, update}
use aerogel.Vfs.{FileSystem, Vfs, vfs_file, resolve, vfs_read}
use aerogel.Shell.Cat.{chunk_room, text_of, cat_loop, printed, cat_node, cmd_cat}

-- `n` bytes from `off` on
abbrev pub slice : (content : Array ℕ) (off n : ℕ) → List ℕ
slice content off zero = []
slice content off (suc n) = content off ∷ slice content (off + 1) n

slice-append :
    (content : Array ℕ) (m off n : ℕ)
    → slice content off m ++ slice content (off + m) n ≡ slice content off (m + n)
slice-append content zero off n = ap₂ (slice content) at none_before
  where
    none_before : n ≡ 0 + n
    none_before = omega arith

    at : off + 0 ≡ off
    at = omega arith
slice-append content (suc m) off n =
    ap (λ p. content off ∷ (slice content (off + 1) m ++ slice content p n)) at
    ∙ ap (λ l. content off ∷ l) (slice-append content m (off + 1) n)
    ∙ ap (slice content off) total
  where
    at : off + suc m ≡ off + 1 + m
    at = omega arith

    total : suc (m + n) ≡ suc m + n
    total = omega arith

-- Up to the end of the file, of `size` bytes, a read for a chunk gives the bytes that are there.
abbrev pub ReadsFile :
    (size : ℕ) (content : Array ℕ) (read : ℕ → ℕ → Array ℕ → ℕ × Array ℕ) → Type 0
ReadsFile size content read =
    (off : ℕ) (buf : Array ℕ)
    → off ≤ size
    → ((read off chunk_room buf).0 ≡ min chunk_room (size - off))
      × ((i : ℕ)
          → i < min chunk_room (size - off)
          → (read off chunk_room buf).1 i ≡ content (off + i))

text_of-slice :
    (content got : Array ℕ) (n off i : ℕ)
    → ((j : ℕ) → content j ≢ 0)
    → ((j : ℕ) → i ≤ j → j < i + n → got j ≡ content (off + (j - i)))
    → text_of n got i ≡ slice content off n
unfolding text_of
text_of-slice content got zero off i text same = refl
text_of-slice content got (suc n) off i text same =
    rw (first, ==_ne (content off) 0 (text off))
      (ap (λ l. content off ∷ l)
        (text_of-slice content got n (off + 1) (i + 1) text
          (λ j a b. same j (omega arith) (omega arith) ∙ ap content (omega arith))))
  where
    first : got i ≡ content off
    first = same i (omega arith) (omega arith) ∙ ap content (omega arith)

module _ (size : ℕ) (content : Array ℕ) (read : ℕ → ℕ → Array ℕ → ℕ × Array ℕ)
    (reads : ReadsFile size content read) (text : (j : ℕ) → content j ≢ 0)
    (low : size < 2 ^ 32) where
  cat_loop_lem :
      (fuel off : ℕ) (chunk : Array ℕ) (out : List ℕ)
      → off ≤ size
      → size < fuel + off
      → cat_loop fuel read off chunk out ≡ some (out ++ slice content off (size - off))
  unfolding cat_loop
  cat_loop_lem zero off chunk out le enough = absurd (omega (arith, le, enough))
  cat_loop_lem (suc f) off chunk out le enough =
      elim (Bool-cases (ltb 0 (read off chunk_room chunk).0)) [
        | inl more ↦
            let n = (read off chunk_room chunk).0 in
            let got = (read off chunk_room chunk).1 in
            let count = (reads off chunk le).0 in
            let in_file : off + n ≤ size = omega (arith, count, le) in
            let no_wrap : (off + n) % 2 ^ 32 ≡ off + n = omega (arith, in_file, low) in
            let read_text : text_of n got 0 ≡ slice content off n =
              text_of-slice content got n off 0 text (λ j a b.
                (reads off chunk le).1 j (omega (arith, b, count)) ∙ ap content (back off j)) in
            let rest : n + (size - (off + n)) ≡ size - off = omega (arith, in_file) in
            rw more (
              ap (λ o. cat_loop f read o (update got n 0) (out ++ text_of n got 0)) no_wrap
              ∙ ap (λ t. cat_loop f read (off + n) (update got n 0) (out ++ t)) read_text
              ∙ cat_loop_lem f (off + n) (update got n 0) (out ++ slice content off n) in_file
                  (ground (arith, more, enough))
              ∙ ap some (
                  append_assoc out (slice content off n)
                    (slice content (off + n) (size - (off + n)))
                  ∙ ap (λ l. out ++ l)
                      (slice-append content n off (size - (off + n))
                        ∙ ap (slice content off) rest)))
        | inr over ↦
            let nothing : 0 ≡ size - off = ground (arith, over, (reads off chunk le).0) in
            rw over (ap some (sym (append-nil out) ∙ ap (λ n. out ++ slice content off n) nothing))
      ]
    where
      back : (off j : ℕ) → off + j ≡ off + (j - 0)
      back off j = omega arith

-- Where reads of a node give the bytes of a file below 2 ^ 32 bytes, none of them NUL, `cat` of a path that
-- names the node prints all its bytes in their order, with fuel above their number.
pub cmd_cat_lem :
    {Node : Type 0} (fs : FileSystem Node) (fuel : ℕ) (tail path : List ℕ) (chunk : Array ℕ)
    (v : Vfs Node) (f : Node) (size : ℕ) (content : Array ℕ)
    → resolve fs tail path v ≡ some f
    → (bit_and (fs.flags f) vfs_file == 0) ≡ false
    → ReadsFile size content (vfs_read fs (some f))
    → ((j : ℕ) → content j ≢ 0)
    → size < 2 ^ 32
    → size < fuel
    → cmd_cat fs fuel tail chunk (some path) v ≡ printed (some (slice content 0 size))
unfolding cmd_cat cat_node
cmd_cat_lem fs fuel tail path chunk v f size content named is_file reads text low enough =
    ap (cat_node fs fuel chunk) named
    ∙ rw is_file (
        ap printed (
          cat_loop_lem size content (vfs_read fs (some f)) reads text low fuel 0 chunk []
            (omega arith) (omega arith)
          ∙ ap (λ n. some (slice content 0 n)) from_start))
  where
    from_start : size - 0 ≡ size
    from_start = omega arith
