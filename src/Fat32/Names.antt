-- ===== src/Fat32/Names.antt =====
-- How long the names are that kernel/fs/fat32.c reads.
use aerogel.Common.{
  ℕ, zero, suc, ◌+◌, ◌%◌, ◌≤◌, arith, Bool, true, false, ◌&&◌, ◌!=◌, ltb, if◌then◌else◌, Bool-cases,
  inl, inr, List, [], ◌∷◌, ◌++◌, length, length-append,
}
use aerogel.Common.Array.{Array}
use aerogel.Fat32.{LongName, lfn_chars, lfn_entry, parse_lfn}

lfn_chars-le :
    (n j : ℕ) (name : Array ℕ) (out : List ℕ)
    → length out ≤ 255
    → length (lfn_chars n j name out) ≤ 255
unfolding lfn_chars
lfn_chars-le zero j name out h = h
lfn_chars-le (suc n) j name out h =
    elim (Bool-cases (ltb (length out) 255 && ((name j != 0) && (name j != 0xFFFF)))) [
      | inl e ↦ rw e (
          lfn_chars-le n (j + 1) name (out ++ name j % 256 ∷ [])
            (ground (arith, e, length-append out (name j % 256 ∷ []))))
      | inr e ↦ rw e h
    ]

lfn_entry-le : (l : LongName) (out : List ℕ) → length out ≤ 255 → length (lfn_entry l out) ≤ 255
unfolding lfn_entry
lfn_entry-le l out h =
    lfn_chars-le 2 0 l.name3 (lfn_chars 6 0 l.name2 (lfn_chars 5 0 l.name1 out))
      (lfn_chars-le 6 0 l.name2 (lfn_chars 5 0 l.name1 out) (lfn_chars-le 5 0 l.name1 out h))

-- Whatever the entries hold, a long name has at most 255 characters, which leaves room for its NUL.
pub parse_lfn-le :
    (lfns : List LongName) (out : List ℕ) → length out ≤ 255 → length (parse_lfn lfns out) ≤ 255
unfolding parse_lfn
parse_lfn-le [] out h = h
parse_lfn-le (l ∷ lfns) out h =
    choose (ltb (length out) 255) (parse_lfn-le lfns (lfn_entry l out) (lfn_entry-le l out h))
  where
    choose :
        (b : Bool)
        → length (parse_lfn lfns (lfn_entry l out)) ≤ 255
        → length (if b then parse_lfn lfns (lfn_entry l out) else out) ≤ 255
    choose true later = later
    choose false later = h
