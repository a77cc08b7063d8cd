-- ===== src/Setup/Hostname.antt =====
-- The host name that userspace/setup/setup.c keeps.
use aerogel.Common.{
  ℕ, zero, suc, ◌+◌, ◌-◌, ◌<◌, ◌≤◌, ◌≡◌, refl, sym, ap, ◌∙◌, arith, ltb, leb, lt→ltb, ◌&&◌,
  if◌then◌else◌, Bool-cases, inl, inr, List, [], ◌∷◌, length, get_or, subst,
}
use aerogel.Common.Array.{Array}
use aerogel.Libc.{Memory, strncpy}
use aerogel.Libc.Strings.{IsString}
use aerogel.Libc.Padding.{written, strncpy_lem}
use aerogel.Shell.{Line}
use aerogel.Setup.{buf_size, text, default_name, beside, set_hostname}

-- a string that stands elsewhere too
IsString-moved :
    (m m' : Memory) (p q : ℕ) (s : List ℕ)
    → IsString m p s
    → ((j : ℕ) → j ≤ length s → m' (q + j) ≡ m (p + j))
    → IsString m' q s
IsString-moved m m' p q [] h same =
    ap m' (omega arith) ∙ same 0 (omega arith) ∙ ap m (omega arith) ∙ h
IsString-moved m m' p q (c ∷ s) h same = (
  ap m' (omega arith) ∙ same 0 (omega arith) ∙ ap m (omega arith) ∙ h.0,
  h.1,
  IsString-moved m m' (p + 1) (q + 1) s h.2
      (λ j le. ap m' (omega arith) ∙ same (j + 1) (omega (arith, le)) ∙ ap m (omega arith)),
)

pub IsString-get_or :
    (m : Memory) (p j : ℕ) (s : List ℕ) → IsString m p s → j ≤ length s → m (p + j) ≡ get_or s j 0
IsString-get_or m p zero [] h le = ap m (omega arith) ∙ h
IsString-get_or m p (suc j) [] h le = absurd (omega (arith, le))
IsString-get_or m p zero (c ∷ s) h le = ap m (omega arith) ∙ h.0
IsString-get_or m p (suc j) (c ∷ s) h le =
    ap m (omega arith) ∙ IsString-get_or m (p + 1) j s h.2 (omega (arith, le))

get_or_end : (s : List ℕ) (j : ℕ) → length s ≤ j → get_or s j 0 ≡ 0
get_or_end [] j h = refl
get_or_end (c ∷ s) zero h = absurd (omega (arith, h))
get_or_end (c ∷ s) (suc j) h = get_or_end s j (omega (arith, h))

-- The 63 bytes copied, and the last byte of `hostname`, hold the string.
copied-IsString :
    (hostname b : Array ℕ) (s : List ℕ)
    → hostname 63 ≡ 0
    → IsString b 0 s
    → length s < buf_size
    → IsString (strncpy (beside hostname b) 0 buf_size 63) 0 s
copied-IsString hostname b s last h lt =
    IsString-moved b (strncpy (beside hostname b) 0 buf_size 63) 0 0 s h (λ j le.
      ap (strncpy (beside hostname b) 0 buf_size 63) (omega arith)
      ∙ strncpy_lem (beside hostname b) 0 buf_size 63 j s at_line (inl (omega arith))
      ∙ kept j le)
  where
    at_line : IsString (beside hostname b) buf_size s
    at_line = IsString-moved b (beside hostname b) 0 buf_size s h (λ j le. ground (arith, moved j))
      where
        moved : (j : ℕ) → b (64 + j - 64) ≡ b (0 + j)
        moved j = ap b (omega arith)

    kept :
        (j : ℕ)
        → j ≤ length s
        → (if leb 0 j && ltb j (0 + written 63 s) then get_or s (j - 0) 0 else beside hostname b j)
          ≡ b (0 + j)
    kept j le = elim (Bool-cases (ltb j 63)) [
      | inl early ↦ ground (arith, IsString-get_or b 0 j s h le, early, le)
      | inr late ↦
          let e : j ≡ 63 = ground (arith, late, le, lt) in
          ground (
            arith,
            IsString-get_or b 0 j s h le,
            get_or_end s j (omega (arith, le, lt, e)),
            ap hostname e ∙ last,
            late,
            e,
          )
    ]

-- The name chosen: the characters of the line, or "aerogel" where there are none.
abbrev pub chosen : List ℕ → List ℕ
chosen [] = default_name
chosen (c ∷ l) = c ∷ l

pub set_hostname_lem :
    (line : Line) (hostname : Array ℕ) (l : List ℕ)
    → hostname 63 ≡ 0
    → IsString line.buf 0 l
    → line.buf_len ≡ length l
    → length l < buf_size
    → IsString (set_hostname line hostname) 0 (chosen l)
unfolding set_hostname
set_hostname_lem line hostname [] last h n lt =
    rw n
      (copied-IsString hostname (text default_name) default_name last (omega arith) (omega arith))
set_hostname_lem line hostname (c ∷ l) last h n lt =
    subst (λ m. IsString m 0 (c ∷ l)) (sym typed)
      (copied-IsString hostname line.buf (c ∷ l) last h lt)
  where
    typed : set_hostname line hostname ≡ strncpy (beside hostname line.buf) 0 buf_size 63
    typed = rw (lt→ltb 0 line.buf_len (omega (arith, n))) refl

pub chosen-lt : (l : List ℕ) → length l < buf_size → length (chosen l) < buf_size
chosen-lt [] h = omega arith
chosen-lt (c ∷ l) h = h
