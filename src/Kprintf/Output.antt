-- ===== src/Kprintf/Output.antt =====
-- What `kprintf` of libs/libk/kprintf.c gives the function that prints.
use aerogel.Common.{
  Bool-cases, inl, inr, ==_iff, ℕ, suc, ◌+◌, ◌<◌, ◌≤◌, ◌≡◌, ◌≢◌, refl, ap, ◌∙◌, arith, ◌&&◌, ◌==◌,
  ltb, if◌then◌else◌, List, [], ◌∷◌, some, length, get_or, All,
}
use aerogel.Libc.{Memory}
use aerogel.Libc.Strings.{IsString}
use aerogel.Printf.{Arg}
use aerogel.Printf.Text.{render}
use aerogel.Printf.Output.{vsnprintf_lem}
use aerogel.Kprintf.{buf_size, kvprintf, kprintf}

IsString-from :
    (m : Memory) (p : ℕ) (t : List ℕ)
    → All (λ c. c ≢ 0) t
    → ((j : ℕ) → j ≤ length t → m (p + j) ≡ get_or t j 0)
    → IsString m p t
IsString-from m p [] h same = ap m (omega arith) ∙ same 0 (omega arith)
IsString-from m p (c ∷ t) h same = (
  ap m (omega arith) ∙ same 0 (omega arith),
  h.0,
  IsString-from m (p + 1) t h.1 (λ j le. ap m (omega arith) ∙ same (suc j) (omega (arith, le))),
)

-- Where the format renders to a text without NUL, the function that prints is called once. A text of less than 1024
-- characters reaches it as a string, and nothing behind the buffer has changed. A longer one overwrites a byte
-- behind the buffer.
pub kprintf_lem :
    {S : Type 0} (print : Memory → S → S) (w : ℕ) (fmt : List ℕ) (args : List Arg) (buf : Memory)
    (s : S) {t : List ℕ}
    → render w fmt args ≡ some t
    → All (λ c. c ≢ 0) t
    → (m : Memory) × (kprintf (some print) w fmt args buf s ≡ some (print m s))
      × (length t < buf_size → IsString m 0 t)
      × (length t < buf_size → (j : ℕ) → buf_size ≤ j → m j ≡ buf j)
      × (buf_size ≤ length t → m (length t) ≡ 0)
unfolding kprintf
kprintf_lem {S} print w fmt args buf s {t} e h =
    let (m, n, ran, p) = vsnprintf_lem w buf_size fmt args buf e in
    (
      m,
      rw (kvprintf, ran) refl,
      λ fits. IsString-from m 0 t h (λ j le. ap m (omega arith) ∙ p.bytes j ∙ inside j fits le),
      λ fits j out. p.bytes j ∙ ground (arith, fits, out),
      λ long. p.bytes (length t) ∙ ground arith,
    )
  where
    ends : (t : List ℕ) → get_or t (length t) 0 ≡ 0
    ends [] = refl
    ends (c ∷ t) = ends t

    inside :
        (j : ℕ)
        → length t < buf_size
        → j ≤ length t
        → (if ltb 0 buf_size && (j == length t)
            then 0
            else if ltb j (length t) && ltb (j + 1) buf_size
            then get_or t j 0
            else buf j)
          ≡ get_or t j 0
    inside j fits le = elim (Bool-cases (j == length t)) [
      | inl last ↦
          ground (arith, last, ap (λ k. get_or t k 0) ((==_iff j (length t)).0 last) ∙ ends t)
      | inr before ↦ ground (arith, before, fits, le)
    ]
