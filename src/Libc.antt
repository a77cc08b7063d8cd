-- ===== src/Libc.antt =====
-- The string functions of libs/libc/src/string.c and stdlib.c, over one memory of bytes. An address is
-- a number. A loop that runs to a NUL takes fuel, and `none` says that no NUL came within it.
pub mod Copy
pub mod Strings
pub mod Padding
pub mod Numbers
mod Tests
use aerogel.Common.{
  ℕ, zero, suc, ◌+◌, ◌-◌, ◌*◌, ◌/◌, ◌%◌, Bool, true, false, ◌==◌, ◌!=◌, ltb, leb, ◌&&◌, ◌||◌,
  if◌then◌else◌, Option, none, some,
}
use aerogel.Common.Array.{Array, update}
use aerogel.Common.Int.{ℤ, pos, negsuc, sub_ℕ}

abbrev pub Memory : Type 0
Memory = Array ℕ

-- `(unsigned char)c`
pub memset : Memory → ℕ → ℕ → ℕ → Memory
memset m p c zero = m
memset m p c (suc n) = memset (update m p (c % 256)) (p + 1) c n

pub memcpy : Memory → ℕ → ℕ → ℕ → Memory
memcpy m d s zero = m
memcpy m d s (suc n) = memcpy (update m d (m s)) (d + 1) (s + 1) n

-- `while (n--) *--d = *--s;`
pub copy_down : Memory → ℕ → ℕ → ℕ → Memory
copy_down m d s zero = m
copy_down m d s (suc n) = copy_down (update m (d - 1) (m (s - 1))) (d - 1) (s - 1) n

-- The forward loop of `memmove` is that of `memcpy`.
pub memmove : Memory → ℕ → ℕ → ℕ → Memory
unfolding memcpy copy_down
memmove m d s n = if ltb d s then memcpy m d s n else copy_down m (d + n) (s + n) n

pub memcmp : Memory → ℕ → ℕ → ℕ → ℤ
memcmp m p q zero = pos 0
memcmp m p q (suc n) =
    let rest = memcmp m (p + 1) (q + 1) n in if m p != m q then sub_ℕ (m p) (m q) else rest

pub strlen : ℕ → Memory → ℕ → ℕ → Option ℕ
strlen zero m s n = none
strlen (suc f) m s n = let rest = strlen f m (s + 1) (n + 1) in if m s == 0 then some n else rest

pub strcmp : ℕ → Memory → ℕ → ℕ → Option ℤ
strcmp zero m a b = none
strcmp (suc f) m a b =
    let rest = strcmp f m (a + 1) (b + 1) in
    if (m a != 0) && (m a == m b) then rest else some (sub_ℕ (m a) (m b))

-- The loop ends with `n` wrapped to -1 exactly if it ended by the count.
pub strncmp : Memory → ℕ → ℕ → ℕ → ℤ
strncmp m a b zero = pos 0
strncmp m a b (suc n) =
    let rest = strncmp m (a + 1) (b + 1) n in
    if (m a != 0) && (m a == m b) then rest else sub_ℕ (m a) (m b)

pub strcpy : ℕ → Memory → ℕ → ℕ → Option Memory
strcpy zero m d s = none
strcpy (suc f) m d s =
    let m' = update m d (m s) in
    let rest = strcpy f m' (d + 1) (s + 1) in if m s == 0 then some m' else rest

-- `while (n && (*d++ = *src++)) n--;` and then `while (n--) *d++ = '\0';`
pub strncpy : Memory → ℕ → ℕ → ℕ → Memory
unfolding memset
strncpy m d s zero = m
strncpy m d s (suc n) =
    let m' = update m d (m s) in
    let rest = strncpy m' (d + 1) (s + 1) n in
    if m s == 0 then memset m' (d + 1) 0 (suc n) else rest

pub strcat : ℕ → Memory → ℕ → ℕ → Option Memory
unfolding strcpy
strcat zero m d s = none
strcat (suc f) m d s =
    let rest = strcat f m (d + 1) s in if m d != 0 then rest else strcpy (suc f) m d s

-- The address found, or `some none` for NULL. `c` is a char.
pub strchr : ℕ → Memory → ℕ → ℕ → Option (Option ℕ)
strchr zero m s c = none
strchr (suc f) m s c =
    let rest = strchr f m (s + 1) c in
    if m s != 0
    then (if m s == c then some (some s) else rest)
    else some (if c == 0 then some s else none)

-- `LONG_MAX`, where `w` is the number of values of `unsigned long`
abbrev pub long_max : ℕ → ℕ
long_max w = w / 2 - 1

abbrev pub is_digit : ℕ → Bool
is_digit c = leb 48 c && leb c 57

-- The digits of `atol`. Past `long_max` the C sum is undefined, and so `none`.
pub digits_loop : (w : ℕ) → ℕ → Memory → ℕ → ℕ → Option ℕ
digits_loop w zero m s acc = none
digits_loop w (suc f) m s acc =
    let next = acc * 10 + (m s - 48) in
    let rest = digits_loop w f m (s + 1) next in
    if is_digit (m s) then (if ltb (long_max w) next then none else rest) else some acc

pub skip_blanks : ℕ → Memory → ℕ → Option ℕ
skip_blanks zero m s = none
skip_blanks (suc f) m s =
    let rest = skip_blanks f m (s + 1) in if (m s == 32) || (m s == 9) then rest else some s

-- `sign * n`
abbrev pub negate : ℕ → ℤ
negate zero = pos 0
negate (suc n) = negsuc n

-- the sign and the digits
pub atol_at : (w : ℕ) → ℕ → Memory → ℕ → Option ℤ
unfolding digits_loop
atol_at w f m s =
    if m s == 45
    then (elim (digits_loop w f m (s + 1) 0) [ none ↦ none | some n ↦ some (negate n) ])
    else elim (digits_loop w f m (if m s == 43 then s + 1 else s) 0) [
      | none ↦ none
      | some n ↦ some (pos n)
    ]

pub atol : (w : ℕ) → ℕ → Memory → ℕ → Option ℤ
unfolding skip_blanks atol_at
atol w f m s = elim (skip_blanks f m s) [ none ↦ none | some t ↦ atol_at w f m t ]
