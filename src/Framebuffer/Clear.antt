-- ===== src/Framebuffer/Clear.antt =====
-- The two ways in which `fb_clear` of drivers/display/framebuffer.c paints the screen.
use aerogel.Common.{
  ℕ, zero, suc, ◌+◌, ◌*◌, ◌%◌, ◌^◌, ◌<◌, ◌≤◌, ◌≡◌, refl, sym, ap, ◌∙◌, arith, ap₂, Bool-cases, true,
  false, ◌==◌, ◌&&◌, ==_iff, inl, inr,
}
use native.Mathlib.Nat.{mul_assoc, mul_comm}
use aerogel.Libc.{Memory}
use aerogel.Framebuffer.{
  Fb, word, rounds, write32, off_screen, put_pixel_32, pixel, hline_loop, hline, fill_words,
  clear_rows, clear,
}

pub row_end : (y h w : ℕ) → y < h → y * w + w ≤ h * w
row_end y zero w lt = absurd (omega arith)
row_end y (suc h) w lt = elim (Bool-cases (y == h)) [
  | inl e ↦ let same : y ≡ h = (==_iff y h).0 e in rw same (omega arith)
  | inr e ↦ let below : y * w + w ≤ h * w = row_end y h w (ground (arith, e)) in omega arith
]

row_pitch : (y w : ℕ) → y * (w * 4) ≡ y * w * 4
row_pitch y w = sym (mul_assoc y w 4)

fill_words-cong :
    (p c : ℕ) (m : Memory) {n n' i i' : ℕ}
    → n ≡ n'
    → i ≡ i'
    → fill_words n i p c m ≡ fill_words n' i' p c m
fill_words-cong p c m e e' = ap₂ (λ n i. fill_words n i p c m) e e'

fill_words-add :
    (n k i p c : ℕ) (m : Memory)
    → fill_words (n + k) i p c m ≡ fill_words k (i + n) p c (fill_words n i p c m)
unfolding fill_words
fill_words-add zero k i p c m =
    fill_words-cong p c m {n = 0 + k} {n' = k} {i = i} {i' = i + 0} (omega arith) (omega arith)
fill_words-add (suc n) k i p c m =
    fill_words-cong p c m {n = suc n + k} {n' = suc (n + k)} (omega arith) refl
    ∙ fill_words-add n k (i + 1) p c (write32 (p + i * 4) c m)
    ∙ fill_words-cong p c (fill_words n (i + 1) p c (write32 (p + i * 4) c m)) {n = k}
        {i = i + 1 + n} {i' = i + suc n} refl (omega arith)

-- A true-colour screen without padding, in reach of 32 bits.
pub record IsPacked (fb : Fb) : Type 0 where
  pub deep : fb.bpp ≡ 32
  pub packed : fb.pitch ≡ fb.width * 4
  pub width_bound : fb.width < 2 ^ 16
  pub height_bound : fb.height < 2 ^ 16
  pub in_reach : fb.addr + fb.height * fb.width * 4 ≤ word

module _ (fb : Fb) (v : IsPacked fb) (c : ℕ) where
  -- the place of a pixel, which does not wrap
  place :
      (x y : ℕ)
      → x < fb.width
      → y < fb.height
      → (fb.addr + y * fb.pitch + (0 + x) % word * 4) % word ≡ fb.addr + (y * fb.width + x) * 4
  place x y hx hy =
      omega (arith, v.packed, v.width_bound, v.in_reach, row_end y fb.height fb.width hy, e)
    where
      e : y * fb.pitch ≡ y * fb.width * 4
      e = ap (λ p. y * p) v.packed ∙ row_pitch y fb.width

  on_screen : (x y : ℕ) → x < fb.width → y < fb.height → off_screen fb ((0 + x) % word) y ≡ false
  on_screen x y hx hy = ground (arith, v.width_bound, v.height_bound)

  pixel-write32 :
      (x y : ℕ) (m : Memory)
      → x < fb.width
      → y < fb.height
      → pixel fb ((0 + x) % word) y c m ≡ write32 (fb.addr + (y * fb.width + x) * 4) c m
  unfolding pixel put_pixel_32
  pixel-write32 x y m hx hy =
      rw (v.deep) (rw (on_screen x y hx hy) (ap (λ p. write32 p c m) (place x y hx hy)))

  hline_loop-fill_words :
      (n x y : ℕ) (m : Memory)
      → x + n ≤ fb.width
      → y < fb.height
      → hline_loop fb n x 0 y c m ≡ fill_words n (y * fb.width + x) fb.addr c m
  unfolding hline_loop fill_words
  hline_loop-fill_words zero x y m hx hy = refl
  hline_loop-fill_words (suc n) x y m hx hy =
      ap (hline_loop fb n (x + 1) 0 y c) (pixel-write32 x y m (omega arith) hy)
      ∙ hline_loop-fill_words n (x + 1) y (write32 (fb.addr + (y * fb.width + x) * 4) c m)
          (omega arith) hy
      ∙ fill_words-cong fb.addr c (write32 (fb.addr + (y * fb.width + x) * 4) c m) {n = n}
          {i = y * fb.width + (x + 1)} {i' = y * fb.width + x + 1} refl (omega arith)

  hline-fill_words :
      (y : ℕ) (m : Memory)
      → y < fb.height
      → hline fb 0 y fb.width c m ≡ fill_words fb.width (y * fb.width) fb.addr c m
  unfolding hline
  hline-fill_words y m hy =
      ap (λ n. hline_loop fb n 0 0 y c m) whole
      ∙ hline_loop-fill_words fb.width 0 y m (omega arith) hy
      ∙ fill_words-cong fb.addr c m refl (omega arith)
    where
      whole : rounds fb.width ≡ fb.width
      whole = ground (arith, v.width_bound)

  clear_rows-fill_words :
      (n y : ℕ) (m : Memory)
      → y + n ≤ fb.height
      → clear_rows fb n y c m ≡ fill_words (n * fb.width) (y * fb.width) fb.addr c m
  unfolding clear_rows fill_words
  clear_rows-fill_words zero y m h =
      fill_words-cong fb.addr c m {n = 0} {n' = 0 * fb.width} (omega arith) refl
  clear_rows-fill_words (suc n) y m h =
      ap (clear_rows fb n (y + 1) c) (hline-fill_words y m (omega arith))
      ∙ clear_rows-fill_words n (y + 1) line (omega arith)
      ∙ fill_words-cong fb.addr c line {n = n * fb.width} {i = (y + 1) * fb.width}
          {i' = y * fb.width + fb.width} refl (omega arith)
      ∙ sym (fill_words-add fb.width (n * fb.width) (y * fb.width) fb.addr c m)
      ∙ fill_words-cong fb.addr c m {n = fb.width + n * fb.width} {n' = suc n * fb.width}
          (omega arith) refl
    where
      line : Memory
      line = fill_words fb.width (y * fb.width) fb.addr c m

-- On a packed true-colour screen in reach of 32 bits the fast path of `fb_clear` leaves the memory that
-- painting each line, pixel by pixel, leaves.
pub clear-clear_rows :
    (fb : Fb) (c : ℕ) (m : Memory) → IsPacked fb → clear fb c m ≡ clear_rows fb fb.height 0 c m
unfolding clear
clear-clear_rows fb c m v = rw fast (
    fill_words-cong fb.addr c m {n = fb.width * fb.height % word} {n' = fb.height * fb.width} count
      (omega arith)
    ∙ sym (clear_rows-fill_words fb v c fb.height 0 m (omega arith)))
  where
    fast : ((fb.bpp == 32) && (fb.pitch == fb.width * 4)) ≡ true
    fast = ground (arith, v.deep, v.packed)

    commuted : fb.width * fb.height ≡ fb.height * fb.width
    commuted = mul_comm fb.width fb.height

    count : fb.width * fb.height % word ≡ fb.height * fb.width
    count = omega (arith, commuted, v.in_reach)
