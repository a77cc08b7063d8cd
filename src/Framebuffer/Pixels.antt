-- ===== src/Framebuffer/Pixels.antt =====
-- Where the drawing of drivers/display/framebuffer.c writes.
use aerogel.Common.{
  ℕ, zero, suc, ◌+◌, ◌*◌, ◌/◌, ◌%◌, ◌^◌, ◌<◌, ◌≤◌, ◌≡◌, ◌≢◌, refl, ◌∙◌, arith, true, false, ◌==◌,
  ◌!=◌, if◌then◌else◌, inl, inr, ◌⊎◌, Bool-cases, List, [], get_or, bit_and,
}
use aerogel.Common.Array.{update, update_ne}
use aerogel.Libc.{Memory}
use aerogel.Framebuffer.Font.{font_8x16}
use aerogel.Framebuffer.Clear.{row_end}
use aerogel.Framebuffer.{
  Fb, word, write32, off_screen, put_pixel_32, put_pixel_24, pixel, char_row, char_rows, char,
  glyph_index, fb_font_h, fb_font_w,
}

-- A screen of 24 or 32 bits whose lines fit their pitch, in reach of 32 bits.
pub record IsScreen (fb : Fb) : Type 0 where
  pub depth :
      ((fb.bpp ≡ 24) × (fb.width * 3 ≤ fb.pitch)) ⊎ ((fb.bpp ≡ 32) × (fb.width * 4 ≤ fb.pitch))
  pub in_reach : fb.addr + fb.height * fb.pitch ≤ word

abbrev pub Outside : Fb → ℕ → Type 0
Outside fb k = (k < fb.addr) ⊎ (fb.addr + fb.height * fb.pitch ≤ k)

-- The memory outside the screen is as it was.
abbrev pub Inside : Fb → (m m' : Memory) → Type 0
Inside fb m m' = (k : ℕ) → Outside fb k → m' k ≡ m k

three_bytes :
    (m : Memory) (p a b c k : ℕ)
    → ((j : ℕ) → j < 3 → p + j ≢ k)
    → update (update (update m p a) (p + 1) b) (p + 2) c k ≡ m k
three_bytes m p a b c k away =
    update_ne (update (update m p a) (p + 1) b) (p + 2) k c (away 2 (omega arith))
    ∙ update_ne (update m p a) (p + 1) k b (away 1 (omega arith))
    ∙ update_ne m p k a (λ e. away 0 (omega arith) (omega (arith, e)))

four_bytes :
    (m : Memory) (p a b c d k : ℕ)
    → ((j : ℕ) → j < 4 → p + j ≢ k)
    → update (update (update (update m p a) (p + 1) b) (p + 2) c) (p + 3) d k ≡ m k
four_bytes m p a b c d k away =
    update_ne (update (update (update m p a) (p + 1) b) (p + 2) c) (p + 3) k d
      (away 3 (omega arith))
    ∙ three_bytes m p a b c k (λ j h. away j (omega arith))

module _ (fb : Fb) (v : IsScreen fb) where
  -- The `d` bytes of a pixel on the screen lie in the screen's memory.
  pixel_away :
      (d x y k j : ℕ)
      → d * fb.width ≤ fb.pitch
      → d * x + d ≤ d * fb.width
      → y < fb.height
      → j < d
      → Outside fb k
      → (fb.addr + y * fb.pitch + d * x) % word + j ≢ k
  pixel_away d x y k j fits hx hy hj out = elim out [
    | inl low ↦ omega (arith, low, v.in_reach, row_end y fb.height fb.pitch hy)
    | inr high ↦ omega (arith, high, v.in_reach, row_end y fb.height fb.pitch hy)
  ]

  on_screen :
      (x y : ℕ)
      → off_screen fb x y ≡ false
      → x < 2 ^ 16
      → y < 2 ^ 16
      → (x < fb.width) × (y < fb.height)
  on_screen x y h hx hy = ground (arith, h)

  put_pixel_32-Inside :
      (x y c : ℕ) (m : Memory)
      → fb.width * 4 ≤ fb.pitch
      → x < 2 ^ 16
      → y < 2 ^ 16
      → Inside fb m (put_pixel_32 fb x y c m)
  unfolding put_pixel_32 write32
  put_pixel_32-Inside x y c m fits hx hy k out = elim (Bool-cases (off_screen fb x y)) [
    | inl off ↦ rw off
    | inr on ↦ rw on (
        four_bytes m p (c % 256) (c / 2 ^ 8 % 256) (c / 2 ^ 16 % 256) (c / 2 ^ 24 % 256) k
          (away on))
  ]
    where
      p : ℕ
      p = (fb.addr + y * fb.pitch + x * 4) % word

      away : off_screen fb x y ≡ false → (j : ℕ) → j < 4 → p + j ≢ k
      away on j hj =
          let s : (x < fb.width) × (y < fb.height) = on_screen x y on hx hy in
          let far : (fb.addr + y * fb.pitch + 4 * x) % word + j ≢ k =
            pixel_away 4 x y k j (omega arith) (omega (arith, s.0)) s.1 hj out in
          λ e. far (omega (arith, e))

  put_pixel_24-Inside :
      (x y c : ℕ) (m : Memory)
      → fb.width * 3 ≤ fb.pitch
      → x < 2 ^ 16
      → y < 2 ^ 16
      → Inside fb m (put_pixel_24 fb x y c m)
  unfolding put_pixel_24
  put_pixel_24-Inside x y c m fits hx hy k out = elim (Bool-cases (off_screen fb x y)) [
    | inl off ↦ rw off
    | inr on ↦ rw on (three_bytes m p (c % 256) (c / 2 ^ 8 % 256) (c / 2 ^ 16 % 256) k (away on))
  ]
    where
      p : ℕ
      p = (fb.addr + y * fb.pitch + x * 3) % word

      away : off_screen fb x y ≡ false → (j : ℕ) → j < 3 → p + j ≢ k
      away on j hj =
          let s : (x < fb.width) × (y < fb.height) = on_screen x y on hx hy in
          let far : (fb.addr + y * fb.pitch + 3 * x) % word + j ≢ k =
            pixel_away 3 x y k j (omega arith) (omega (arith, s.0)) s.1 hj out in
          λ e. far (omega (arith, e))

  -- A pixel with coordinates below 2 ^ 16 writes to no byte outside the screen.
  pub pixel-Inside :
      (x y c : ℕ) (m : Memory) → x < 2 ^ 16 → y < 2 ^ 16 → Inside fb m (pixel fb x y c m)
  unfolding pixel
  pixel-Inside x y c m hx hy k out = elim v.depth [
    | inl d ↦
        let e : (fb.bpp == 32) ≡ false = ground (arith, d) in
        rw e (put_pixel_24-Inside x y c m d.1 hx hy k out)
    | inr d ↦
        let e : (fb.bpp == 32) ≡ true = ground (arith, d) in
        rw e (put_pixel_32-Inside x y c m d.1 hx hy k out)
  ]

  char_row-Inside :
      (n col x y bits fg bg : ℕ) (m : Memory)
      → x + col + n ≤ 2 ^ 16
      → y < 2 ^ 16
      → Inside fb m (char_row fb n col x y bits fg bg m)
  unfolding char_row
  char_row-Inside zero col x y bits fg bg m hx hy k out = refl
  char_row-Inside (suc n) col x y bits fg bg m hx hy k out =
      char_row-Inside n (col + 1) x y bits fg bg
        (pixel fb ((x + col) % word) y (if bit_and bits (0x80 / 2 ^ col) != 0 then fg else bg) m)
        (omega arith) hy k out
      ∙ pixel-Inside ((x + col) % word) y (if bit_and bits (0x80 / 2 ^ col) != 0 then fg else bg) m
          (omega arith) hy k out

  char_rows-Inside :
      (n row x y : ℕ) (glyph : List ℕ) (fg bg : ℕ) (m : Memory)
      → x + fb_font_w ≤ 2 ^ 16
      → y + row + n ≤ 2 ^ 16
      → Inside fb m (char_rows fb n row x y glyph fg bg m)
  unfolding char_rows
  char_rows-Inside zero row x y glyph fg bg m hx hy k out = refl
  char_rows-Inside (suc n) row x y glyph fg bg m hx hy k out =
      char_rows-Inside n (row + 1) x y glyph fg bg
        (char_row fb fb_font_w 0 x ((y + row) % word) (get_or glyph row 0) fg bg m) hx (omega arith)
        k out
      ∙ char_row-Inside fb_font_w 0 x ((y + row) % word) (get_or glyph row 0) fg bg m (omega arith)
          (omega arith) k out

  -- A character whose box has coordinates below 2 ^ 16, on the screen or beyond its edges, is clipped:
  -- no byte outside the screen changes.
  pub char-Inside :
      (x y ch fg bg : ℕ) (m : Memory)
      → x + fb_font_w ≤ 2 ^ 16
      → y + fb_font_h ≤ 2 ^ 16
      → Inside fb m (char fb x y ch fg bg m)
  unfolding char
  char-Inside x y ch fg bg m hx hy =
      char_rows-Inside fb_font_h 0 x y (get_or font_8x16 (glyph_index ch) []) fg bg m hx
        (omega arith)
