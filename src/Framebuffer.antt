-- ===== src/Framebuffer.antt =====
-- The linear framebuffer, drivers/display/framebuffer.c, over the memory of bytes. An `int` is the 32-bit
-- word of its two's complement, as in the casts of the source.
pub mod Font
pub mod Pixels
pub mod Clear
mod Tests
use aerogel.Common.{
  ℕ, zero, suc, ◌+◌, ◌-◌, ◌*◌, ◌/◌, ◌%◌, ◌^◌, Bool, true, false, not, ◌&&◌, ◌||◌, ◌==◌, ◌!=◌, ltb,
  leb, if◌then◌else◌, List, [], ◌∷◌, get_or, bit_and,
}
use aerogel.Common.Array.{Array, update}
use aerogel.Libc.{Memory}
use aerogel.Framebuffer.Font.{font_8x16}

-- `fb_info_t`
pub record Fb : Type 0 where
  pub addr : ℕ
  pub pitch : ℕ
  pub width : ℕ
  pub height : ℕ
  pub bpp : ℕ
  pub active : Bool

abbrev pub word : ℕ
word = 2 ^ 32

abbrev pub vbe_info_addr : ℕ
vbe_info_addr = 0x6000

abbrev pub vbe_flag_addr : ℕ
vbe_flag_addr = 0x5FFC

abbrev pub fb_font_w : ℕ
fb_font_w = 8

abbrev pub fb_font_h : ℕ
fb_font_h = 16

-- `*(u16 *)p` and `*(u32 *)p`
abbrev pub read16 : Memory → ℕ → ℕ
read16 m p = m p + m (p + 1) * 256

abbrev pub read32 : Memory → ℕ → ℕ
read32 m p = read16 m p + read16 m (p + 2) * 2 ^ 16

-- the number of rounds of a loop from 0 to `len`
abbrev pub rounds : ℕ → ℕ
rounds len = if ltb len (2 ^ 31) then len else 0

-- the block that the boot loader leaves
pub init : Memory → Fb → Fb
init m fb =
    let width = read16 m (vbe_info_addr + 0x12) in
    let height = read16 m (vbe_info_addr + 0x14) in
    let addr = read32 m (vbe_info_addr + 0x28) in
    if read32 m vbe_flag_addr != 1 then record fb { active = false } else record {
      pitch = read16 m (vbe_info_addr + 0x10);
      width = width;
      height = height;
      bpp = m (vbe_info_addr + 0x19);
      addr = addr;
      active = ltb 0 width && (ltb 0 height && ltb 0 addr);
    }

-- `*(u32 *)p = c`
pub write32 : (p c : ℕ) → Memory → Memory
write32 p c m =
    update
      (update (update (update m p (c % 256)) (p + 1) (c / 2 ^ 8 % 256)) (p + 2) (c / 2 ^ 16 % 256))
      (p + 3) (c / 2 ^ 24 % 256)

abbrev pub off_screen : Fb → (x y : ℕ) → Bool
off_screen fb x y = leb fb.width (x % 2 ^ 16) || leb fb.height (y % 2 ^ 16)

pub put_pixel_32 : Fb → (x y c : ℕ) → Memory → Memory
unfolding write32
put_pixel_32 fb x y c m =
    if off_screen fb x y then m else write32 ((fb.addr + y * fb.pitch + x * 4) % word) c m

pub put_pixel_24 : Fb → (x y c : ℕ) → Memory → Memory
put_pixel_24 fb x y c m =
    let p = (fb.addr + y * fb.pitch + x * 3) % word in
    if off_screen fb x y
    then m
    else update (update (update m p (c % 256)) (p + 1) (c / 2 ^ 8 % 256)) (p + 2) (c / 2 ^ 16 % 256)

pub pixel : Fb → (x y c : ℕ) → Memory → Memory
unfolding put_pixel_32 put_pixel_24
pixel fb x y c m = if fb.bpp == 32 then put_pixel_32 fb x y c m else put_pixel_24 fb x y c m

-- `n` pixels of the line, from the offset `i` on
pub hline_loop : Fb → ℕ → (i x y c : ℕ) → Memory → Memory
unfolding pixel
hline_loop fb zero i x y c m = m
hline_loop fb (suc n) i x y c m = hline_loop fb n (i + 1) x y c (pixel fb ((x + i) % word) y c m)

pub hline : Fb → (x y len c : ℕ) → Memory → Memory
unfolding hline_loop
hline fb x y len c m = hline_loop fb (rounds len) 0 x y c m

pub vline_loop : Fb → ℕ → (i x y c : ℕ) → Memory → Memory
unfolding pixel
vline_loop fb zero i x y c m = m
vline_loop fb (suc n) i x y c m = vline_loop fb n (i + 1) x y c (pixel fb x ((y + i) % word) c m)

pub vline : Fb → (x y len c : ℕ) → Memory → Memory
unfolding vline_loop
vline fb x y len c m = vline_loop fb (rounds len) 0 x y c m

-- `n` words from `p + 4 * i` on
pub fill_words : ℕ → (i p c : ℕ) → Memory → Memory
unfolding write32
fill_words zero i p c m = m
fill_words (suc n) i p c m = fill_words n (i + 1) p c (write32 (p + i * 4) c m)

pub clear_rows : Fb → ℕ → (y c : ℕ) → Memory → Memory
unfolding hline
clear_rows fb zero y c m = m
clear_rows fb (suc n) y c m = clear_rows fb n (y + 1) c (hline fb 0 y fb.width c m)

pub clear : Fb → ℕ → Memory → Memory
unfolding fill_words clear_rows
clear fb c m =
    if (fb.bpp == 32) && (fb.pitch == fb.width * 4)
    then fill_words (fb.width * fb.height % word) 0 fb.addr c m
    else clear_rows fb fb.height 0 c m

-- `n` rows from the offset `i` on
pub rect_loop : Fb → ℕ → (i x y w c : ℕ) → Memory → Memory
unfolding hline
rect_loop fb zero i x y w c m = m
rect_loop fb (suc n) i x y w c m =
    rect_loop fb n (i + 1) x y w c (hline fb x ((y + i) % word) w c m)

pub rect : Fb → (x y w h c : ℕ) → Memory → Memory
unfolding rect_loop
rect fb x y w h c m = rect_loop fb (rounds h) 0 x y w c m

pub rect_outline : Fb → (x y w h t c : ℕ) → Memory → Memory
unfolding rect
rect_outline fb x y w h t c m =
    rect fb ((x + w + (word - t)) % word) y t h c
      (rect fb x y t h c (rect fb x ((y + h + (word - t)) % word) w t c (rect fb x y w t c m)))

abbrev pub glyph_index : ℕ → ℕ
glyph_index ch = if leb 128 ch then b'?' else ch

-- the columns from `col` on of one row, whose pixels are `bits`
pub char_row : Fb → ℕ → (col x y bits fg bg : ℕ) → Memory → Memory
unfolding pixel
char_row fb zero col x y bits fg bg m = m
char_row fb (suc n) col x y bits fg bg m =
    char_row fb n (col + 1) x y bits fg bg
      (pixel fb ((x + col) % word) y (if bit_and bits (0x80 / 2 ^ col) != 0 then fg else bg) m)

pub char_rows : Fb → ℕ → (row x y : ℕ) → List ℕ → (fg bg : ℕ) → Memory → Memory
unfolding char_row
char_rows fb zero row x y glyph fg bg m = m
char_rows fb (suc n) row x y glyph fg bg m =
    char_rows fb n (row + 1) x y glyph fg bg
      (char_row fb fb_font_w 0 x ((y + row) % word) (get_or glyph row 0) fg bg m)

pub char : Fb → (x y ch fg bg : ℕ) → Memory → Memory
unfolding char_rows
char fb x y ch fg bg m = char_rows fb fb_font_h 0 x y (get_or font_8x16 (glyph_index ch) []) fg bg m

pub string : Fb → (x y : ℕ) → List ℕ → (fg bg : ℕ) → Memory → Memory
unfolding char
string fb x y [] fg bg m = m
string fb x y (ch ∷ s) fg bg m =
    string fb ((x + fb_font_w) % word) y s fg bg (char fb x y ch fg bg m)
