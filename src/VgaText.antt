-- ===== src/VgaText.antt =====
-- The text screen, drivers/display/vga_text.c. The cell memory is an array indexed from `VGA_BASE`;
-- rows and columns are not negative. The cursor's port writes are kept, the newest first.
pub mod Scroll
pub mod Screen
mod Tests
use aerogel.Common.{
  ℕ, zero, suc, ◌+◌, ◌-◌, ◌*◌, ◌/◌, ◌%◌, Bool, ◌==◌, ltb, leb, if◌then◌else◌, List, [], ◌∷◌,
  bit_and, bit_or,
}
use aerogel.Common.Array.{Array, update}
use aerogel.Io.{Access, out8}

abbrev pub vga_cols : ℕ
vga_cols = 80

abbrev pub vga_rows : ℕ
vga_rows = 25

abbrev pub crtc_addr : ℕ
crtc_addr = 0x3D4

abbrev pub crtc_data : ℕ
crtc_data = 0x3D5

pub record Vga : Type 0 where
  pub cells : Array ℕ
  pub row : ℕ
  pub col : ℕ
  pub attr : ℕ
  pub outs : List Access

-- `(u8)((bg << 4) | (fg & 0x0F))`
pub make_attr : ℕ → ℕ → ℕ
make_attr fg bg = bit_or (bg * 16) (bit_and fg 0x0F) % 256

-- `(u16)(u8)c | ((u16)attr << 8)`: the two bytes share no bit
abbrev pub cell : ℕ → ℕ → ℕ
cell c attr = c % 256 + attr * 256 % 65536

abbrev pub blank : Vga → ℕ
blank s = cell b' ' s.attr

pub update_cursor : Vga → Vga
update_cursor s =
    let pos = (s.row * vga_cols + s.col) % 65536 in
    record s {
      outs =
          out8 crtc_data (pos % 256)
          ∷ out8 crtc_addr 0x0F
          ∷ out8 crtc_data (pos / 256)
          ∷ out8 crtc_addr 0x0E
          ∷ s.outs;
    }

-- one line of `scroll`, by the columns left
pub copy_row : ℕ → ℕ → ℕ → Array ℕ → Array ℕ
copy_row zero r c a = a
copy_row (suc n) r c a =
    copy_row n r (c + 1) (update a ((r - 1) * vga_cols + c) (a (r * vga_cols + c)))

-- the outer loop, by the rows left
pub copy_rows : ℕ → ℕ → Array ℕ → Array ℕ
unfolding copy_row
copy_rows zero r a = a
copy_rows (suc n) r a = copy_rows n (r + 1) (copy_row vga_cols r 0 a)

-- `n` cells from `i` on
pub fill : ℕ → ℕ → ℕ → Array ℕ → Array ℕ
fill zero i v a = a
fill (suc n) i v a = fill n (i + 1) v (update a i v)

pub scroll : Vga → Vga
scroll s = record s {
  cells = fill vga_cols ((vga_rows - 1) * vga_cols) (blank s) (copy_rows (vga_rows - 1) 1 s.cells);
}

pub clear : Vga → Vga
unfolding update_cursor
clear s =
    update_cursor
      (record s { cells = fill (vga_cols * vga_rows) 0 (blank s) s.cells; row = 0; col = 0 })

pub init : Vga → Vga
unfolding make_attr clear update_cursor
init s =
    let s1 = clear (record s { attr = make_attr 7 0 }) in
    update_cursor (record s1 {
      outs =
          out8 crtc_data 0x0F
          ∷ out8 crtc_addr 0x0B
          ∷ out8 crtc_data 0x0E
          ∷ out8 crtc_addr 0x0A
          ∷ s1.outs;
    })

pub set_color : ℕ → ℕ → Vga → Vga
unfolding make_attr
set_color fg bg s = record s { attr = make_attr fg bg }

pub set_pos : ℕ → ℕ → Vga → Vga
unfolding update_cursor
set_pos row col s = update_cursor (record s { row = row; col = col })

pub write_at : (row col c attr : ℕ) → Vga → Vga
write_at row col c attr s = record s { cells = update s.cells (row * vga_cols + col) (cell c attr) }

pub puts_at : (row col : ℕ) → List ℕ → (attr : ℕ) → Vga → Vga
unfolding write_at
puts_at row col [] attr s = s
puts_at row col (c ∷ text) attr s = puts_at row (col + 1) text attr (write_at row col c attr s)

-- the branches of `vga_putc`, before the test for the last line
pub advance : ℕ → Vga → Vga
advance c s =
    let at = s.row * vga_cols + s.col in
    if c == 10
    then record s { col = 0; row = s.row + 1 }
    else if c == 13
    then record s { col = 0 }
    else if c == 8
    then (if ltb 0 s.col
        then record s { col = s.col - 1; cells = update s.cells (at - 1) (blank s) }
        else s)
    else if c == 9
    then (let col' = s.col + 8 - (s.col + 8) % 8 in
        if leb vga_cols col'
        then record s { col = 0; row = s.row + 1 }
        else record s { col = col' })
    else (let s' = record s { cells = update s.cells at (cell c s.attr) } in
        if leb vga_cols (s.col + 1)
        then record s' { col = 0; row = s.row + 1 }
        else record s' { col = s.col + 1 })

pub putc : ℕ → Vga → Vga
unfolding update_cursor
putc c s =
    let s' = advance c s in
    update_cursor (if leb vga_rows s'.row then record (scroll s') { row = vga_rows - 1 } else s')

pub puts : List ℕ → Vga → Vga
puts [] s = s
puts (c ∷ text) s = puts text (putc c s)
