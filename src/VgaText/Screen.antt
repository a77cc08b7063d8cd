-- ===== src/VgaText/Screen.antt =====
-- The cursor of drivers/display/vga_text.c stays on the screen, and so do the writes.
use aerogel.Common.{
  ℕ, ◌+◌, ◌-◌, ◌*◌, ◌≤◌, ◌<◌, ◌≡◌, refl, ap, ◌∙◌, ◌&&◌, ltb, leb, ◌==◌, if◌then◌else◌, arith,
  Bool-cases, inl, inr, List, [], ◌∷◌, Option, none, some,
}
use aerogel.Io.{Access, out8}
use aerogel.VgaText.{
  Vga, vga_cols, vga_rows, crtc_data, crtc_addr, blank, update_cursor, scroll, clear, advance, putc,
  puts,
}
use aerogel.VgaText.Scroll.{fill_lem, scroll_lem}

-- The cursor lies on the screen.
pub record IsValid (s : Vga) : Type 0 where
  pub row_in : s.row < vga_rows
  pub col_in : s.col < vga_cols

-- The position that the last four port writes give to the hardware cursor.
abbrev pub hardware_cursor : List Access → Option ℕ
hardware_cursor (out8 d0 lo ∷ out8 a0 lo_index ∷ out8 d1 hi ∷ out8 a1 hi_index ∷ rest) =
    if (d0 == crtc_data)
      && (a0 == crtc_addr)
      && (lo_index == 0x0F)
      && (d1 == crtc_data)
      && (a1 == crtc_addr)
      && (hi_index == 0x0E)
    then some (hi * 256 + lo)
    else none
hardware_cursor outs = none

-- What every call of `vga_putc` keeps: the cursor on the screen, the hardware cursor with it, and the
-- memory behind the screen.
pub record Put (s t : Vga) : Type 0 where
  pub valid : IsValid t
  pub cursor : hardware_cursor t.outs ≡ some (t.row * vga_cols + t.col)
  pub frame : (j : ℕ) → 2000 ≤ j → t.cells j ≡ s.cells j
  pub attr : t.attr ≡ s.attr

cursor-update :
    (s : Vga) → IsValid s → hardware_cursor (update_cursor s).outs ≡ some (s.row * vga_cols + s.col)
unfolding update_cursor
cursor-update s v = ap some (omega (arith, v.row_in, v.col_in))

-- Before the test for the last line the cursor lies at most one line below the screen, at its start.
record Advanced (s t : Vga) : Type 0 where
  row_in : t.row ≤ vga_rows
  col_in : t.col < vga_cols
  frame : (j : ℕ) → 2000 ≤ j → t.cells j ≡ s.cells j
  attr : t.attr ≡ s.attr

advance_lem : (c : ℕ) (s : Vga) → IsValid s → Advanced s (advance c s)
unfolding advance
advance_lem c s v = record {
  row_in = ground (arith, v.row_in);
  col_in = ground (arith, v.col_in);
  frame = λ j h. ground (arith, v.row_in, v.col_in);
  attr = ground arith;
}

-- `vga_putc` keeps the cursor on the screen, sets the hardware cursor to it, and writes nothing behind
-- the screen, whatever the character.
pub putc_lem : (c : ℕ) {s : Vga} → IsValid s → Put s (putc c s)
unfolding putc
putc_lem c {s} v =
    let a = advance_lem c s v in
    elim (Bool-cases (leb vga_rows (advance c s).row)) [
      | inl below ↦
          let t : Vga = record (scroll (advance c s)) { row = vga_rows - 1 } in
          let v' : IsValid t =
            unfold scroll in record { row_in = omega arith; col_in = a.col_in } in
          rw below (record {
            valid = unfold update_cursor in record { row_in = v'.row_in; col_in = v'.col_in };
            cursor = unfold update_cursor in cursor-update t v';
            frame = λ j h.
                unfold update_cursor in ground (arith, scroll_lem (advance c s) j, a.frame j h);
            attr = unfold update_cursor scroll in a.attr;
          })
      | inr on ↦
          let v' : IsValid (advance c s) = record { row_in = ground arith; col_in = a.col_in } in
          rw on (record {
            valid = unfold update_cursor in record { row_in = v'.row_in; col_in = v'.col_in };
            cursor = unfold update_cursor in cursor-update (advance c s) v';
            frame = λ j h. unfold update_cursor in a.frame j h;
            attr = unfold update_cursor in a.attr;
          })
    ]

-- A printed text, of any length, keeps the cursor on the screen and the memory behind it.
pub puts-IsValid :
    (text : List ℕ) {s : Vga}
    → IsValid s
    → IsValid (puts text s) × ((j : ℕ) → 2000 ≤ j → (puts text s).cells j ≡ s.cells j)
unfolding puts
puts-IsValid [] v = (v, λ j h. refl)
puts-IsValid (c ∷ text) v =
    let p = putc_lem c v in
    let rest = puts-IsValid text p.valid in (rest.0, λ j h. rest.1 j h ∙ p.frame j h)

-- `vga_clear` blanks exactly the 2000 cells of the screen and puts the cursor at its start.
pub clear_lem :
    (s : Vga)
    → IsValid (clear s)
      × ((j : ℕ) → (clear s).cells j ≡ (if ltb j 2000 then blank s else s.cells j))
      × (hardware_cursor (clear s).outs ≡ some 0)
unfolding clear update_cursor
clear_lem s = (
  record { row_in = omega arith; col_in = omega arith },
  λ j. ground (arith, fill_lem 2000 0 (blank s) s.cells j),
  refl,
)
