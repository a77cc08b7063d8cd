-- ===== src/Gui.antt =====
-- The windows on the framebuffer, kernel/gui/gui.c. An `int` is the 32-bit word of its two's complement, as in
-- `Framebuffer`. A text is its characters without the NUL, and a window is its index.
pub mod Print
mod Tests
use aerogel.Common.{
  ℕ, zero, suc, ◌+◌, ◌-◌, ◌*◌, ◌/◌, ◌%◌, ◌^◌, Bool, true, false, not, ◌&&◌, ◌==◌, ltb, leb,
  if◌then◌else◌, List, [], ◌∷◌, ◌++◌, Option, none, some, take,
}
use aerogel.Common.Array.{Array, update}
use aerogel.Libc.{Memory}
use aerogel.Framebuffer.{
  Fb, word, fb_font_w, fb_font_h, clear, hline, rect, rect_outline, char, string,
}

abbrev pub titlebar_h : ℕ
titlebar_h = 20

abbrev pub border : ℕ
border = 2

abbrev pub max_windows : ℕ
max_windows = 8

-- `RGB(r, g, b)`, where the components share no bit
abbrev pub rgb : (r g b : ℕ) → ℕ
rgb r g b = (r * 2 ^ 16 + g * 2 ^ 8 + b) % word

-- `a - b` and `a > b` of two words as signed numbers
abbrev pub minus : ℕ → ℕ → ℕ
minus a b = (a + word - b) % word

abbrev pub more : ℕ → ℕ → Bool
more a b = ltb ((b + 2 ^ 31) % word) ((a + 2 ^ 31) % word)

-- `gui_window_t`; `on_key` is the function of a window's keys, where it has one
pub record Window : Type 0 where
  pub x : ℕ
  pub y : ℕ
  pub w : ℕ
  pub h : ℕ
  pub title : List ℕ
  pub visible : Bool
  pub bg_color : ℕ
  pub on_key : Option ℕ

-- the file's static variables, and the memory of the screen
pub record Gui : Type 0 where
  pub windows : Array Window
  pub nwindows : ℕ
  pub cursor_x : Array ℕ
  pub cursor_y : Array ℕ
  pub screen : Memory

-- `memset(win, 0, sizeof(*win))`
abbrev pub no_window : Window
no_window = record {
  x = 0;
  y = 0;
  w = 0;
  h = 0;
  title = [];
  visible = false;
  bg_color = 0;
  on_key = none;
}

abbrev pub win_bg : ℕ
win_bg = rgb 0xF0 0xF0 0xF0

abbrev pub title_active : ℕ
title_active = rgb 0x60 0x90 0xD0

abbrev pub white : ℕ
white = rgb 0xFF 0xFF 0xFF

abbrev pub red : ℕ
red = rgb 0xCC 0 0

-- "Aerogel OS v0.1.0" and "Phase 8"
abbrev pub banner : List ℕ
banner =
    b'A' ∷ b'e' ∷ b'r' ∷ b'o' ∷ b'g' ∷ b'e' ∷ b'l' ∷ b' ' ∷ b'O' ∷ b'S' ∷ b' ' ∷ b'v' ∷ b'0' ∷ b'.'
    ∷ b'1' ∷ b'.' ∷ b'0' ∷ []

abbrev pub phase : List ℕ
phase = b'P' ∷ b'h' ∷ b'a' ∷ b's' ∷ b'e' ∷ b' ' ∷ b'8' ∷ []

-- one piece of a window's text: the area is cleared, or a character is drawn
pub data Piece : Type 0 where
  blank : (x y w h c : ℕ) → Piece
  glyph : (x y ch fg bg : ℕ) → Piece

-- where the next character goes, and what was drawn for the text so far
pub record Pen : Type 0 where
  pub cx : ℕ
  pub cy : ℕ
  pub drawn : List Piece

-- `client_right` and `client_bot`
abbrev pub client_right : Window → ℕ
client_right win = minus (minus ((win.x + win.w) % word) border) 2

abbrev pub client_bot : Window → ℕ
client_bot win = minus (minus ((win.y + win.h) % word) border) 2

-- `*cx = 4; *cy += FB_FONT_H;`
pub new_line : Pen → Pen
new_line p = record p { cx = 4; cy = (p.cy + fb_font_h) % word }

-- the two tests for room, each with what it does
pub wrap : Window → Pen → Pen
unfolding new_line
wrap win p = if more ((win.x + p.cx + fb_font_w) % word) (client_right win) then new_line p else p

pub turn_page : Window → Pen → Pen
turn_page win p =
    if more ((win.y + p.cy + fb_font_h) % word) (client_bot win)
    then record p {
      cy = titlebar_h + 4;
      drawn =
          p.drawn
          ++ blank ((win.x + 2) % word) ((win.y + titlebar_h) % word) (minus win.w 4)
              (minus (minus win.h titlebar_h) 2) win.bg_color
            ∷ [];
    }
    else p

pub put : Window → (c fg : ℕ) → Pen → Pen
put win c fg p = record p {
  cx = (p.cx + fb_font_w) % word;
  drawn = p.drawn ++ glyph ((win.x + p.cx) % word) ((win.y + p.cy) % word) c fg win.bg_color ∷ [];
}

-- one round of the loop of `gui_window_print`
pub print_char : Window → (fg c : ℕ) → Pen → Pen
unfolding new_line wrap turn_page put
print_char win fg c p = if c == 0x0A then new_line p else put win c fg (turn_page win (wrap win p))

pub print_loop : Window → (fg : ℕ) → List ℕ → Pen → Pen
unfolding print_char
print_loop win fg [] p = p
print_loop win fg (c ∷ text) p = print_loop win fg text (print_char win fg c p)

module _ (fb : Fb) where
  -- the loop over the rows, `n` of them from `y` on, on a screen of less than 2 ^ 25 rows
  pub shade_loop : (n y : ℕ) → Memory → Memory
  shade_loop zero y m = m
  shade_loop (suc n) y m =
      let shade = y * 0x30 / fb.height % 256 in
      shade_loop n (y + 1) (hline fb 0 y fb.width (rgb 0 shade (0x80 + shade)) m)

  pub draw_desktop : Memory → Memory
  unfolding shade_loop
  draw_desktop m =
      let bar = rgb 0x20 0x40 0x80 in
      let top = minus fb.height 28 in
      let m1 = shade_loop fb.height 0 (clear fb (rgb 0 0 0x80) m) in
      let m2 = hline fb 0 top fb.width (rgb 0x60 0x90 0xD0) (rect fb 0 top fb.width 28 bar m1) in
      let m3 = string fb 8 ((top + 6) % word) banner white bar m2 in
      string fb (minus fb.width 100) ((top + 6) % word) phase (rgb 0 0xCC 0xCC) bar m3

  pub draw_window : Window → Memory → Memory
  draw_window win m =
      let cx = minus ((win.x + win.w) % word) 18 in
      let cy = (win.y + 3) % word in
      let m1 =
        rect fb win.x win.y win.w titlebar_h title_active
          (rect fb win.x win.y win.w win.h win_bg m) in
      let m2 = string fb ((win.x + 6) % word) cy win.title white title_active m1 in
      let m3 =
        string fb ((cx + 4) % word) ((cy + 1) % word) (b'x' ∷ []) white red
          (rect fb cx cy 14 14 red m2) in
      if not win.visible
      then m
      else rect_outline fb win.x win.y win.w win.h border (rgb 0x90 0xB0 0xD0) m3

  pub init : Gui → Gui
  unfolding draw_desktop
  init g = record g { windows = λ _. no_window; nwindows = 0; screen = draw_desktop g.screen }

  pub create_window : (title : List ℕ) (x y w h : ℕ) → Gui → Option ℕ × Gui
  create_window title x y w h g =
      let idx = g.nwindows in
      let win : Window = record {
        x = x;
        y = y;
        w = w;
        h = h;
        title = take 63 title;
        visible = true;
        bg_color = win_bg;
        on_key = none;
      } in
      if leb max_windows g.nwindows then (none, g) else (
        some idx,
        record {
          windows = update g.windows idx win;
          nwindows = idx + 1;
          cursor_x = update g.cursor_x idx 4;
          cursor_y = update g.cursor_y idx (titlebar_h + 4);
          screen = draw_window win g.screen;
        },
      )

  -- `n` windows from `i` on, but not the window `skipped`
  pub draw_loop : (n i : ℕ) (skipped : Option ℕ) → Array Window → Memory → Memory
  unfolding draw_window
  draw_loop zero i skipped windows m = m
  draw_loop (suc n) i skipped windows m =
      let skip : Bool = elim skipped [ none ↦ false | some k ↦ i == k ] in
      draw_loop n (i + 1) skipped windows (if skip then m else draw_window (windows i) m)

  pub draw_all : Gui → Gui
  unfolding draw_desktop draw_loop
  draw_all g = record g { screen = draw_loop g.nwindows 0 none g.windows (draw_desktop g.screen) }

  pub destroy_window : Option ℕ → Gui → Gui
  unfolding draw_desktop draw_loop
  destroy_window none g = g
  destroy_window (some k) g =
      let windows : Array Window = update g.windows k (record (g.windows k) { visible = false }) in
      record g {
        windows = windows;
        screen = draw_loop g.nwindows 0 (some k) windows (draw_desktop g.screen);
      }

  pub draw_piece : Piece → Memory → Memory
  draw_piece (blank x y w h c) m = rect fb x y w h c m
  draw_piece (glyph x y ch fg bg) m = char fb x y ch fg bg m

  pub draw_pieces : List Piece → Memory → Memory
  unfolding draw_piece
  draw_pieces [] m = m
  draw_pieces (p ∷ pieces) m = draw_pieces pieces (draw_piece p m)

  pub window_print : (k : ℕ) → List ℕ → (fg : ℕ) → Gui → Gui
  unfolding print_loop draw_pieces
  window_print k text fg g =
      let p =
        print_loop (g.windows k) fg text
          (record { cx = g.cursor_x k; cy = g.cursor_y k; drawn = [] }) in
      record g {
        cursor_x = update g.cursor_x k p.cx;
        cursor_y = update g.cursor_y k p.cy;
        screen = draw_pieces p.drawn g.screen;
      }

  pub window_clear : ℕ → Gui → Gui
  window_clear k g =
      let win = g.windows k in
      record g {
        cursor_x = update g.cursor_x k 4;
        cursor_y = update g.cursor_y k (titlebar_h + 4);
        screen =
            rect fb ((win.x + border) % word) ((win.y + titlebar_h) % word)
              (minus win.w (border * 2)) (minus (minus win.h titlebar_h) border) win.bg_color
              g.screen;
      }

-- the functions that `gui_dispatch_key` calls, over `n` windows from `i` on
pub key_loop : (n i : ℕ) → Array Window → List ℕ
key_loop zero i windows = []
key_loop (suc n) i windows =
    let rest = key_loop n (i + 1) windows in
    let called : List ℕ = elim (windows i).on_key [ none ↦ rest | some f ↦ f ∷ rest ] in
    if (windows i).visible then called else rest

pub dispatch_key : Gui → List ℕ
unfolding key_loop
dispatch_key g = key_loop g.nwindows 0 g.windows
