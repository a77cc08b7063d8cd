-- ===== src/Gui/Print.antt =====
-- Where `gui_window_print` of kernel/gui/gui.c draws.
use aerogel.Common.{
  ◌≢◌, ==_self, ℕ, suc, ◌+◌, ◌-◌, ◌*◌, ◌%◌, ◌^◌, ◌<◌, ◌≤◌, ◌≡◌, refl, sym, ap, ◌∙◌, subst, arith,
  true, false, ◌==◌, ltb, leb, if◌then◌else◌, Bool-cases, inl, inr, List, [], ◌∷◌, ◌++◌, some,
  length, append-nil, All,
}
use aerogel.Common.Array.{update, update_self, update_ne}
use aerogel.Framebuffer.{Fb, word, fb_font_w, fb_font_h}
use aerogel.Gui.{
  titlebar_h, max_windows, minus, more, Window, Gui, Piece, blank, glyph, Pen, client_right,
  client_bot, new_line, wrap, turn_page, put, print_char, print_loop, draw_pieces, window_print,
  create_window,
}

-- A window whose edges are small numbers, with room for one character at least.
pub record IsRoomy (win : Window) : Type 0 where
  pub left : win.x < 2 ^ 15
  pub top : win.y < 2 ^ 15
  pub width : (16 ≤ win.w) × (win.w < 2 ^ 15)
  pub height : (44 ≤ win.h) × (win.h < 2 ^ 15)

-- A character lies in the client area, and what is cleared lies in the window, below the title bar.
abbrev pub IsWithin : Window → Piece → Type 0
IsWithin win (glyph px py c fg bg) =
    (win.x + 4 ≤ px)
    × (px + fb_font_w + 4 ≤ win.x + win.w)
    × (win.y + titlebar_h + 4 ≤ py)
    × (py + fb_font_h + 4 ≤ win.y + win.h)
IsWithin win (blank px py w h c) =
    (win.x ≤ px) × (px + w ≤ win.x + win.w) × (win.y + titlebar_h ≤ py) × (py + h ≤ win.y + win.h)

-- The cursor is in the window's columns, below the title bar, and `n` more lines keep it a small number.
pub record IsPen (win : Window) (n : ℕ) (p : Pen) : Type 0 where
  pub column : (4 ≤ p.cx) × (p.cx ≤ win.w)
  pub line : titlebar_h + 4 ≤ p.cy
  pub small : p.cy + fb_font_h * n < 2 ^ 30
  pub within : All (IsWithin win) p.drawn

-- the characters that are drawn, each with its colour and its background
abbrev pub glyphs : List Piece → List (ℕ × ℕ × ℕ)
glyphs [] = []
glyphs (blank x y w h c ∷ pieces) = glyphs pieces
glyphs (glyph x y ch fg bg ∷ pieces) = (ch, fg, bg) ∷ glyphs pieces

-- the characters of a text but its line ends
abbrev pub printable : (fg bg : ℕ) → List ℕ → List (ℕ × ℕ × ℕ)
printable fg bg [] = []
printable fg bg (c ∷ text) =
    let rest = printable fg bg text in if c == 0x0A then rest else (c, fg, bg) ∷ rest

glyphs-blank : (ps : List Piece) (x y w h c : ℕ) → glyphs (ps ++ blank x y w h c ∷ []) ≡ glyphs ps
glyphs-blank [] x y w h c = refl
glyphs-blank (blank x' y' w' h' c' ∷ ps) x y w h c = glyphs-blank ps x y w h c
glyphs-blank (glyph x' y' ch fg bg ∷ ps) x y w h c =
    ap (λ l. (ch, fg, bg) ∷ l) (glyphs-blank ps x y w h c)

glyphs-glyph :
    (ps : List Piece) (x y ch fg bg : ℕ) (later : List (ℕ × ℕ × ℕ))
    → glyphs (ps ++ glyph x y ch fg bg ∷ []) ++ later ≡ glyphs ps ++ (ch, fg, bg) ∷ later
glyphs-glyph [] x y ch fg bg later = refl
glyphs-glyph (blank x' y' w' h' c' ∷ ps) x y ch fg bg later = glyphs-glyph ps x y ch fg bg later
glyphs-glyph (glyph x' y' ch' fg' bg' ∷ ps) x y ch fg bg later =
    ap (λ l. (ch', fg', bg') ∷ l) (glyphs-glyph ps x y ch fg bg later)

-- Neither test for room draws a character.
glyphs-tests : (win : Window) (p : Pen) → glyphs (turn_page win (wrap win p)).drawn ≡ glyphs p.drawn
unfolding turn_page wrap new_line
glyphs-tests win p =
    elim (Bool-cases (more ((win.x + p.cx + fb_font_w) % word) (client_right win))) [
      | inl full ↦ rw full (page (new_line p))
      | inr room ↦ rw room (page p)
    ]
  where
    page : (q : Pen) → glyphs (turn_page win q).drawn ≡ glyphs q.drawn
    page q = elim (Bool-cases (more ((win.y + q.cy + fb_font_h) % word) (client_bot win))) [
      | inl full ↦ rw full (glyphs-blank q.drawn _ _ _ _ _)
      | inr room ↦ rw room refl
    ]

-- One round draws its character, where that is not a line end.
glyphs-print_char :
    (win : Window) (fg c : ℕ) (p : Pen) (later : List (ℕ × ℕ × ℕ))
    → glyphs (print_char win fg c p).drawn ++ later
      ≡ glyphs p.drawn ++ (if c == 0x0A then later else (c, fg, win.bg_color) ∷ later)
unfolding print_char put new_line
glyphs-print_char win fg c p later = elim (Bool-cases (c == 0x0A)) [
  | inl line ↦ rw line refl
  | inr char ↦ rw char (
      glyphs-glyph (turn_page win (wrap win p)).drawn _ _ c fg win.bg_color later
      ∙ ap (λ l. l ++ (c, fg, win.bg_color) ∷ later) (glyphs-tests win p))
]

-- The characters of a text are drawn in order.
glyphs-print_loop :
    (win : Window) (fg : ℕ) (text : List ℕ) (p : Pen)
    → glyphs (print_loop win fg text p).drawn ≡ glyphs p.drawn ++ printable fg win.bg_color text
unfolding print_loop
glyphs-print_loop win fg [] p = sym (append-nil (glyphs p.drawn))
glyphs-print_loop win fg (c ∷ text) p =
    glyphs-print_loop win fg text (print_char win fg c p)
    ∙ glyphs-print_char win fg c p (printable fg win.bg_color text)

All-snoc :
    (win : Window) (ps : List Piece) (p : Piece)
    → All (IsWithin win) ps
    → IsWithin win p
    → All (IsWithin win) (ps ++ p ∷ [])
All-snoc win [] p h q = (q, tt)
All-snoc win (x ∷ ps) p h q = (h.0, All-snoc win ps p h.1 q)

more_small : (a b : ℕ) → a < 2 ^ 31 → b < 2 ^ 31 → more a b ≡ ltb b a
more_small a b h k = ground (arith, h, k)

module _ (win : Window) (roomy : IsRoomy win) where
  right_lem : client_right win ≡ win.x + win.w - 4
  right_lem = omega (arith, roomy.left, roomy.width)

  bot_lem : client_bot win ≡ win.y + win.h - 4
  bot_lem = omega (arith, roomy.top, roomy.height)

  new_line-IsPen : (n : ℕ) (p : Pen) → IsPen win (suc n) p → IsPen win n (new_line p)
  unfolding new_line
  new_line-IsPen n p v = record {
    column = (omega arith, omega (arith, roomy.width));
    line = omega (arith, v.line, v.small);
    small = omega (arith, v.small);
    within = v.within;
  }

  -- After the first test there is room in the row.
  wrap-IsPen :
      (n : ℕ) (p : Pen)
      → IsPen win (suc n) p
      → IsPen win n (wrap win p) × ((wrap win p).cx + fb_font_w + 4 ≤ win.w)
  unfolding wrap
  wrap-IsPen n p v =
      let test : more ((win.x + p.cx + fb_font_w) % word) (client_right win)
          ≡ ltb (win.x + win.w - 4) (win.x + p.cx + fb_font_w) =
        ap (λ r. more ((win.x + p.cx + fb_font_w) % word) r) right_lem
        ∙ more_small ((win.x + p.cx + fb_font_w) % word) (win.x + win.w - 4)
            (omega (arith, roomy.left, roomy.width, v.column))
            (omega (arith, roomy.left, roomy.width))
        ∙ ap (ltb (win.x + win.w - 4)) (omega (arith, roomy.left, roomy.width, v.column)) in
      elim (Bool-cases (ltb (win.x + win.w - 4) (win.x + p.cx + fb_font_w))) [
        | inl full ↦ rw (test, full) (new_line-IsPen n p v, omega (arith, roomy.width))
        | inr room ↦
            rw (test, room)
              (
                record {
                  column = v.column;
                  line = v.line;
                  small = omega (arith, v.small);
                  within = v.within;
                },
                ground (arith, room, roomy.width),
              )
      ]

  -- After the second test there is room for the row.
  turn_page-IsPen :
      (n : ℕ) (p : Pen)
      → IsPen win n p
      → IsPen win n (turn_page win p)
        × ((turn_page win p).cx ≡ p.cx)
        × ((turn_page win p).cy + fb_font_h + 4 ≤ win.h)
  unfolding turn_page
  turn_page-IsPen n p v =
      let test : more ((win.y + p.cy + fb_font_h) % word) (client_bot win)
          ≡ ltb (win.y + win.h - 4) (win.y + p.cy + fb_font_h) =
        ap (λ r. more ((win.y + p.cy + fb_font_h) % word) r) bot_lem
        ∙ more_small ((win.y + p.cy + fb_font_h) % word) (win.y + win.h - 4)
            (omega (arith, roomy.top, roomy.height, v.small))
            (omega (arith, roomy.top, roomy.height))
        ∙ ap (ltb (win.y + win.h - 4)) (omega (arith, roomy.top, roomy.height, v.small)) in
      elim (Bool-cases (ltb (win.y + win.h - 4) (win.y + p.cy + fb_font_h))) [
        | inl full ↦
            rw (test, full)
              (
                record {
                  column = v.column;
                  line = omega arith;
                  small = omega (arith, v.small, v.line);
                  within =
                      All-snoc win p.drawn
                        (blank ((win.x + 2) % word) ((win.y + titlebar_h) % word) (minus win.w 4)
                          (minus (minus win.h titlebar_h) 2) win.bg_color)
                        v.within
                        (
                          omega (arith, roomy.left),
                          omega (arith, roomy.left, roomy.width),
                          omega (arith, roomy.top),
                          omega (arith, roomy.top, roomy.height),
                        );
                },
                refl,
                omega (arith, roomy.height),
              )
        | inr room ↦ rw (test, room) (v, refl, ground (arith, room, roomy.height))
      ]

  put-IsPen :
      (c fg n : ℕ) (p : Pen)
      → IsPen win n p
      → p.cx + fb_font_w + 4 ≤ win.w
      → p.cy + fb_font_h + 4 ≤ win.h
      → IsPen win n (put win c fg p)
  unfolding put
  put-IsPen c fg n p v across down = record {
    column = (omega (arith, v.column, across, roomy.width), omega (arith, across, roomy.width));
    line = v.line;
    small = v.small;
    within =
        All-snoc win p.drawn
          (glyph ((win.x + p.cx) % word) ((win.y + p.cy) % word) c fg win.bg_color) v.within
          (
            omega (arith, roomy.left, roomy.width, v.column),
            omega (arith, roomy.left, roomy.width, across),
            omega (arith, roomy.top, roomy.height, v.line, v.small),
            omega (arith, roomy.top, roomy.height, down),
          );
  }

  print_char-IsPen :
      (fg c n : ℕ) (p : Pen) → IsPen win (suc n) p → IsPen win n (print_char win fg c p)
  unfolding print_char
  print_char-IsPen fg c n p v = elim (Bool-cases (c == 0x0A)) [
    | inl line ↦ rw line (new_line-IsPen n p v)
    | inr char ↦ rw char (
        let w = wrap-IsPen n p v in
        let t = turn_page-IsPen n (wrap win p) w.0 in
        put-IsPen c fg n (turn_page win (wrap win p)) t.0 (omega (arith, t.1, w.1)) t.2)
  ]

  print_loop-IsPen :
      (fg : ℕ) (text : List ℕ) (n : ℕ) (p : Pen)
      → IsPen win (length text + n) p
      → IsPen win n (print_loop win fg text p)
  unfolding print_loop
  print_loop-IsPen fg [] n p v = subst (λ k. IsPen win k p) (omega arith) v
  print_loop-IsPen fg (c ∷ text) n p v =
      print_loop-IsPen fg text n (print_char win fg c p)
        (print_char-IsPen fg c (length text + n) p (subst (λ k. IsPen win k p) (omega arith) v))

-- The cursor of the window `k` lies in its columns and below its title bar, and stays a small number for `n` more lines.
pub record IsCursor (g : Gui) (k n : ℕ) : Type 0 where
  pub column : (4 ≤ g.cursor_x k) × (g.cursor_x k ≤ (g.windows k).w)
  pub line : titlebar_h + 4 ≤ g.cursor_y k
  pub small : g.cursor_y k + fb_font_h * n < 2 ^ 30

-- What a print to the window `k` leaves: on the screen some pieces are drawn, all of them in the window, and their
-- characters are those of the text, in its order, with its colour, on the background of the window; its cursor is
-- ready for `n` more lines, and the windows and the other cursors are as before.
pub record Printed (fb : Fb) (g : Gui) (k n fg : ℕ) (text : List ℕ) (g' : Gui) : Type 0 where
  pub pieces : List Piece
  pub letters : glyphs pieces ≡ printable fg (g.windows k).bg_color text
  pub screen : g'.screen ≡ draw_pieces fb pieces g.screen
  pub within : All (IsWithin (g.windows k)) pieces
  pub cursor : IsCursor g' k n
  pub windows : g'.windows ≡ g.windows
  pub others : (j : ℕ) → j ≢ k → (g'.cursor_x j ≡ g.cursor_x j) × (g'.cursor_y j ≡ g.cursor_y j)

-- In a window with room for a character and edges below 2 ^ 15, and from a cursor in its columns that has room for one
-- line per character of the text and `n` more below 2 ^ 30, the characters of the text but its line ends are drawn in
-- order, each of them in the client area, whatever the text, only the part of the window below the title bar is cleared, and nothing else is drawn. The cursor is then in
-- the columns again, with room for `n` lines, and no window and no other cursor changes.
pub window_print-Printed :
    (fb : Fb) (g : Gui) (k n fg : ℕ) (text : List ℕ)
    → IsRoomy (g.windows k)
    → IsCursor g k (length text + n)
    → Printed fb g k n fg text (window_print fb k text fg g)
unfolding window_print
window_print-Printed fb g k n fg text roomy v =
    let start : Pen = record { cx = g.cursor_x k; cy = g.cursor_y k; drawn = [] } in
    let p : Pen = print_loop (g.windows k) fg text start in
    let r : IsPen (g.windows k) n p =
      print_loop-IsPen (g.windows k) roomy fg text n start
        (record { column = v.column; line = v.line; small = v.small; within = tt }) in
    let x : update g.cursor_x k p.cx k ≡ p.cx = update_self g.cursor_x k p.cx in
    let y : update g.cursor_y k p.cy k ≡ p.cy = update_self g.cursor_y k p.cy in
    record {
      pieces = p.drawn;
      letters = glyphs-print_loop (g.windows k) fg text start;
      screen = refl;
      within = r.within;
      cursor = record {
        column = (omega (arith, x, r.column), omega (arith, x, r.column));
        line = omega (arith, y, r.line);
        small = omega (arith, y, r.small);
      };
      windows = refl;
      others = λ j ne. (
        update_ne g.cursor_x k j p.cx (λ e. ne (sym e)),
        update_ne g.cursor_y k j p.cy (λ e. ne (sym e)),
      );
    }

-- A new window has its cursor in place; there are never more than eight windows.
pub create_window-IsCursor :
    (fb : Fb) (title : List ℕ) (x y w h n : ℕ) (g : Gui)
    → g.nwindows < max_windows
    → 4 ≤ w
    → fb_font_h * n < 2 ^ 29
    → ((create_window fb title x y w h g).0 ≡ some g.nwindows)
      × IsCursor (create_window fb title x y w h g).1 g.nwindows n
      × ((create_window fb title x y w h g).1.nwindows ≤ max_windows)
unfolding create_window
create_window-IsCursor fb title x y w h n g lt wide small =
    let room : leb max_windows g.nwindows ≡ false = ground (arith, lt) in
    let own : (g.nwindows == g.nwindows) ≡ true = ==_self g.nwindows in
    rw room (
      refl,
      record {
        column = rw own (omega arith, wide);
        line = rw own (omega arith);
        small = rw own (omega (arith, small));
      },
      omega (arith, lt),
    )
