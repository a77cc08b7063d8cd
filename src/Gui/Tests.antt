-- ===== src/Gui/Tests.antt =====
-- A window of 100 by 60 pixels on a screen of 640 by 480, and a text with a line end.
use aerogel.Common.{ℕ, arith, true, List, [], ◌∷◌, none}
use aerogel.Framebuffer.{Fb}
use aerogel.Gui.{Window, Gui, window_print}
use aerogel.Gui.Print.{IsRoomy, IsCursor, Printed, window_print-Printed}

abbrev screen : Fb
screen = record {
  addr = 0xE0000000;
  pitch = 2560;
  width = 640;
  height = 480;
  bpp = 32;
  active = true;
}

abbrev terminal : Window
terminal = record {
  x = 20;
  y = 30;
  w = 100;
  h = 60;
  title = [];
  visible = true;
  bg_color = 0;
  on_key = none;
}

abbrev one_window : Gui
one_window = record {
  windows = λ _. terminal;
  nwindows = 1;
  cursor_x = λ _. 4;
  cursor_y = λ _. 24;
  screen = λ _. 0;
}

abbrev greeting : List ℕ
greeting = b'h' ∷ b'i' ∷ 0x0A ∷ b'!' ∷ []

terminal-IsRoomy : IsRoomy terminal
terminal-IsRoomy = record {
  left = omega arith;
  top = omega arith;
  width = omega arith;
  height = omega arith;
}

at_start : IsCursor one_window 0 104
at_start = record { column = omega arith; line = omega arith; small = omega arith }

window_print-Printed_example :
    Printed screen one_window 0 100 0xFF greeting (window_print screen 0 greeting 0xFF one_window)
window_print-Printed_example =
    window_print-Printed screen one_window 0 100 0xFF greeting terminal-IsRoomy at_start
