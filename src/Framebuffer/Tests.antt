-- ===== src/Framebuffer/Tests.antt =====
-- A screen of 640 by 480 pixels of 32 bits.
use aerogel.Common.{◌≡◌, refl, arith, true}
use aerogel.Framebuffer.{Fb, clear, clear_rows}
use aerogel.Framebuffer.Clear.{IsPacked, clear-clear_rows}

abbrev vga_fb : Fb
vga_fb = record {
  addr = 0xE0000000;
  pitch = 2560;
  width = 640;
  height = 480;
  bpp = 32;
  active = true;
}

vga_fb-IsPacked : IsPacked vga_fb
vga_fb-IsPacked = record {
  deep = refl;
  packed = refl;
  width_bound = omega arith;
  height_bound = omega arith;
  in_reach = omega arith;
}

clear-clear_rows_example :
    clear vga_fb 0xC0C0C0 (λ _. 0) ≡ clear_rows vga_fb 480 0 0xC0C0C0 (λ _. 0)
clear-clear_rows_example = clear-clear_rows vga_fb 0xC0C0C0 (λ _. 0) vga_fb-IsPacked
