-- ===== src/VgaText/Tests.antt =====
-- The text screen at a concrete state.
use aerogel.Common.{arith, []}
use aerogel.VgaText.{Vga, putc}
use aerogel.VgaText.Screen.{IsValid, Put, putc_lem}

-- The cursor in the last cell of the screen.
abbrev corner : Vga
corner = record { cells = λ j. j; row = 24; col = 79; attr = 7; outs = [] }

corner-IsValid : IsValid corner
corner-IsValid = omega arith

putc_lem_example : Put corner (putc b'x' corner)
putc_lem_example = putc_lem b'x' corner-IsValid
