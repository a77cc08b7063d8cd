-- ===== src/VgaText/Scroll.antt =====
-- `scroll` of drivers/display/vga_text.c moves every line up by one.
use aerogel.Common.{
  ℕ, zero, suc, ◌+◌, ◌-◌, ◌*◌, ◌≤◌, ◌≡◌, refl, ap, ◌&&◌, ltb, leb, ◌==◌, if◌then◌else◌, arith,
  Bool-cases, inl, inr, ==_iff,
}
use aerogel.Common.Array.{Array, update}
use aerogel.VgaText.{Vga, vga_cols, blank, copy_row, copy_rows, fill, scroll}

pub fill_lem :
    (n i v : ℕ) (a : Array ℕ) (j : ℕ)
    → fill n i v a j ≡ (if leb i j && ltb j (i + n) then v else a j)
unfolding fill
fill_lem zero i v a j = ground arith
fill_lem (suc n) i v a j = ground (arith, fill_lem n (i + 1) v (update a i v) j)

-- `base` is where the line above begins.
copy_row_lem :
    (n r c base : ℕ) (a : Array ℕ) (j : ℕ)
    → 1 ≤ r
    → base ≡ (r - 1) * vga_cols
    → c + n ≤ vga_cols
    → copy_row n r c a j
      ≡ (if leb (base + c) j && ltb j (base + c + n) then a (j + vga_cols) else a j)
unfolding copy_row
copy_row_lem zero r c base a j pos e fits = ground arith
copy_row_lem (suc n) r c base a j pos e fits =
    let a' : Array ℕ = update a ((r - 1) * vga_cols + c) (a (r * vga_cols + c)) in
    elim (Bool-cases (base + c == j)) [
      | inl here ↦
          let at : j + vga_cols ≡ r * vga_cols + c =
            omega (arith, e, (==_iff (base + c) j).0 here) in
          ground (arith, copy_row_lem n r (c + 1) base a' j pos e (omega arith), ap a at)
      | inr other ↦ ground (arith, copy_row_lem n r (c + 1) base a' j pos e (omega arith))
    ]

-- A row moved from behind, and then `k` cells' worth of rows after it.
one_more_row :
    (b k j u v0 v1 w0 w1 w2 : ℕ)
    → u ≡ (if leb (b + 80) j && ltb j (b + 80 + k) then v1 else v0)
    → v0 ≡ (if leb (b + 0) j && ltb j (b + 0 + 80) then w1 else w0)
    → v1 ≡ (if leb (b + 0) (j + 80) && ltb (j + 80) (b + 0 + 80) then w2 else w1)
    → u ≡ (if leb b j && ltb j (b + (80 + k)) then w1 else w0)
one_more_row b k j u v0 v1 w0 w1 w2 p q r = ground arith

copy_rows_lem :
    (n r b k : ℕ) (a : Array ℕ) (j : ℕ)
    → 1 ≤ r
    → b ≡ (r - 1) * 80
    → k ≡ n * 80
    → copy_rows n r a j ≡ (if leb b j && ltb j (b + k) then a (j + 80) else a j)
unfolding copy_rows
copy_rows_lem zero r b k a j pos eb ek = ground arith
copy_rows_lem (suc n) r b k a j pos eb ek =
    let a' : Array ℕ = copy_row vga_cols r 0 a in
    let e : k ≡ 80 + n * 80 = omega (arith, ek) in
    rw e (
      one_more_row b (n * 80) j _ (a' j) (a' (j + 80)) (a j) (a (j + 80)) (a (j + 80 + 80))
        (copy_rows_lem n (r + 1) (b + 80) (n * 80) a' j (omega arith) (omega (arith, eb)) refl)
        (copy_row_lem vga_cols r 0 b a j pos eb (omega arith))
        (copy_row_lem vga_cols r 0 b a (j + 80) pos eb (omega arith)))

-- After `scroll` each line but the last holds what the next one held, the last is blank, and nothing
-- outside the screen has changed.
pub scroll_lem :
    (s : Vga) (j : ℕ)
    → (scroll s).cells j
      ≡ (if ltb j 1920 then s.cells (j + vga_cols) else if ltb j 2000 then blank s else s.cells j)
unfolding scroll
scroll_lem s j = ground (
  arith,
  fill_lem vga_cols 1920 (blank s) (copy_rows 24 1 s.cells) j,
  copy_rows_lem 24 1 0 1920 s.cells j (omega arith) refl refl,
)
