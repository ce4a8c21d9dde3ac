-- ===== src/Ui/Shapes.antt =====
-- ui/gui.c: lines, boxes, circles and text. Coordinates that a routine takes are not negative,
-- but for those that its loop computes.
use arctic_tracker_teensy.Base.{ℕ, zero, suc, ◌+◌, ◌-◌, Bool, not, ◌&&◌, if◌then◌else◌}
use arctic_tracker_teensy.Base.Int.{ℤ, pos, negsuc, ◌+ℤ◌, ◌-ℤ◌, ltb_ℤ, leb_ℤ, eqb_ℤ, abs, neg}
use arctic_tracker_teensy.Ui.Screen.{drawn, outside, unfinished, Plot, ◌>>◌, set_pixel}

-- gui_setPixel(x, y, !_inverse)
unfoldable pub ink : ℕ → ℕ → Plot
ink x y s = set_pixel x y (not s.inverse) s

-- The same where a coordinate may be negative.
unfoldable pub ink_at : ℤ → ℤ → Plot
unfolding ink
ink_at (pos x) (pos y) s = ink x y s
ink_at (pos x) (negsuc y) s = outside
ink_at (negsuc x) y s = outside

-- gui_vLine
unfoldable pub v_line : ℕ → ℕ → ℕ → Plot
v_line x y zero s = drawn s
v_line x y (suc len) s = (ink x y >> v_line x (y + 1) len) s

-- gui_hLine
unfoldable pub h_line : ℕ → ℕ → ℕ → Plot
h_line x y zero s = drawn s
h_line x y (suc len) s = (ink x y >> h_line (x + 1) y len) s

-- The columns of a box that is filled.
unfoldable pub fill_box : ℕ → ℕ → ℕ → ℕ → Plot
fill_box x y zero height s = drawn s
fill_box x y (suc width) height s = (v_line x y height >> fill_box (x + 1) y width height) s

-- gui_box
unfoldable pub box : ℕ → ℕ → ℕ → ℕ → Bool → Plot
unfolding v_line h_line fill_box
box x y width height fill = if fill then fill_box x y width height else (do
  v_line x y height
  v_line (x + width - 1) y height
  h_line x y width
  h_line x (y + height - 1) width)

-- A step of gui_line, where `e2 = 2*err`
unfoldable pub step_err : ℤ → ℤ → ℤ → ℤ
step_err dx dy err =
    let e2 = err +ℤ err in
    let e = if leb_ℤ dy e2 then err +ℤ dy else err in if leb_ℤ e2 dx then e +ℤ dx else e

unfoldable pub step_x : ℤ → ℤ → ℤ → ℤ → ℤ
step_x dy sx err x = if leb_ℤ dy (err +ℤ err) then x +ℤ sx else x

unfoldable pub step_y : ℤ → ℤ → ℤ → ℤ → ℤ
step_y dx sy err y = if leb_ℤ (err +ℤ err) dx then y +ℤ sy else y

-- The loop of gui_line.
unfoldable pub line_loop : ℕ → ℤ → ℤ → ℤ → ℤ → ℤ → ℤ → ℤ → ℤ → ℤ → Plot
line_loop zero x1 y1 dx dy sx sy x0 y0 err s = unfinished
line_loop (suc fuel) x1 y1 dx dy sx sy x0 y0 err s =
    let rest =
      line_loop fuel x1 y1 dx dy sx sy (step_x dy sx err x0) (step_y dx sy err y0)
        (step_err dx dy err) in
    (ink_at x0 y0 >> (if eqb_ℤ x0 x1 && eqb_ℤ y0 y1 then drawn else rest)) s

-- gui_line
unfoldable pub line : ℕ → ℤ → ℤ → ℤ → ℤ → Plot
line fuel x0 y0 x1 y1 =
    let dx = abs (x1 -ℤ x0) in
    let dy = neg (abs (y1 -ℤ y0)) in
    let sx = if ltb_ℤ x0 x1 then pos 1 else negsuc 0 in
    let sy = if ltb_ℤ y0 y1 then pos 1 else negsuc 0 in
    line_loop fuel x1 y1 dx dy sx sy x0 y0 (dx +ℤ dy)
