-- ===== src/Ui/Figures.antt =====
-- ui/gui.c: circles, text, and the figures of the status screens, made of lines, boxes and text.
use arctic_tracker_teensy.Base.{
  ℕ, zero, suc, ◌+◌, ◌-◌, ◌*◌, ◌/◌, ◌%◌, ◌^◌, Bool, true, false, ◌||◌, ◌&&◌, Option, none, some,
  List, [], ◌∷◌, codes, get_elem?, ltb, leb, ◌==◌, bit_xor, if◌then◌else◌,
}
use arctic_tracker_teensy.Base.Int.{ℤ, pos, negsuc, ◌+ℤ◌, ◌-ℤ◌, ltb_ℤ, leb_ℤ, neg}
use arctic_tracker_teensy.Ui.Font.{fonts8x5}
use arctic_tracker_teensy.Ui.Screen.{
  drawn, outside, unfinished, Plot, ◌>>◌, set_pixel, put_byte, mark, clear,
}
use arctic_tracker_teensy.Ui.Shapes.{ink_at, v_line, h_line, box, line}

-- `err += ++y*2+1`
unfoldable pub grow : ℤ → ℤ → ℤ
grow err y = err +ℤ y +ℤ y +ℤ pos 3

-- The do loop of gui_circle.
unfoldable pub circle_loop : ℕ → ℤ → ℤ → ℤ → ℤ → ℤ → Plot
unfolding grow
circle_loop zero xm ym x y err s = unfinished
circle_loop (suc fuel) xm ym x y err s =
    let err1 = if leb_ℤ err y then grow err y else err in
    let y1 = if leb_ℤ err y then y +ℤ pos 1 else y in
    let right = ltb_ℤ x err || ltb_ℤ y1 err1 in
    let x1 = if right then x +ℤ pos 1 else x in
    let rest = circle_loop fuel xm ym x1 y1 (if right then grow err1 x else err1) in
    (do
      ink_at (xm -ℤ x) (ym +ℤ y)
      ink_at (xm -ℤ y) (ym -ℤ x)
      ink_at (xm +ℤ x) (ym -ℤ y)
      ink_at (xm +ℤ y) (ym +ℤ x)
      (if ltb_ℤ x1 (pos 0) then rest else drawn))
      s

-- gui_circle
unfoldable pub circle : ℕ → ℕ → ℕ → ℕ → Plot
unfolding circle_loop
circle fuel xm ym r =
    circle_loop fuel (pos xm) (pos ym) (neg (pos r)) (pos 0) (pos 2 -ℤ pos (2 * r))

-- `buffer[row][x] ^= v`
unfoldable pub xor_byte : ℕ → ℤ → ℕ → Plot
unfolding put_byte
xor_byte row (pos x) v s =
    if ltb row 6 && ltb x 84 then drawn (put_byte row x (bit_xor (s.buffer row x) v) s) else outside
xor_byte row (negsuc x) v s = outside

-- One column of a character, in one row of bytes or across two.
unfoldable pub write_column : ℤ → ℕ → ℕ → Plot
unfolding xor_byte
write_column x y column = do
  xor_byte (y / 8) x (column * 2 ^ (y % 8) % 256)
  (if ltb 0 (y % 8) then xor_byte (y / 8 + 1) x (column / 2 ^ (8 - y % 8)) else drawn)

unfoldable pub write_columns : ℤ → ℕ → List ℕ → Plot
unfolding write_column
write_columns x y [] s = drawn s
write_columns x y (column ∷ columns) s =
    (write_column x y column >> write_columns (x +ℤ pos 1) y columns) s

unfoldable pub mem : ℕ → List ℕ → Bool
mem c [] = false
mem c (d ∷ ds) = c == d || mem c ds

-- The characters that are set closer.
unfoldable pub is_narrow : ℕ → Bool
unfolding mem
is_narrow c = mem c (codes ".,:;1lIij ")

-- `Fonts8x5[c - 32]`
unfoldable pub glyph : ℕ → Option (List ℕ)
glyph c = if ltb c 32 then none else get_elem? fonts8x5 (c - 32)

unfoldable pub write_glyph : Option (List ℕ) → ℤ → ℕ → Plot
unfolding write_columns
write_glyph none x y s = outside
write_glyph (some columns) x y s = write_columns x y columns s

-- The loop of gui_writeText.
unfoldable pub write_loop : ℤ → ℕ → List ℕ → Plot
unfolding write_glyph is_narrow glyph
write_loop x y [] s = drawn s
write_loop x y (c ∷ cs) s =
    let first = if is_narrow c then x -ℤ pos 1 else x in
    let next = if is_narrow c then first +ℤ pos 5 else first +ℤ pos 6 in
    (write_glyph (glyph c) first y >> write_loop next y cs) s

-- `changed[row] = true`
unfoldable pub mark_row : ℕ → Plot
unfolding mark
mark_row row s = if ltb row 6 then drawn (mark row s) else outside

-- gui_writeText
unfoldable pub write_text : ℕ → ℕ → List ℕ → Plot
unfolding mark_row write_loop
write_text x y strp = do
  mark_row (y / 8)
  (if ltb 0 (y % 8) then mark_row (y / 8 + 1) else drawn)
  write_loop (pos x) y strp

unfoldable pub box_if : Bool → ℕ → ℕ → ℕ → ℕ → Plot
unfolding box
box_if shown x y width height = if shown then box x y width height true else drawn

-- gui_battery
unfoldable pub battery : ℕ → ℕ → ℕ → Plot
unfolding box_if v_line h_line
battery x y lvl = do
  v_line x y 6
  h_line x y 11
  h_line x (y + 6) 11
  v_line (x + 10) y 2
  v_line (x + 10) (y + 5) 2
  box_if (leb 1 lvl) (x + 1) (y + 1) 3 5
  box_if (leb 2 lvl) (x + 4) (y + 1) 2 5
  box_if (leb 3 lvl) (x + 6) (y + 1) 2 5
  box_if (leb 4 lvl) (x + 8) (y + 1) 2 5
  v_line (x + 11) (y + 2) 3

-- `sign[0] == 'i'`
unfoldable pub is_thin : List ℕ → Bool
is_thin [] = false
is_thin (c ∷ cs) = c == 105

-- gui_flag
unfoldable pub flag : ℕ → ℕ → List ℕ → Bool → Plot
unfolding box write_text set_pixel is_thin
flag x y sign on =
    if on
    then (do
      box x y 7 11 on
      write_text (x + (if is_thin sign then 2 else 1)) (y + 2) sign
      set_pixel x y false)
    else drawn

-- gui_label
unfoldable pub label : ℕ → ℕ → List ℕ → Plot
unfolding box write_text set_pixel
label x y lbl = do box x y 27 11 true; write_text (x + 2) (y + 2) lbl; set_pixel x y false

-- gui_welcome, before it is sent
unfoldable pub welcome : Plot
unfolding circle line write_text clear
welcome = do
  clear
  circle 100 40 24 10
  line 100 (pos 40) (pos 2) (pos 40) (pos 55)
  line 100 (pos 14) (pos 24) (pos 66) (pos 24)
  write_text 2 7 (codes "Arctic")
  write_text 43 36 (codes "Tracker")
