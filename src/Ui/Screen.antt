-- ===== src/Ui/Screen.antt =====
-- ui/gui.c: the buffer of the display, a byte for eight pixels of a column, and what is sent of it.
use arctic_tracker_teensy.Base.{
  ℕ, zero, suc, ◌+◌, ◌/◌, ◌%◌, ◌^◌, Bool, true, false, ◌&&◌, List, [], ◌∷◌, ◌++◌, ltb, bit_and,
  bit_or, bit_xor, if◌then◌else◌,
}
use arctic_tracker_teensy.Run.{update}

-- DISPLAY_WIDTH
abbrev pub display_width : ℕ
display_width = 84

-- DISPLAY_HEIGHT
abbrev pub display_height : ℕ
display_height = 48

-- `buffer`, by row and column, `changed` and `_inverse`
pub record Screen : Type 0 where
  pub buffer : ℕ → ℕ → ℕ
  pub changed : ℕ → Bool
  pub inverse : Bool

-- What a drawing routine comes to: an access outside the buffer has no result, and a loop may
-- outlive its fuel.
pub data Draw : Type 0 where
  drawn : Screen → Draw
  outside : Draw
  unfinished : Draw

abbrev pub Plot : Type 0
Plot = Screen → Draw

abbrev pub then_draw : Draw → Plot → Draw
then_draw (drawn s) p = p s
then_draw outside p = outside
then_draw unfinished p = unfinished

infixl 5 ◌>>◌
abbrev pub ◌>>◌ : Plot → Plot → Plot
p >> q = λ s. then_draw (p s) q

-- `changed[row] = true` and a new byte at one place of the buffer
unfoldable pub put_byte : ℕ → ℕ → ℕ → Screen → Screen
unfolding update
put_byte row x v s = record s { buffer = update s.buffer row (update (s.buffer row) x v) }

unfoldable pub mark : ℕ → Screen → Screen
unfolding update
mark row s = record s { changed = update s.changed row true }

unfoldable pub is_inside : ℕ → ℕ → Bool
is_inside x y = ltb x display_width && ltb y display_height

-- The byte with one bit set or cleared.
unfoldable pub with_bit : ℕ → ℕ → Bool → ℕ
with_bit v k on = if on then bit_or v (2 ^ k) else bit_and v (bit_xor (2 ^ k) 255)

-- gui_setPixel
unfoldable pub set_pixel : ℕ → ℕ → Bool → Plot
unfolding is_inside put_byte mark
set_pixel x y on s =
    if is_inside x y
    then drawn (put_byte (y / 8) x (with_bit (s.buffer (y / 8) x) (y % 8) on) (mark (y / 8) s))
    else outside

-- gui_clear
unfoldable pub clear : Plot
clear s = drawn (record s {
  buffer = λ i j. if ltb i 6 && ltb j 84 then 0 else s.buffer i j;
  changed = λ i. if ltb i 6 then true else s.changed i;
})

-- gui_inverseMode
unfoldable pub inverse_mode : Bool → Plot
inverse_mode on s = drawn (record s { inverse = on })

-- The bytes of a row from column `j` on, `n` of them.
unfoldable pub row_bytes : (ℕ → ℕ) → ℕ → ℕ → List ℕ
row_bytes row zero j = []
row_bytes row (suc n) j = row j ∷ row_bytes row n (j + 1)

-- The rows from `i` on, `n` of them, that have changed: their bytes are sent.
unfoldable pub flush_loop : ℕ → ℕ → Screen → List ℕ × Screen
unfolding row_bytes update
flush_loop zero i s = ([], s)
flush_loop (suc n) i s =
    let t = if s.changed i then record s { changed = update s.changed i false } else s in
    let rest = flush_loop n (i + 1) t in
    if s.changed i then (row_bytes (s.buffer i) display_width 0 ++ rest.0, rest.1) else rest

-- gui_flush: the data bytes that are sent from the position at the top left
unfoldable pub flush : Screen → List ℕ × Screen
unfolding flush_loop
flush s = flush_loop 6 0 s
