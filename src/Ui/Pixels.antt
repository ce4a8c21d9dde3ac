-- ===== src/Ui/Pixels.antt =====
-- Single pixels of the buffer: gui_setPixel changes one, and gui_clear all.
use arctic_tracker_teensy.Base.{
  ℕ, ◌/◌, ◌%◌, ◌^◌, ◌<◌, ◌≡◌, refl, ◌∙◌, inl, inr, Bool, true, false, ◌&&◌, arith, ltb, ◌==◌,
  Bool-cases, if◌then◌else◌,
}
use arctic_tracker_teensy.Base.Bytes.{all_below, all_below_sound}
use arctic_tracker_teensy.Run.{update}
use arctic_tracker_teensy.Ui.Screen.{
  Screen, Draw, drawn, set_pixel, put_byte, mark, is_inside, with_bit,
}

-- The pixel is black.
unfoldable pub pixel : Screen → ℕ → ℕ → Bool
pixel s x y = s.buffer (y / 8) x / 2 ^ (y % 8) % 2 == 1

unfoldable pub IsBytes : Screen → Type 0
IsBytes s = (i j : ℕ) → s.buffer i j < 256

-- The bits of a byte in which one was set or cleared, for each byte and each two bits.
bit_law : ℕ → ℕ → ℕ → Bool
bit_law v k m =
    (with_bit v k true / 2 ^ m % 2 == (if m == k then 1 else v / 2 ^ m % 2))
    && (with_bit v k false / 2 ^ m % 2 == (if m == k then 0 else v / 2 ^ m % 2))
    && ltb (with_bit v k true) 256
    && ltb (with_bit v k false) 256

bit_table : all_below 256 (λ v. all_below 8 (λ k. all_below 8 (bit_law v k))) ≡ true
unfolding all_below bit_law with_bit
bit_table = refl

bit_law_holds : (v k m : ℕ) → v < 256 → k < 8 → m < 8 → bit_law v k m ≡ true
bit_law_holds v k m v8 k8 m8 =
    let row =
      all_below_sound 256 (λ v. all_below 8 (λ k. all_below 8 (bit_law v k))) v bit_table v8 in
    let entry = all_below_sound 8 (λ k. all_below 8 (bit_law v k)) k row k8 in
    all_below_sound 8 (bit_law v k) m entry m8

bit-with_bit :
    (v k m : ℕ) (on : Bool)
    → v < 256
    → k < 8
    → m < 8
    → ((with_bit v k on / 2 ^ m % 2 == 1) ≡ (if m == k then on else v / 2 ^ m % 2 == 1))
      × (with_bit v k on < 256)
unfolding bit_law
bit-with_bit v k m true v8 k8 m8 = ground (arith, bit_law_holds v k m v8 k8 m8)
bit-with_bit v k m false v8 k8 m8 = ground (arith, bit_law_holds v k m v8 k8 m8)

-- A result in which the pixels of a region have a new value and the others are as they were.
pub record Paints (region : ℕ → ℕ → Bool) (on : Bool) (s : Screen) (r : Draw) : Type 0 where
  pub screen : Screen
  pub is_drawn : r ≡ drawn screen
  pub bytes : IsBytes screen
  pub same_mode : screen.inverse ≡ s.inverse
  pub pixels : (x y : ℕ) → pixel screen x y ≡ (if region x y then on else pixel s x y)

unfoldable pub at : ℕ → ℕ → ℕ → ℕ → Bool
at x y x' y' = x' == x && y' == y

module _ (x y : ℕ) (on : Bool) (s : Screen) (bytes : IsBytes s) where
  -- The screen with one byte changed.
  abbrev dotted : Screen
  dotted = put_byte (y / 8) x (with_bit (s.buffer (y / 8) x) (y % 8) on) (mark (y / 8) s)

  dotted_byte :
      (i j : ℕ)
      → dotted.buffer i j
        ≡ (if i == y / 8 && j == x then with_bit (s.buffer (y / 8) x) (y % 8) on else s.buffer i j)
  unfolding put_byte mark update
  dotted_byte i j = ground arith

  dotted-pixel : (x' y' : ℕ) → pixel dotted x' y' ≡ (if at x y x' y' then on else pixel s x' y')
  unfolding pixel at IsBytes
  dotted-pixel x' y' = elim (Bool-cases (y' / 8 == y / 8 && x' == x)) [
    | inl same ↦
        let row : y' / 8 ≡ y / 8 = ground arith in
        let column : x' ≡ x = ground arith in
        let bit =
          bit-with_bit (s.buffer (y / 8) x) (y % 8) (y' % 8) on (bytes (y / 8) x) (omega arith)
            (omega arith) in
        let here : at x y x' y' ≡ (y' % 8 == y % 8) = ground arith in
        let byte : dotted.buffer (y' / 8) x' ≡ with_bit (s.buffer (y / 8) x) (y % 8) on =
          dotted_byte (y' / 8) x' ∙ rw same refl in
        rw (byte, here, row, column) bit.0
    | inr other ↦
        let away : at x y x' y' ≡ false = ground arith in
        let byte : dotted.buffer (y' / 8) x' ≡ s.buffer (y' / 8) x' =
          dotted_byte (y' / 8) x' ∙ rw other refl in
        rw (away, byte) refl
  ]

  dotted-IsBytes : IsBytes dotted
  unfolding IsBytes
  dotted-IsBytes i j =
      let changed =
        bit-with_bit (s.buffer (y / 8) x) (y % 8) 0 on (bytes (y / 8) x) (omega arith)
          (omega arith) in
      rw (dotted_byte i j) (ground (arith, changed.1, bytes i j))

  -- gui_setPixel changes the pixel, and no other.
  pub set_pixel-Paints : is_inside x y ≡ true → Paints (at x y) on s (set_pixel x y on s)
  unfolding set_pixel
  set_pixel-Paints inside = record {
    screen = dotted;
    is_drawn = rw inside refl;
    bytes = dotted-IsBytes;
    same_mode = refl;
    pixels = dotted-pixel;
  }
