-- ===== src/Ui/Boxes.antt =====
-- What gui_vLine, gui_hLine and gui_box paint.
use arctic_tracker_teensy.Base.{
  ℕ, zero, suc, ◌+◌, ◌-◌, ◌≤◌, ◌<◌, ◌≡◌, refl, ◌∙◌, Bool, true, false, not, ◌&&◌, ◌||◌, arith, ltb,
  leb, ◌==◌, if◌then◌else◌,
}
use arctic_tracker_teensy.Ui.Screen.{
  Screen, drawn, Plot, ◌>>◌, is_inside, display_width, display_height,
}
use arctic_tracker_teensy.Ui.Shapes.{ink, v_line, h_line, fill_box, box}
use arctic_tracker_teensy.Ui.Pixels.{IsBytes, Paints, at, set_pixel-Paints}

-- The pixels of a rectangle, and of its border.
unfoldable pub rect : ℕ → ℕ → ℕ → ℕ → ℕ → ℕ → Bool
rect x y width height x' y' = (leb x x' && ltb x' (x + width)) && (leb y y' && ltb y' (y + height))

unfoldable pub border : ℕ → ℕ → ℕ → ℕ → ℕ → ℕ → Bool
unfolding rect
border x y width height x' y' =
    rect x y width height x' y'
    && (x' == x || (x' + 1 == x + width || (y' == y || y' + 1 == y + height)))

inside : (x y : ℕ) → x < display_width → y < display_height → is_inside x y ≡ true
unfolding is_inside
inside x y xin yin = ground arith

module _ (x y : ℕ) where
  dot_rect : (x' y' : ℕ) → at x y x' y' ≡ rect x y 1 1 x' y'
  unfolding at rect
  dot_rect x' y' = ground arith

  rect-zero : (x' y' : ℕ) → rect x y 1 0 x' y' ≡ false
  unfolding rect
  rect-zero x' y' = ground arith

  rect-narrow : (height x' y' : ℕ) → rect x y 0 height x' y' ≡ false
  unfolding rect
  rect-narrow height x' y' = ground arith

  rect-below :
      (len x' y' : ℕ)
      → rect x y 1 (suc len) x' y' ≡ (rect x y 1 1 x' y' || rect x (y + 1) 1 len x' y')
  unfolding rect
  rect-below len x' y' = ground arith

  rect-right :
      (len height x' y' : ℕ)
      → rect x y (suc len) height x' y'
        ≡ (rect x y 1 height x' y' || rect (x + 1) y len height x' y')
  unfolding rect
  rect-right len height x' y' = ground arith

  -- The four sides of a border.
  border-sides :
      (w h x' y' : ℕ)
      → 0 < w
      → 0 < h
      → border x y w h x' y' ≡ (
          rect x y 1 h x' y'
          || (rect (x + w - 1) y 1 h x' y' || (rect x y w 1 x' y' || rect x (y + h - 1) w 1 x' y')))
  unfolding border rect
  border-sides w h x' y' wide high = ground arith

abbrev either : (ℕ → ℕ → Bool) → (ℕ → ℕ → Bool) → ℕ → ℕ → Bool
either r q x y = r x y || q x y

module _ (inv : Bool) where
  -- A routine that paints a region in the colour of the mode.
  abbrev pub Painter : (ℕ → ℕ → Bool) → Plot → Type 0
  Painter region p = (s : Screen) → IsBytes s → s.inverse ≡ inv → Paints region (not inv) s (p s)

  nothing : (region : ℕ → ℕ → Bool) → ((x y : ℕ) → region x y ≡ false) → Painter region drawn
  nothing region empty s bytes mode = record {
    screen = s;
    is_drawn = refl;
    bytes = bytes;
    same_mode = refl;
    pixels = λ x y. rw (empty x y) refl;
  }

  -- One routine after another paints both regions.
  and_then :
      (r q both : ℕ → ℕ → Bool) (p1 p2 : Plot)
      → Painter r p1
      → Painter q p2
      → ((x y : ℕ) → both x y ≡ (r x y || q x y))
      → Painter both (p1 >> p2)
  and_then r q both p1 p2 first second union s bytes mode =
      let a = first s bytes mode in
      let b = second a.screen a.bytes (a.same_mode ∙ mode) in
      record {
        screen = b.screen;
        is_drawn = rw a.is_drawn b.is_drawn;
        bytes = b.bytes;
        same_mode = b.same_mode ∙ a.same_mode;
        pixels = λ x y. ground (arith, union x y, a.pixels x y, b.pixels x y);
      }

  ink-Painter :
      (x y : ℕ) → x < display_width → y < display_height → Painter (rect x y 1 1) (ink x y)
  unfolding ink rect
  ink-Painter x y xin yin s bytes mode =
      let a = set_pixel-Paints x y (not s.inverse) s bytes (inside x y xin yin) in
      record {
        screen = a.screen;
        is_drawn = a.is_drawn;
        bytes = a.bytes;
        same_mode = a.same_mode;
        pixels = λ x' y'. a.pixels x' y' ∙ rw (dot_rect x y x' y', mode) refl;
      }

  v_line-Painter :
      (len x y : ℕ)
      → x < display_width
      → y + len ≤ display_height
      → Painter (rect x y 1 len) (v_line x y len)
  unfolding v_line
  v_line-Painter zero x y xin yin = nothing (rect x y 1 0) (λ x' y'. rect-zero x y x' y')
  v_line-Painter (suc len) x y xin yin =
      and_then (rect x y 1 1) (rect x (y + 1) 1 len) (rect x y 1 (suc len)) (ink x y)
        (v_line x (y + 1) len) (ink-Painter x y xin (omega arith))
        (v_line-Painter len x (y + 1) xin (omega arith)) (λ x' y'. rect-below x y len x' y')

  h_line-Painter :
      (len x y : ℕ)
      → x + len ≤ display_width
      → y < display_height
      → Painter (rect x y len 1) (h_line x y len)
  unfolding h_line
  h_line-Painter zero x y xin yin = nothing (rect x y 0 1) (rect-narrow x y 1)
  h_line-Painter (suc len) x y xin yin =
      and_then (rect x y 1 1) (rect (x + 1) y len 1) (rect x y (suc len) 1) (ink x y)
        (h_line (x + 1) y len) (ink-Painter x y (omega arith) yin)
        (h_line-Painter len (x + 1) y (omega arith) yin) (λ x' y'. rect-right x y len 1 x' y')

  fill_box-Painter :
      (width x y height : ℕ)
      → x + width ≤ display_width
      → y + height ≤ display_height
      → Painter (rect x y width height) (fill_box x y width height)
  unfolding fill_box
  fill_box-Painter zero x y height xin yin = nothing (rect x y 0 height) (rect-narrow x y height)
  fill_box-Painter (suc width) x y height xin yin =
      and_then (rect x y 1 height) (rect (x + 1) y width height) (rect x y (suc width) height)
        (v_line x y height) (fill_box (x + 1) y width height)
        (v_line-Painter height x y (omega arith) yin)
        (fill_box-Painter width (x + 1) y height (omega arith) yin)
        (λ x' y'. rect-right x y width height x' y')

  outline-Painter :
      (x y w h : ℕ)
      → x + w ≤ display_width
      → y + h ≤ display_height
      → 0 < w
      → 0 < h
      → Painter (border x y w h) (box x y w h false)
  unfolding box
  outline-Painter x y w h xin yin wide high =
      let left = rect x y 1 h in
      let right = rect (x + w - 1) y 1 h in
      let top = rect x y w 1 in
      let bottom = rect x (y + h - 1) w 1 in
      let level = either top bottom in
      let rest = either right level in
      and_then left rest (border x y w h) (v_line x y h)
        (v_line (x + w - 1) y h >> (h_line x y w >> h_line x (y + h - 1) w))
        (v_line-Painter h x y (omega arith) yin)
        (and_then right level rest (v_line (x + w - 1) y h) (h_line x y w >> h_line x (y + h - 1) w)
          (v_line-Painter h (x + w - 1) y (omega arith) yin)
          (and_then top bottom level (h_line x y w) (h_line x (y + h - 1) w)
            (h_line-Painter w x y xin (omega arith))
            (h_line-Painter w x (y + h - 1) xin (omega arith)) (λ x' y'. refl))
          (λ x' y'. refl))
        (λ x' y'. border-sides x y w h x' y' wide high)

-- A box of at least one pixel within the display: gui_box paints its rectangle where it is filled,
-- and otherwise its border, black or in inverse mode white, and leaves the other pixels as they
-- were.
pub box-Paints :
    (x y width height : ℕ) (fill : Bool) (s : Screen)
    → 0 < width
    → 0 < height
    → x + width ≤ display_width
    → y + height ≤ display_height
    → IsBytes s
    → Paints
        (if fill then rect x y width height else border x y width height)
        (not s.inverse)
        s
        (box x y width height fill s)
unfolding box
box-Paints x y width height true s wide high xin yin bytes =
    fill_box-Painter s.inverse width x y height xin yin s bytes refl
box-Paints x y width height false s wide high xin yin bytes =
    outline-Painter s.inverse x y width height xin yin wide high s bytes refl
