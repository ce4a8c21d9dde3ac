-- ===== src/Ui/Priority.antt =====
-- A light of priority is the only one while it is on, and what it leaves when it goes.
use arctic_tracker_teensy.Base.{ℕ, ◌≡◌, Bool, Option, none, some, List, [], ◌∷◌, arith}
use arctic_tracker_teensy.Ui.Leds.{
  Leds, rgb_led_on, rgb_led_off, rgb_led_mix, pri_rgb_led_on, chandler,
}

-- What else may happen to the light.
pub data Op : Type 0 where
  turn_on : Bool → Bool → Bool → Op
  turn_off : Op
  blend : ℕ → ℕ → ℕ → ℕ → Op
  tick : Op

-- The state after each operation, with `fuel` rounds for each call of the timer; none where one
-- does not end.
unfoldable pub run : ℕ → List Op → Leds → Option Leds
run fuel [] s = some s
run fuel (turn_on r g b ∷ ops) s = run fuel ops (rgb_led_on r g b s)
run fuel (turn_off ∷ ops) s = run fuel ops (rgb_led_off s)
run fuel (blend r g b o ∷ ops) s = run fuel ops (rgb_led_mix r g b o s)
run fuel (tick ∷ ops) s = elim (chandler fuel s) [ none ↦ none | some t ↦ run fuel ops t ]

module _ (red green blue : Bool) (s : Leds) where
  -- While a light of priority is on, whatever is turned on, off or mixed, and whenever the timer
  -- runs out, its colours are on the pins and nothing of the state changes.
  pub run-pri_rgb_led_on :
      (fuel : ℕ) (ops : List Op)
      → let t = pri_rgb_led_on red green blue s in
        (run fuel ops t ≡ some t) × (t.pin_red ≡ red) × (t.pin_green ≡ green) × (t.pin_blue ≡ blue)
  unfolding run rgb_led_on rgb_led_off rgb_led_mix pri_rgb_led_on chandler
  run-pri_rgb_led_on fuel [] = ground arith
  run-pri_rgb_led_on fuel (turn_on r g b ∷ ops) = run-pri_rgb_led_on fuel ops
  run-pri_rgb_led_on fuel (turn_off ∷ ops) = run-pri_rgb_led_on fuel ops
  run-pri_rgb_led_on fuel (blend r g b o ∷ ops) = run-pri_rgb_led_on fuel ops
  run-pri_rgb_led_on fuel (tick ∷ ops) = run-pri_rgb_led_on fuel ops
