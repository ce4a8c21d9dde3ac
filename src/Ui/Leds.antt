-- ===== src/Ui/Leds.antt =====
-- ui/ui.c: the light of three colours, which is on, mixed in turns by a virtual timer, or taken by
-- a light of priority.
use arctic_tracker_teensy.Base.{
  ℕ, zero, suc, ◌+◌, ◌%◌, Bool, true, false, Option, none, some, ltb, ◌==◌, if◌then◌else◌,
}

-- The static variables of ui.c that are about the light: the parts of the mixture, `cstate`, which
-- is none for -1, `_ledstate`, the three pins, and the delay for which the timer `vt` was set.
pub record Leds : Type 0 where
  pub red : ℕ
  pub green : ℕ
  pub blue : ℕ
  pub off : ℕ
  pub cstate : Option ℕ
  pub mix : Bool
  pub led_red : Bool
  pub led_green : Bool
  pub led_blue : Bool
  pub on : Bool
  pub pri_on : Bool
  pub pin_red : Bool
  pub pin_green : Bool
  pub pin_blue : Bool
  pub timer : Option ℕ

-- _rgb_led_on: pins that are set already stay set.
unfoldable pub light : Bool → Bool → Bool → Leds → Leds
light red green blue s = record s {
  pin_red = if red then true else s.pin_red;
  pin_green = if green then true else s.pin_green;
  pin_blue = if blue then true else s.pin_blue;
}

-- _rgb_led_off
unfoldable pub dark : Leds → Leds
dark s = record s { pin_red = false; pin_green = false; pin_blue = false }

-- rgb_led_on
unfoldable pub rgb_led_on : Bool → Bool → Bool → Leds → Leds
unfolding light dark
rgb_led_on red green blue s =
    if s.pri_on
    then s
    else light red green blue
        (record (dark s) { led_red = red; led_green = green; led_blue = blue; on = true })

-- rgb_led_off
unfoldable pub rgb_led_off : Leds → Leds
unfolding dark
rgb_led_off s = if s.pri_on then s else dark (record s { cstate = none; on = false; mix = false })

-- rgb_led_mix
unfoldable pub rgb_led_mix : ℕ → ℕ → ℕ → ℕ → Leds → Leds
rgb_led_mix red green blue off s = if s.pri_on then s else record s {
  red = red;
  green = green;
  blue = blue;
  off = off;
  mix = true;
  on = true;
  cstate = some 1;
  timer = some (if off == 0 then 1 else off);
}

-- pri_rgb_led_on
unfoldable pub pri_rgb_led_on : Bool → Bool → Bool → Leds → Leds
unfolding light dark
pri_rgb_led_on red green blue s =
    record (light red green blue (dark (record s { cstate = none }))) { pri_on = true }

-- What pri_rgb_led_off does for a light that is on.
unfoldable pub relight : Leds → Leds
unfolding light rgb_led_mix
relight s =
    if s.mix
    then rgb_led_mix s.red s.green s.blue s.off (record s { cstate = some 1 })
    else light s.led_red s.led_green s.led_blue s

-- pri_rgb_led_off
unfoldable pub pri_rgb_led_off : Leds → Leds
unfolding relight dark
pri_rgb_led_off s =
    if s.on then relight (record s { pri_on = false }) else dark (record s { pri_on = false })

-- tx_led_on
unfoldable pub tx_led_on : Leds → Leds
unfolding pri_rgb_led_on
tx_led_on s = pri_rgb_led_on true false false s

-- tx_led_off
unfoldable pub tx_led_off : Leds → Leds
unfolding pri_rgb_led_off
tx_led_off s = pri_rgb_led_off s

-- Whether `cstate` has a value.
unfoldable pub in_state : ℕ → Leds → Bool
in_state k s = elim (s.cstate) [ none ↦ false | some c ↦ c == k ]

-- A part of the mixture that has a length is shown for it; otherwise the next one has its turn.
unfoldable pub show_red : Leds → Leds
unfolding in_state
show_red s =
    if in_state 1 s
    then (if ltb 0 s.red
        then record (rgb_led_on true false false s) { timer = some s.red }
        else record s { cstate = some 2 })
    else s

unfoldable pub show_green : Leds → Leds
unfolding in_state
show_green s =
    if in_state 2 s
    then (if ltb 0 s.green
        then record (rgb_led_on false true false s) { timer = some s.green }
        else record s { cstate = some 3 })
    else s

unfoldable pub show_blue : Leds → Leds
unfolding in_state
show_blue s =
    if in_state 3 s
    then (if ltb 0 s.blue
        then record (rgb_led_on false false true s) { timer = some s.blue }
        else record s { cstate = some 0 })
    else s

-- The last part of a round, with `loop`.
unfoldable pub show_off : Leds → Leds × Bool
unfolding in_state dark
show_off s =
    if in_state 0 s
    then (if ltb 0 s.off
        then (record (dark s) { timer = some s.off }, false)
        else (record s { cstate = some 1 }, true))
    else (s, false)

-- `cstate = (cstate+1) % 4`
unfoldable pub next_state : Leds → Leds
next_state s = elim (s.cstate) [ none ↦ s | some c ↦ record s { cstate = some ((c + 1) % 4) } ]

-- The do loop of chandler, with `fuel` rounds at most.
unfoldable pub chandler_loop : ℕ → Leds → Option Leds
unfolding show_red show_green show_blue show_off next_state
chandler_loop zero s = none
chandler_loop (suc fuel) s =
    let r = show_off (show_blue (show_green (show_red s))) in
    elim (r.1) [ true ↦ chandler_loop fuel r.0 | false ↦ some (next_state r.0) ]

-- chandler, the callback of the timer
unfoldable pub chandler : ℕ → Leds → Option Leds
unfolding chandler_loop
chandler fuel s = elim (s.cstate) [ none ↦ some s | some c ↦ chandler_loop fuel s ]
