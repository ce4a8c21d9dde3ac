-- ===== src/Ui/Tests.antt =====
-- The theorems on the user interface at concrete inputs, and a run of its drawing routines.
use arctic_tracker_teensy.Base.{
  ℕ, zero, suc, ◌+◌, ◌≤◌, ◌%◌, ◌<◌, ◌≡◌, refl, true, false, none, some, [], ◌∷◌, codes, length,
  get_elem?, arith,
}
use arctic_tracker_teensy.Base.Int.{pos, ltb_ℤ, leb_ℤ, eqb_ℤ, abs, neg, ◌-ℤ◌, ◌+ℤ◌}
use arctic_tracker_teensy.Ui.Leds.{Leds, pri_rgb_led_on, chandler}
use arctic_tracker_teensy.Ui.Priority.{turn_on, turn_off, blend, tick, run, run-pri_rgb_led_on}
use arctic_tracker_teensy.Ui.Rounds.{part, outcome}
use arctic_tracker_teensy.Ui.Mixing.{chandler-outcome, chandler_endless}
use arctic_tracker_teensy.Ui.Button.{Button, edge, debounced, events, interrupt, service}
use arctic_tracker_teensy.Ui.Presses.{events_once}
use arctic_tracker_teensy.Ui.Screen.{Screen, outside, set_pixel}
use arctic_tracker_teensy.Ui.Figures.{welcome, write_text}
use arctic_tracker_teensy.Ui.Pixels.{IsBytes, Paints}
use arctic_tracker_teensy.Ui.Boxes.{rect, box-Paints}
use arctic_tracker_teensy.Ui.Shapes.{box, line, ink_at, line_loop, step_x, step_y, step_err}
use arctic_tracker_teensy.Ui.Font.{fonts8x5}
use arctic_tracker_teensy.Ui.Straight.{trace}
use arctic_tracker_teensy.Ui.Lines.{dist, steps, line-trace}
use arctic_tracker_teensy.Ui.Status.{Device}
use arctic_tracker_teensy.Ui.Menu.{Menu, push_handler, menu_activate, chosen, items, nitems}
use arctic_tracker_teensy.Ui.Selected.{
  IsMenu, click, push, handle_all, handle_all-IsMenu, clicks, call_of, call-clicks,
}

-- A light that shows blue, with a mixture of green and dark that has ended.
abbrev blue_light : Leds
blue_light = record {
  red = 0;
  green = 20;
  blue = 0;
  off = 40;
  cstate = some 1;
  mix = false;
  led_red = false;
  led_green = false;
  led_blue = true;
  on = true;
  pri_on = false;
  pin_red = false;
  pin_green = false;
  pin_blue = true;
  timer = none;
}

run-pri_rgb_led_on_example :
    let t = pri_rgb_led_on true false false blue_light in
    (run 2 (turn_on false true true ∷ tick ∷ blend 1 2 3 4 ∷ turn_off ∷ []) t ≡ some t)
    × (t.pin_red ≡ true)
    × (t.pin_green ≡ false)
    × (t.pin_blue ≡ false)
run-pri_rgb_led_on_example =
    run-pri_rgb_led_on true false false blue_light 2
      (turn_on false true true ∷ tick ∷ blend 1 2 3 4 ∷ turn_off ∷ [])

no_red : (i : ℕ) → i < 1 → part blue_light ((1 + i) % 4) ≡ 0
unfolding part
no_red zero lt = refl
no_red (suc i) lt = absurd (omega arith)

green_has : 0 < part blue_light ((1 + 1) % 4)
unfolding part
green_has = omega arith

chandler-outcome_example :
    outcome (chandler 2 blue_light)
    ≡ some (some (part blue_light ((1 + 1) % 4)), some ((1 + 1 + 1) % 4))
chandler-outcome_example =
    chandler-outcome blue_light 1 1 refl (omega arith) (omega arith) green_has no_red

abbrev no_light : Leds
no_light = record blue_light { green = 0; off = 0 }

no_parts : (k : ℕ) → part no_light k ≡ 0
unfolding part
no_parts zero = refl
no_parts (suc zero) = refl
no_parts (suc (suc zero)) = refl
no_parts (suc (suc (suc k))) = refl

chandler_endless_example : chandler 1000 no_light ≡ none
chandler_endless_example = chandler_endless 1000 no_light 1 refl (omega arith) no_parts

abbrev idle_button : Button
idle_button = record {
  buttdown = false;
  pressed = false;
  vtb = false;
  vtb1 = false;
  butt_event = 0;
  signalled = false;
}

events_once_example :
    length (events (edge false ∷ debounced false ∷ edge true ∷ edge true ∷ []) idle_button) ≤ 1
events_once_example =
    events_once (debounced false ∷ edge true ∷ edge true ∷ []) idle_button (refl, (refl, tt)) refl

-- The click of the example is an event.
click_event : events (edge false ∷ debounced false ∷ edge true ∷ []) idle_button ≡ 1 ∷ []
unfolding events interrupt service
click_event = refl

abbrev blank : Screen
blank = record { buffer = λ i j. 0; changed = λ i. false; inverse = false }

blank-IsBytes : IsBytes blank
unfolding IsBytes
blank-IsBytes i j = omega arith

box-Paints_example : Paints (rect 4 6 20 9) true blank (box 4 6 20 9 true blank)
box-Paints_example =
    box-Paints 4 6 20 9 true blank (omega arith) (omega arith) (omega arith) (omega arith)
      blank-IsBytes

short_way : steps (dist (pos 10) (pos 3)) (dist (pos 5) (pos 9)) < 8
unfolding steps dist abs ◌-ℤ◌
short_way = omega arith

line-trace_example :
    let a = dist (pos 10) (pos 3) in
    let b = dist (pos 5) (pos 9) in
    line 8 (pos 10) (pos 5) (pos 3) (pos 9) blank
    ≡ trace
        (pos 10)
        (pos 5)
        (ltb_ℤ (pos 10) (pos 3))
        (ltb_ℤ (pos 5) (pos 9))
        a
        b
        (steps a b)
        (steps a b)
        0
        blank
line-trace_example = line-trace 8 (pos 10) (pos 5) (pos 3) (pos 9) blank short_way

abbrev device : Device
device = record {
  wifi_on = true;
  igate_on = false;
  digipeater_on = true;
  mycall = codes "LA7ECA";
  tx_freq = 1448000;
  batt = 7900;
  batt_text = codes "7.90 V";
  is_fixed = false;
  lat = [];
  long = [];
  date = [];
  wifi_status = codes "Idle";
  conf = codes "home (2)";
  ip = codes "-";
  wifi_enabled = true;
  ap_ssid = codes "Arctic";
  ap_ip = codes "-";
}

abbrev closed_menu : Menu
closed_menu = record { start = 0; selection = 0; menu_active = false; current = 5 }

handle_all-IsMenu_example :
    (n : Menu) × (handle_all device
        (push ∷ click ∷ click ∷ click ∷ click ∷ push ∷ click ∷ [])
        closed_menu
      ≡ some n)
    × IsMenu n
handle_all-IsMenu_example =
    handle_all-IsMenu device (push ∷ click ∷ click ∷ click ∷ click ∷ push ∷ click ∷ []) closed_menu
      (record { visible = omega arith; shown = omega arith; screen = omega arith })

call-clicks_example :
    ((k : ℕ)
      → k < nitems
      → call_of (push_handler device (clicks device k (menu_activate closed_menu).menu))
        ≡ chosen device (get_elem? items k))
    × ((clicks device nitems (menu_activate closed_menu).menu).menu_active ≡ false)
call-clicks_example = call-clicks device closed_menu

-- The vertical line of the welcome screen goes on below the display.
welcome_outside : welcome blank ≡ outside
unfolding welcome ink_at set_pixel line_loop step_x step_y step_err abs neg ltb_ℤ leb_ℤ eqb_ℤ ◌+ℤ◌
    ◌-ℤ◌
welcome_outside = refl

-- A text whose first character is set closer begins outside the display at the left edge.
narrow_first : write_text 0 37 (codes "192.168.4.1") blank ≡ outside
unfolding write_text fonts8x5 ◌-ℤ◌
narrow_first = refl
