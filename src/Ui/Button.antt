-- ===== src/Ui/Button.antt =====
-- ui/ui.c: the push button. The handlers of its pin and of its two timers decide between a click
-- and a long press, and the service thread calls the handler for it.
use arctic_tracker_teensy.Base.{
  ℕ, Bool, true, false, not, ◌&&◌, Option, none, some, List, [], ◌∷◌, if◌then◌else◌,
}

-- `buttdown`, `pressed`, whether the timers `vtb` and `vtb1` are set, `butt_event`, and whether
-- `ui_srv` is signalled.
pub record Button : Type 0 where
  pub buttdown : Bool
  pub pressed : Bool
  pub vtb : Bool
  pub vtb1 : Bool
  pub butt_event : ℕ
  pub signalled : Bool

-- BUTT_EV_SHORT
abbrev pub butt_ev_short : ℕ
butt_ev_short = 1

-- BUTT_EV_LONG
abbrev pub butt_ev_long : ℕ
butt_ev_long = 2

-- clickhandler
unfoldable pub clickhandler : Button → Button
clickhandler b = record b { butt_event = butt_ev_short; signalled = true }

-- holdhandler, the callback of `vtb1` after 600 ms
unfoldable pub holdhandler : Button → Button
holdhandler b = record b { pressed = false; butt_event = butt_ev_long; signalled = true }

-- bphandler, the callback of `vtb` after 10 ms
unfoldable pub bphandler : Bool → Button → Button
bphandler high b = if not high && b.buttdown then record b { pressed = true } else b

-- button_handler, at an edge of the pin
unfoldable pub button_handler : Bool → Button → Button
unfolding clickhandler
button_handler high b =
    let c = record b { buttdown = not high; vtb = false; vtb1 = false } in
    if not high
    then record c { vtb = true; vtb1 = true }
    else record (if c.pressed then clickhandler c else c) { pressed = false }

-- What may interrupt: an edge of the pin, and the timers while they are set. The level of the pin
-- is given where a handler reads it. Both timers are set together, and the short one runs out
-- first.
pub data Interrupt : Type 0 where
  edge : Bool → Interrupt
  debounced : Bool → Interrupt
  held : Interrupt

unfoldable pub interrupt : Interrupt → Button → Button
unfolding button_handler bphandler holdhandler
interrupt (edge high) b = button_handler high b
interrupt (debounced high) b = if b.vtb then bphandler high (record b { vtb = false }) else b
interrupt held b = if b.vtb1 && not b.vtb then holdhandler (record b { vtb1 = false }) else b

-- A round of ui_service_thread: the event that it handles, where one is signalled
unfoldable pub service : Button → Button × Option ℕ
service b =
    if b.signalled
    then (record b { signalled = false; butt_event = 0 }, some b.butt_event)
    else (b, none)

-- The service thread is faster than the button: the events that it handles, a round after each
-- interrupt.
unfoldable pub events : List Interrupt → Button → List ℕ
events [] b = []
events (i ∷ is) b =
    let r = service (interrupt i b) in
    let rest = events is r.0 in elim (r.1) [ none ↦ rest | some e ↦ e ∷ rest ]
