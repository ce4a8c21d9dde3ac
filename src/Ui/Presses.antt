-- ===== src/Ui/Presses.antt =====
-- A press of the button is one event at most.
use arctic_tracker_teensy.Base.{
  ℕ, ◌+◌, ◌≤◌, ◌≡◌, true, false, List, [], ◌∷◌, length, Option, none, some, arith, if◌then◌else◌,
}
use arctic_tracker_teensy.Ui.Button.{
  Button, Interrupt, edge, debounced, held, interrupt, service, events,
}

-- No edge by which the button goes down.
abbrev pub NoPress : List Interrupt → Type 0
NoPress [] = Unit
NoPress (edge high ∷ is) = (high ≡ true) × NoPress is
NoPress (debounced high ∷ is) = NoPress is
NoPress (held ∷ is) = NoPress is

-- What holds between presses: a button that counts as pressed is down, and is not yet held.
record IsSettled (b : Button) : Type 0 where
  waits : b.pressed ≡ true → b.vtb1 ≡ true
  order : b.vtb ≡ true → b.vtb1 ≡ true
  handled : b.signalled ≡ false

-- One event where the long timer is set, none where it is not.
abbrev due : Button → ℕ
due b = if b.vtb1 then 1 else 0

abbrev count : Option ℕ → ℕ
count none = 0
count (some e) = 1

-- What a round adds to the events was due, and is due no more.
record Keeps (b : Button) (r : Button × Option ℕ) : Type 0 where
  settled : IsSettled r.0
  fewer : count r.1 + due r.0 ≤ due b

round-Keeps :
    (i : Interrupt) (b : Button)
    → NoPress (i ∷ [])
    → IsSettled b
    → Keeps b (service (interrupt i b))
unfolding interrupt service
round-Keeps (edge high) b clean h = ground arith
round-Keeps (debounced high) b clean h = ground arith
round-Keeps held b clean h = ground arith

NoPress-head : (i : Interrupt) (is : List Interrupt) → NoPress (i ∷ is) → NoPress (i ∷ [])
NoPress-head (edge high) is clean = (clean.0, tt)
NoPress-head (debounced high) is clean = tt
NoPress-head held is clean = tt

NoPress-tail : (i : Interrupt) (is : List Interrupt) → NoPress (i ∷ is) → NoPress is
NoPress-tail (edge high) is clean = clean.1
NoPress-tail (debounced high) is clean = clean
NoPress-tail held is clean = clean

length-events :
    (is : List Interrupt) (b : Button) → NoPress is → IsSettled b → length (events is b) ≤ due b
unfolding events
length-events [] b clean h = omega arith
length-events (i ∷ is) b clean h =
    let k = round-Keeps i b (NoPress-head i is clean) h in
    let rest = length-events is (service (interrupt i b)).0 (NoPress-tail i is clean) k.settled in
    ground (arith, k.fewer, rest)

-- The button goes down: no event, and the timers are set.
down :
    (b : Button)
    → b.signalled ≡ false
    → let r = service (interrupt (edge false) b) in IsSettled r.0 × (r.1 ≡ none) × (r.0.vtb1 ≡ true)
unfolding interrupt service
down b waits = ground arith

-- After the button has gone down, until it goes down again, whatever edges and timers there are:
-- there is one event at most, a click or a long press.
pub events_once :
    (is : List Interrupt) (b : Button)
    → NoPress is
    → b.signalled ≡ false
    → length (events (edge false ∷ is) b) ≤ 1
unfolding events
events_once is b clean waits =
    let c = (service (interrupt (edge false) b)).0 in
    let p = down b waits in
    let rest = length-events is c clean p.0 in ground (arith, p.1, p.2, rest)
