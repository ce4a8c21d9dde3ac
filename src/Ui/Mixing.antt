-- ===== src/Ui/Mixing.antt =====
-- The callback that mixes the colours ends if one of the parts has a length, and only then.
use arctic_tracker_teensy.Base.{
  ℕ, zero, suc, ◌+◌, ◌/◌, ◌%◌, ◌≤◌, ◌<◌, ◌≡◌, refl, ap, ◌∙◌, Option, none, some, arith,
}
use arctic_tracker_teensy.Ui.Rounds.{
  part, part_same, outcome, due, due_outcome, goes_on, goes_round, add_later, turn, turn_next,
}
use arctic_tracker_teensy.Ui.Leds.{Leds, chandler, chandler_loop}

-- `len` gives the lengths of the parts. The multiples of four from `c` on and below `c + k` are the
-- rounds that end without a colour.
loop_outcome :
    (len : ℕ → ℕ) (s : Leds) (k fuel c : ℕ)
    → ((j : ℕ) → part s j ≡ len j)
    → s.cstate ≡ some c
    → c < 4
    → (c + k + 3) / 4 ≤ fuel + (c + 3) / 4
    → 0 < len ((c + k) % 4)
    → ((i : ℕ) → i < k → len ((c + i) % 4) ≡ 0)
    → outcome (chandler_loop (suc fuel) s) ≡ some (some (len ((c + k) % 4)), some ((c + k + 1) % 4))
loop_outcome len s zero fuel c lens e lt enough pos before =
    let here : (c + 0) % 4 ≡ c = omega arith in
    let next : (c + 0 + 1) % 4 ≡ (c + 1) % 4 = omega arith in
    let there : 0 < len c = rw here at pos in
    let positive : 0 < part s c = rw (lens c) there in
    rw (here, next, ← (lens c)) (due_outcome s fuel c (part s c) (due s c e lt positive))
loop_outcome len s (suc k) zero zero lens e lt enough pos before = absurd (omega arith)
loop_outcome len s (suc k) (suc fuel) zero lens e lt enough pos before =
    let t = record s { cstate = some 1 } in
    let same : (j : ℕ) → part t j ≡ len j = λ j. part_same s j (some 1) ∙ lens j in
    ap outcome (goes_round s (suc fuel) e (lens 0 ∙ before 0 (omega arith)))
    ∙ rw (add_later 0 k) (
        loop_outcome len t k fuel 1 same refl (omega arith) (omega arith)
          (rw (← (add_later 0 k)) pos)
          (λ i low. rw (← (add_later 0 i)) (before (suc i) (omega arith))))
loop_outcome len s (suc k) fuel (suc c) lens e lt enough pos before =
    let t = record s { cstate = some ((suc c + 1) % 4) } in
    let same : (j : ℕ) → part t j ≡ len j = λ j. part_same s j (some ((suc c + 1) % 4)) ∙ lens j in
    ap outcome
      (goes_on s fuel c e lt (lens (suc c) ∙ ap len (omega arith) ∙ before 0 (omega arith)))
    ∙ rw (← (turn (suc c) k), ← (turn_next (suc c) k))
        (loop_outcome len t k fuel ((suc c + 1) % 4) same refl (omega arith) (omega arith)
          (rw (turn (suc c) k) pos) (λ i low. rw (turn (suc c) i) (before (suc i) (omega arith))))

abbrev start : ℕ → Leds → Option ℕ → Option Leds
start fuel s none = some s
start fuel s (some c) = chandler_loop fuel s

chandler_due :
    (fuel : ℕ) (s : Leds) (c : ℕ) → s.cstate ≡ some c → chandler fuel s ≡ chandler_loop fuel s
unfolding chandler
chandler_due fuel s c e =
    let waits : chandler fuel s ≡ start fuel s s.cstate = ground arith in
    waits ∙ ap (start fuel s) e

-- In state `c`, where the part `k` states further is the first that has a length: chandler ends
-- after two rounds at most, sets the timer for that part, and goes on to the state behind it.
pub chandler-outcome :
    (s : Leds) (c k : ℕ)
    → s.cstate ≡ some c
    → c < 4
    → k < 4
    → 0 < part s ((c + k) % 4)
    → ((i : ℕ) → i < k → part s ((c + i) % 4) ≡ 0)
    → outcome (chandler 2 s) ≡ some (some (part s ((c + k) % 4)), some ((c + k + 1) % 4))
chandler-outcome s c k e c4 k4 pos before =
    ap outcome (chandler_due 2 s c e)
    ∙ loop_outcome (part s) s k 1 c (λ j. refl) e c4 (omega arith) pos before

-- Where no part has a length the state goes on to the next, and in the end round again.
module _ (s : Leds) (empty : (k : ℕ) → part s k ≡ 0) where
  abbrev at : ℕ → Leds
  at c = record s { cstate = some c }

  empty_at : (c k : ℕ) → part (at c) k ≡ 0
  empty_at c k = part_same s k (some c) ∙ empty k

  from_one : (fuel : ℕ) → chandler_loop fuel (at 1) ≡ none
  unfolding chandler_loop
  from_one zero = refl
  from_one (suc fuel) =
      goes_on (at 1) fuel 0 refl (omega arith) (empty_at 1 1)
      ∙ goes_on (at 2) fuel 1 refl (omega arith) (empty_at 2 2)
      ∙ goes_on (at 3) fuel 2 refl (omega arith) (empty_at 3 3)
      ∙ goes_round (at 0) fuel refl (empty_at 0 0)
      ∙ from_one fuel

  from_zero : (fuel : ℕ) → chandler_loop fuel (at 0) ≡ none
  unfolding chandler_loop
  from_zero zero = refl
  from_zero (suc fuel) = goes_round (at 0) fuel refl (empty_at 0 0) ∙ from_one fuel

  from_three : (fuel : ℕ) → chandler_loop fuel (at 3) ≡ none
  unfolding chandler_loop
  from_three zero = refl
  from_three (suc fuel) =
      goes_on (at 3) fuel 2 refl (omega arith) (empty_at 3 3) ∙ from_zero (suc fuel)

  from_two : (fuel : ℕ) → chandler_loop fuel (at 2) ≡ none
  unfolding chandler_loop
  from_two zero = refl
  from_two (suc fuel) =
      goes_on (at 2) fuel 1 refl (omega arith) (empty_at 2 2) ∙ from_three (suc fuel)

  from : (fuel c : ℕ) → c < 4 → chandler_loop fuel (at c) ≡ none
  from fuel zero lt = from_zero fuel
  from fuel (suc zero) lt = from_one fuel
  from fuel (suc (suc zero)) lt = from_two fuel
  from fuel (suc (suc (suc zero))) lt = from_three fuel
  from fuel (suc (suc (suc (suc c)))) lt = absurd (omega arith)

-- Where no part has a length and a colour is due, chandler never ends, however many rounds it is
-- given.
pub chandler_endless :
    (fuel : ℕ) (s : Leds) (c : ℕ)
    → s.cstate ≡ some c
    → c < 4
    → ((k : ℕ) → part s k ≡ 0)
    → chandler fuel s ≡ none
chandler_endless fuel s c e lt empty =
    chandler_due fuel s c e
    ∙ ap (λ (o : Option ℕ). chandler_loop fuel (record s { cstate = o })) e
    ∙ from s empty fuel c lt
