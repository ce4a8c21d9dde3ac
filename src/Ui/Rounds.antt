-- ===== src/Ui/Rounds.antt =====
-- The rounds of the callback that mixes the colours: a part that has a length ends them, and one
-- that has none is passed over.
use arctic_tracker_teensy.Base.{
  ℕ, zero, suc, ◌+◌, ◌%◌, ◌<◌, ◌≡◌, ◌≢◌, refl, sym, ap, ◌∙◌, Bool, true, false, Option, none, some,
  arith,
}
use arctic_tracker_teensy.Ui.Leds.{
  Leds, chandler_loop, show_red, show_green, show_blue, show_off, next_state, rgb_led_on, dark,
}

-- The length of the part of a state.
unfoldable pub part : Leds → ℕ → ℕ
part s zero = s.off
part s (suc zero) = s.red
part s (suc (suc zero)) = s.green
part s (suc (suc (suc k))) = s.blue

-- The timer and the next state.
unfoldable pub outcome : Option Leds → Option (Option ℕ × Option ℕ)
outcome none = none
outcome (some t) = some (t.timer, t.cstate)

abbrev pub round : Leds → Leds × Bool
round s = show_off (show_blue (show_green (show_red s)))

-- A part that is not due leaves the state as it is.
module _ (s : Leds) (c : ℕ) (e : s.cstate ≡ some c) where
  not_red : c ≢ 1 → show_red s ≡ s
  unfolding show_red
  not_red ne = ground arith

  not_green : c ≢ 2 → show_green s ≡ s
  unfolding show_green
  not_green ne = ground arith

  not_blue : c ≢ 3 → show_blue s ≡ s
  unfolding show_blue
  not_blue ne = ground arith

  not_off : c ≢ 0 → show_off s ≡ (s, false)
  unfolding show_off
  not_off ne = ground arith

rgb_led_on-cstate : (r g b : Bool) (s : Leds) → (rgb_led_on r g b s).cstate ≡ s.cstate
unfolding rgb_led_on
rgb_led_on-cstate r g b s = ground arith

-- The round ends with the state `c`, for which the timer is set.
abbrev pub Ends : Leds → ℕ → ℕ → Type 0
Ends s c d = (t : Leds) × (round s ≡ (t, false)) × (t.cstate ≡ some c) × (t.timer ≡ some d)

module _ (s : Leds) where
  red_due : s.cstate ≡ some 1 → 0 < s.red → Ends s 1 s.red
  unfolding show_red
  red_due e pos =
      let t = record (rgb_led_on true false false s) { timer = some s.red } in
      let shown : show_red s ≡ t = ground arith in
      let c : t.cstate ≡ some 1 = rgb_led_on-cstate true false false s ∙ e in
      (
        t,
        rw (shown, not_green t 1 c (λ q. omega arith), not_blue t 1 c (λ q. omega arith))
            (not_off t 1 c (λ q. omega arith)),
        c,
        refl,
      )

  green_due : s.cstate ≡ some 2 → 0 < s.green → Ends s 2 s.green
  unfolding show_green
  green_due e pos =
      let t = record (rgb_led_on false true false s) { timer = some s.green } in
      let shown : show_green s ≡ t = ground arith in
      let c : t.cstate ≡ some 2 = rgb_led_on-cstate false true false s ∙ e in
      (
        t,
        rw (not_red s 2 e (λ q. omega arith), shown, not_blue t 2 c (λ q. omega arith))
            (not_off t 2 c (λ q. omega arith)),
        c,
        refl,
      )

  blue_due : s.cstate ≡ some 3 → 0 < s.blue → Ends s 3 s.blue
  unfolding show_blue
  blue_due e pos =
      let t = record (rgb_led_on false false true s) { timer = some s.blue } in
      let shown : show_blue s ≡ t = ground arith in
      let c : t.cstate ≡ some 3 = rgb_led_on-cstate false false true s ∙ e in
      (
        t,
        rw (not_red s 3 e (λ q. omega arith), not_green s 3 e (λ q. omega arith), shown)
            (not_off t 3 c (λ q. omega arith)),
        c,
        refl,
      )

  off_due : s.cstate ≡ some 0 → 0 < s.off → Ends s 0 s.off
  unfolding show_off dark
  off_due e pos =
      let t = record (dark s) { timer = some s.off } in
      (
        t,
        rw
            (
              not_red s 0 e (λ q. omega arith),
              not_green s 0 e (λ q. omega arith),
              not_blue s 0 e (λ q. omega arith),
            )
            (ground arith),
        e,
        refl,
      )

-- In a state whose part has no length the round goes on with the next state.
module _ (s : Leds) where
  red_empty : s.cstate ≡ some 1 → s.red ≡ 0 → round s ≡ round (record s { cstate = some 2 })
  unfolding show_red
  red_empty e empty =
      let shown : show_red s ≡ record s { cstate = some 2 } = ground arith in
      rw (shown, not_red (record s { cstate = some 2 }) 2 refl (λ q. omega arith)) refl

  green_empty : s.cstate ≡ some 2 → s.green ≡ 0 → round s ≡ round (record s { cstate = some 3 })
  unfolding show_green
  green_empty e empty =
      let t = record s { cstate = some 3 } in
      let shown : show_green s ≡ t = ground arith in
      rw
        (
          not_red s 2 e (λ q. omega arith),
          shown,
          not_red t 3 refl (λ q. omega arith),
          not_green t 3 refl (λ q. omega arith),
        )
        refl

  blue_empty : s.cstate ≡ some 3 → s.blue ≡ 0 → round s ≡ round (record s { cstate = some 0 })
  unfolding show_blue
  blue_empty e empty =
      let t = record s { cstate = some 0 } in
      let shown : show_blue s ≡ t = ground arith in
      rw
        (
          not_red s 3 e (λ q. omega arith),
          not_green s 3 e (λ q. omega arith),
          shown,
          not_red t 0 refl (λ q. omega arith),
          not_green t 0 refl (λ q. omega arith),
          not_blue t 0 refl (λ q. omega arith),
        )
        refl

  off_empty : s.cstate ≡ some 0 → s.off ≡ 0 → round s ≡ (record s { cstate = some 1 }, true)
  unfolding show_off
  off_empty e empty =
      rw
        (
          not_red s 0 e (λ q. omega arith),
          not_green s 0 e (λ q. omega arith),
          not_blue s 0 e (λ q. omega arith),
        )
        (ground arith)

pub part_same : (s : Leds) (k : ℕ) (o : Option ℕ) → part (record s { cstate = o }) k ≡ part s k
unfolding part
part_same s zero o = refl
part_same s (suc zero) o = refl
part_same s (suc (suc zero)) o = refl
part_same s (suc (suc (suc k))) o = refl

pub add_later : (c k : ℕ) → c + suc k ≡ suc c + k
add_later c k = omega arith

pub turn : (c k : ℕ) → ((c + 1) % 4 + k) % 4 ≡ (c + suc k) % 4
turn c k = omega arith

pub turn_next : (c k : ℕ) → ((c + 1) % 4 + k + 1) % 4 ≡ (c + suc k + 1) % 4
turn_next c k = omega arith

pub due : (s : Leds) (c : ℕ) → s.cstate ≡ some c → c < 4 → 0 < part s c → Ends s c (part s c)
unfolding part
due s zero e lt pos = off_due s e pos
due s (suc zero) e lt pos = red_due s e pos
due s (suc (suc zero)) e lt pos = green_due s e pos
due s (suc (suc (suc zero))) e lt pos = blue_due s e pos
due s (suc (suc (suc (suc c)))) e lt pos = absurd (omega arith)

-- A round, and then either another or the end.
abbrev follow : ℕ → Leds × Bool → Option Leds
follow fuel r = elim (r.1) [ true ↦ chandler_loop fuel r.0 | false ↦ some (next_state r.0) ]

follow_round : (fuel : ℕ) (s : Leds) → chandler_loop (suc fuel) s ≡ follow fuel (round s)
unfolding chandler_loop
follow_round fuel s = refl

pub due_outcome :
    (s : Leds) (fuel c d : ℕ)
    → Ends s c d
    → outcome (chandler_loop (suc fuel) s) ≡ some (some d, some ((c + 1) % 4))
unfolding outcome next_state
due_outcome s fuel c d (t, e, state, timer) =
    let next : outcome (some (next_state t)) ≡ some (some d, some ((c + 1) % 4)) = ground arith in
    ap outcome (follow_round fuel s ∙ ap (follow fuel) e) ∙ next

pub goes_on :
    (s : Leds) (fuel c : ℕ)
    → s.cstate ≡ some (suc c)
    → suc c < 4
    → part s (suc c) ≡ 0
    → chandler_loop (suc fuel) s
      ≡ chandler_loop (suc fuel) (record s { cstate = some ((suc c + 1) % 4) })
unfolding part
goes_on s fuel zero e lt empty =
    follow_round fuel s ∙ ap (follow fuel) (red_empty s e empty) ∙ sym (follow_round fuel _)
goes_on s fuel (suc zero) e lt empty =
    follow_round fuel s ∙ ap (follow fuel) (green_empty s e empty) ∙ sym (follow_round fuel _)
goes_on s fuel (suc (suc zero)) e lt empty =
    follow_round fuel s ∙ ap (follow fuel) (blue_empty s e empty) ∙ sym (follow_round fuel _)
goes_on s fuel (suc (suc (suc c))) e lt empty = absurd (omega arith)

pub goes_round :
    (s : Leds) (fuel : ℕ)
    → s.cstate ≡ some 0
    → part s 0 ≡ 0
    → chandler_loop (suc fuel) s ≡ chandler_loop fuel (record s { cstate = some 1 })
unfolding part
goes_round s fuel e empty = follow_round fuel s ∙ ap (follow fuel) (off_empty s e empty)
