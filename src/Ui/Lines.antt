-- ===== src/Ui/Lines.antt =====
-- gui_line: it ends, and what it draws is the straight line, rounded.

use arctic_tracker_teensy.Base.{
  ℕ, zero, suc, ◌+◌, ◌*◌, ◌≤◌, ◌<◌, ◌≡◌, refl, sym, ◌∙◌, Bool, Bool-cases, inl, inr, arith, leb,
  ◌==◌, if◌then◌else◌,
}
use arctic_tracker_teensy.Base.Int.{ℤ, pos, negsuc, pos_part, ◌+ℤ◌, ◌-ℤ◌, ltb_ℤ, abs, neg, +ℤ_parts}
use arctic_tracker_teensy.Ui.Screen.{Screen}
use arctic_tracker_teensy.Ui.Shapes.{line}
use arctic_tracker_teensy.Ui.Steps.{go, unit, go_zero, neg_pos, IsError, loop, last_round}
use arctic_tracker_teensy.Ui.Straight.{rounded, trace, then_nothing, loop_wide, loop_tall}

-- The distance of two coordinates.
unfoldable pub dist : ℤ → ℤ → ℕ
dist x0 x1 = pos_part (abs (x1 -ℤ x0))

-- The greater distance: the number of steps.
unfoldable pub steps : ℕ → ℕ → ℕ
steps a b = if leb b a then a else b

steps_zero : (a b : ℕ) → a ≡ 0 → b ≡ 0 → steps a b ≡ 0
unfolding steps
steps_zero a b ea eb = ground arith

rounded_zero : (m : ℕ) → rounded 0 m 0 ≡ 0
unfolding rounded
rounded_zero m = let e : 2 * (0 * m) + 0 ≡ 0 = omega arith in rw e refl

first-IsError : (a b : ℕ) → IsError a b (pos a +ℤ neg (pos b)) 0 0
first-IsError a b = ground (arith, +ℤ_parts (pos a) (neg (pos b)), neg_pos b)

module _ (x y : ℤ) (upx upy : Bool) (a b : ℕ) where
  -- Where the ends are the same there is one round.
  from_still :
      (n : ℕ) (s : Screen)
      → a ≡ 0
      → b ≡ 0
      → loop x y upx upy a b (suc n) 0 0 (pos a +ℤ neg (pos b)) s
        ≡ trace x y upx upy a b (steps a b) (steps a b) 0 s
  unfolding trace
  from_still n s ea eb =
      let count : steps a b ≡ 0 = steps_zero a b ea eb in
      last_round x y upx upy a b n 0 0 (pos a +ℤ neg (pos b)) s (sym ea) (sym eb)
      ∙ then_nothing _
      ∙ rw (count, rounded_zero a, rounded_zero b) refl

  from_start :
      (n : ℕ) (s : Screen)
      → steps a b ≤ n
      → loop x y upx upy a b (suc n) 0 0 (pos a +ℤ neg (pos b)) s
        ≡ trace x y upx upy a b (steps a b) (steps a b) 0 s
  unfolding steps
  from_start n s enough = elim (Bool-cases (leb b a)) [
    | inl wide ↦ elim (Bool-cases (a == 0)) [
      | inl still ↦ from_still n s (ground arith) (ground arith)
      | inr way ↦ rw wide (
          loop_wide x y upx upy a b a n 0 0 0 0 (pos a +ℤ neg (pos b)) s (omega arith) (omega arith)
            (omega arith) (ground arith) (ground arith) (ground arith) (ground arith) (ground arith)
            (first-IsError a b))
    ]
    | inr tall ↦ rw tall (
        loop_tall x y upx upy a b b n 0 0 0 0 (pos a +ℤ neg (pos b)) s (omega arith) (omega arith)
          (omega arith) (ground arith) (ground arith) (ground arith) (ground arith) (ground arith)
          (first-IsError a b))
  ]

  loop-trace :
      (fuel : ℕ) (s : Screen)
      → steps a b < fuel
      → loop x y upx upy a b fuel 0 0 (pos a +ℤ neg (pos b)) s
        ≡ trace x y upx upy a b (steps a b) (steps a b) 0 s
  loop-trace zero s enough = absurd (omega arith)
  loop-trace (suc n) s enough = from_start n s (omega arith)

abs_pos : (d : ℤ) → abs d ≡ pos (pos_part (abs d))
unfolding abs
abs_pos (pos n) = refl
abs_pos (negsuc n) = refl

go_end : (x0 x1 : ℤ) → go (ltb_ℤ x0 x1) x0 (dist x0 x1) ≡ x1
unfolding go dist ltb_ℤ abs ◌+ℤ◌ ◌-ℤ◌
go_end x0 x1 = ground arith

abs-dist : (x0 x1 : ℤ) → abs (x1 -ℤ x0) ≡ pos (dist x0 x1)
unfolding dist
abs-dist x0 x1 = abs_pos (x1 -ℤ x0)

line-loop :
    (fuel : ℕ) (x0 y0 x1 y1 : ℤ) (s : Screen)
    → line fuel x0 y0 x1 y1 s
      ≡ loop x0 y0
          (ltb_ℤ x0 x1)
          (ltb_ℤ y0 y1)
          (dist x0 x1)
          (dist y0 y1)
          fuel
          0
          0
          (pos (dist x0 x1) +ℤ neg (pos (dist y0 y1)))
          s
unfolding line unit
line-loop fuel x0 y0 x1 y1 s =
    rw
      (
        abs-dist x0 x1,
        abs-dist y0 y1,
        go_end x0 x1,
        go_end y0 y1,
        go_zero (ltb_ℤ x0 x1) x0,
        go_zero (ltb_ℤ y0 y1) y0,
      )
      refl

-- gui_line ends, as soon as it has a round more than the greater distance of the ends. It draws a
-- point for each step of that distance and one more: the `k`-th is `k` steps of the whole way from
-- the first end towards the second, in both coordinates rounded to the nearest pixel.
pub line-trace :
    (fuel : ℕ) (x0 y0 x1 y1 : ℤ) (s : Screen)
    → let a = dist x0 x1 in
      let b = dist y0 y1 in
      steps a b < fuel
      → line fuel x0 y0 x1 y1 s
        ≡ trace x0 y0 (ltb_ℤ x0 x1) (ltb_ℤ y0 y1) a b (steps a b) (steps a b) 0 s
line-trace fuel x0 y0 x1 y1 s enough =
    line-loop fuel x0 y0 x1 y1 s
    ∙ loop-trace x0 y0 (ltb_ℤ x0 x1) (ltb_ℤ y0 y1) (dist x0 x1) (dist y0 y1) fuel s enough
