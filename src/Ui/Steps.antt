-- ===== src/Ui/Steps.antt =====
-- A round of the loop of gui_line, where the coordinates are given by the steps from the start.

use arctic_tracker_teensy.Base.{
  ℕ, zero, suc, ◌+◌, ◌*◌, ◌/◌, ◌≤◌, ◌<◌, ◌≡◌, refl, Bool, true, false, ◌&&◌, arith, leb, ◌==◌,
  if◌then◌else◌,
}
use arctic_tracker_teensy.Base.Int.{
  ℤ, pos, negsuc, pos_part, neg_part, ◌+ℤ◌, ◌-ℤ◌, leb_ℤ, eqb_ℤ, neg, int_laws, +ℤ_parts, -ℤ_parts,
}
use arctic_tracker_teensy.Ui.Screen.{Screen, drawn, Plot, ◌>>◌}
use arctic_tracker_teensy.Ui.Shapes.{ink_at, line_loop, step_err, step_x, step_y}

pub div_unique : (n d q : ℕ) → q * d ≤ n → n < q * d + d → n / d ≡ q
div_unique n d q low high = grind arith

-- `i` steps from `x`, to the right or to the left
unfoldable pub go : Bool → ℤ → ℕ → ℤ
go true x i = x +ℤ pos i
go false x i = x -ℤ pos i

unfoldable pub unit : Bool → ℤ
unit up = if up then pos 1 else negsuc 0

go_step : (up : Bool) (x : ℤ) (i : ℕ) → go up x i +ℤ unit up ≡ go up x (i + 1)
unfolding go unit
go_step true x i = omega int_laws
go_step false x i = omega int_laws

pub go_zero : (up : Bool) (x : ℤ) → go up x 0 ≡ x
unfolding go
go_zero true x = omega int_laws
go_zero false x = omega int_laws

pub go_same : (up : Bool) (x : ℤ) (i j : ℕ) → eqb_ℤ (go up x i) (go up x j) ≡ (i == j)
unfolding go eqb_ℤ
go_same true x i j = ground (arith, +ℤ_parts x (pos i), +ℤ_parts x (pos j))
go_same false x i j = ground (arith, -ℤ_parts x (pos i), -ℤ_parts x (pos j))

pub neg_pos : (b : ℕ) → (pos_part (neg (pos b)) ≡ 0) × (neg_part (neg (pos b)) ≡ b)
unfolding neg
neg_pos zero = (refl, refl)
neg_pos (suc b) = (refl, refl)

-- The error of a state: `p` and `q` are what the steps in `y` and in `x` have added to it and
-- taken from it.
abbrev pub IsError : ℕ → ℕ → ℤ → ℕ → ℕ → Type 0
IsError a b err p q = pos_part err + q + b ≡ neg_part err + p + a

-- What the two tests come to.
abbrev pub goes_x : ℕ → ℕ → ℕ → ℕ → Bool
goes_x a b p q = leb (q + q + b) (p + p + a + a)

abbrev pub goes_y : ℕ → ℕ → ℕ → ℕ → Bool
goes_y a b p q = leb (p + p + a) (q + q + b + b)

module _ (a b : ℕ) (err : ℤ) (p q : ℕ) (e : IsError a b err p q) where
  test_x : leb_ℤ (neg (pos b)) (err +ℤ err) ≡ goes_x a b p q
  unfolding leb_ℤ
  test_x = ground (arith, +ℤ_parts err err, neg_pos b)

  test_y : leb_ℤ (err +ℤ err) (pos a) ≡ goes_y a b p q
  unfolding leb_ℤ
  test_y = ground (arith, +ℤ_parts err err)

  pub next-IsError :
      IsError a b
        (step_err (pos a) (neg (pos b)) err)
        (if goes_y a b p q then p + a else p)
        (if goes_x a b p q then q + b else q)
  unfolding step_err
  next-IsError =
      let half = err +ℤ neg (pos b) in
      rw (test_x, test_y)
        (ground (
          arith,
          +ℤ_parts err (neg (pos b)),
          neg_pos b,
          +ℤ_parts half (pos a),
          +ℤ_parts err (pos a),
        ))

go_if :
    (up c : Bool) (x : ℤ) (i : ℕ)
    → (if c then go up x i +ℤ unit up else go up x i) ≡ go up x (if c then i + 1 else i)
go_if up true x i = go_step up x i
go_if up false x i = refl

module _ (x y : ℤ) (upx upy : Bool) (a b : ℕ) where
  abbrev pub loop : ℕ → ℕ → ℕ → ℤ → Plot
  loop fuel i j err =
      line_loop fuel (go upx x a) (go upy y b) (pos a) (neg (pos b)) (unit upx) (unit upy)
        (go upx x i) (go upy y j) err

  abbrev pub here : ℕ → ℕ → Plot
  here i j = ink_at (go upx x i) (go upy y j)

  pub last_round :
      (fuel i j : ℕ) (err : ℤ) (s : Screen)
      → i ≡ a
      → j ≡ b
      → loop (suc fuel) i j err s ≡ (here i j >> drawn) s
  unfolding line_loop
  last_round fuel i j err s ia jb =
      let ends : (eqb_ℤ (go upx x i) (go upx x a) && eqb_ℤ (go upy y j) (go upy y b)) ≡ true =
        rw (go_same upx x i a, go_same upy y j b) (ground arith) in
      rw ends refl

  pub other_round :
      (fuel i j p q : ℕ) (err : ℤ) (s : Screen)
      → IsError a b err p q
      → (i == a && j == b) ≡ false
      → loop (suc fuel) i j err s
        ≡ (here i j
              >> loop fuel
                  (if goes_x a b p q then i + 1 else i)
                  (if goes_y a b p q then j + 1 else j)
                  (step_err (pos a) (neg (pos b)) err))
            s
  unfolding line_loop step_x step_y
  other_round fuel i j p q err s e more =
      let test : (eqb_ℤ (go upx x i) (go upx x a) && eqb_ℤ (go upy y j) (go upy y b)) ≡ false =
        rw (go_same upx x i a, go_same upy y j b) more in
      let right : step_x (neg (pos b)) (unit upx) err (go upx x i)
          ≡ go upx x (if goes_x a b p q then i + 1 else i) =
        rw (test_x a b err p q e) (go_if upx (goes_x a b p q) x i) in
      let down : step_y (pos a) (unit upy) err (go upy y j)
          ≡ go upy y (if goes_y a b p q then j + 1 else j) =
        rw (test_y a b err p q e) (go_if upy (goes_y a b p q) y j) in
      rw (test, ← right, ← down) refl
