-- ===== src/Floats/Naturals.antt =====
-- A small instance of the interface, for runs: natural numbers, of which the parts after the point
-- are lost.
use arctic_tracker_teensy.Base.{
  ℕ, zero, suc, ◌≡◌, ◌+◌, ◌-◌, ◌*◌, ◌/◌, ◌%◌, ◌<◌, ◌^◌, ltb, ◌==◌, arith,
}
use arctic_tracker_teensy.Floats.{Floats}
use arctic_tracker_teensy.Printf.{padded, read_digits}
use native.Mathlib.Nat.{mod-lt, pow-succ'}

pub pow_two-pos : (w : ℕ) → 0 < 2 ^ w
pow_two-pos zero = omega arith
pow_two-pos (suc w) =
    let e : 2 ^ suc w ≡ 2 * 2 ^ w = pow-succ' 2 w in omega (arith, e, pow_two-pos w)

abbrev pub naturals : Floats
naturals = record {
  F = ℕ;
  number = λ n. n;
  literal = λ n places. n / 10 ^ places;
  single = λ x. x;
  neg = λ x. 0;
  add = λ x y. x + y;
  sub = λ x y. x - y;
  mul = λ x y. x * y;
  div = λ x y. x / y;
  lt = ltb;
  eq = ◌==◌;
  sin = λ x. x;
  cos = λ x. 1;
  asin = λ x. x;
  sqrt = λ x. x;
  log = λ x. x;
  fabs = λ x. x;
  round = λ x. x;
  atan2 = λ y x. y;
  to_uint = λ w x. x % 2 ^ w;
  to_uint-lt = λ w x. mod-lt x (pow_two-pos w);
  minutes = padded 5;
  whole = padded 3;
  tenths = padded 3;
  scan = read_digits 0;
}
