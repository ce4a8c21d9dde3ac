-- ===== src/Base/Bits.antt =====
-- Exclusive or and inclusive or at variables: one equation for the lowest digit, the algebra of
-- exclusive or, and both as a sum where the digits do not overlap.
use Prim.Native.Nat.{
  ℕ, zero, suc, ◌+◌, ◌*◌, ◌/◌, ◌%◌, ◌≤◌, ◌<◌, max, min, bit_and, bit_and-bitwise, bit_or, bit_xor,
  digits, differ, bit_or-bitwise, bit_xor-bitwise,
}
use mathlib.Core.Path.{◌≡◌, refl, ◌∙◌, ap₂}
use native.Mathlib.Omega.{arith}

-- An operation on binary digits: the library's recursion has fuel, one equation for the lowest
-- digit has none. `rest` is what is left of the second operand when the first has no digits.
module _ (op : ℕ → ℕ → ℕ) (rest : ℕ → ℕ) (digit : ℕ → ℕ → ℕ)
    (law : (x y : ℕ) → op x y ≡ digits rest digit x x y)
    (alone : (y : ℕ) → rest y ≡ digit 0 (y % 2) + 2 * rest (y / 2)) where
  surplus :
      (k more x y : ℕ) → x ≤ k → k ≤ more → digits rest digit more x y ≡ digits rest digit k x y
  surplus zero zero x y low wide = refl
  surplus zero (suc more) zero y low wide = refl
  surplus zero (suc more) (suc x) y low wide = absurd (omega arith)
  surplus (suc k) zero x y low wide = absurd (omega arith)
  surplus (suc k) (suc more) zero y low wide = refl
  surplus (suc k) (suc more) (suc x) y low wide =
      omega (arith, surplus k more (suc x / 2) (y / 2) (omega arith) (omega arith))

  by_digit : (x y : ℕ) → op x y ≡ digit (x % 2) (y % 2) + 2 * op (x / 2) (y / 2)
  by_digit zero y = omega (arith, law 0 y, law 0 (y / 2), alone y)
  by_digit (suc x) y =
      let half = suc x / 2 in
      let fewer = surplus half x half (y / 2) (omega arith) (omega arith) in
      omega (arith, law (suc x) y, law half (y / 2), fewer)

pub zero-bit_xor : (b : ℕ) → bit_xor 0 b ≡ b
zero-bit_xor b = bit_xor-bitwise 0 b

pub zero-bit_or : (b : ℕ) → bit_or 0 b ≡ b
zero-bit_or b = bit_or-bitwise 0 b

differ-mod : (x y : ℕ) → x < 2 → y < 2 → differ x y ≡ (x + y) % 2
differ-mod zero y p q = omega arith
differ-mod (suc zero) zero p q = refl
differ-mod (suc zero) (suc zero) p q = refl
differ-mod (suc zero) (suc (suc y)) p q = absurd (omega arith)
differ-mod (suc (suc x)) y p q = absurd (omega arith)

pub bit_xor_step : (a b : ℕ) → bit_xor a b ≡ bit_xor (a / 2) (b / 2) * 2 + (a + b) % 2
bit_xor_step a b = omega (
  arith,
  by_digit bit_xor (λ y. y) differ bit_xor-bitwise (λ y. omega arith) a b,
  differ-mod (a % 2) (b % 2) (omega arith) (omega arith),
)

pub bit_or_step : (x y : ℕ) → bit_or x y ≡ max (x % 2) (y % 2) + 2 * bit_or (x / 2) (y / 2)
bit_or_step = by_digit bit_or (λ y. y) max bit_or-bitwise (λ y. omega arith)

pub bit_and_step : (x y : ℕ) → bit_and x y ≡ min (x % 2) (y % 2) + 2 * bit_and (x / 2) (y / 2)
bit_and_step = by_digit bit_and (λ y. 0) min bit_and-bitwise (λ y. omega arith)

comm_below : (n a b : ℕ) → a ≤ n → b ≤ n → bit_xor a b ≡ bit_xor b a
comm_below zero zero zero p q = refl
comm_below zero zero (suc b) p q = absurd (omega arith)
comm_below zero (suc a) b p q = absurd (omega arith)
comm_below (suc n) a b p q = omega (
  arith,
  bit_xor_step a b,
  bit_xor_step b a,
  comm_below n (a / 2) (b / 2) (omega arith) (omega arith),
)

pub bit_xor_comm : (a b : ℕ) → bit_xor a b ≡ bit_xor b a
bit_xor_comm a b = comm_below (a + b) a b (omega arith) (omega arith)

assoc_below :
    (n a b c : ℕ) → a ≤ n → b ≤ n → c ≤ n → bit_xor (bit_xor a b) c ≡ bit_xor a (bit_xor b c)
assoc_below zero zero zero zero p q r = refl
assoc_below zero zero zero (suc c) p q r = absurd (omega arith)
assoc_below zero zero (suc b) c p q r = absurd (omega arith)
assoc_below zero (suc a) b c p q r = absurd (omega arith)
assoc_below (suc n) a b c p q r =
    let half_ab : bit_xor a b / 2 ≡ bit_xor (a / 2) (b / 2) = omega (arith, bit_xor_step a b) in
    let half_bc : bit_xor b c / 2 ≡ bit_xor (b / 2) (c / 2) = omega (arith, bit_xor_step b c) in
    let ih = assoc_below n (a / 2) (b / 2) (c / 2) (omega arith) (omega arith) (omega arith) in
    let left = bit_xor_step (bit_xor a b) c in
    let right = bit_xor_step a (bit_xor b c) in
    let left' = rw half_ab at left in
    let right' = rw half_bc at right in
    omega (arith, left', right', ih, bit_xor_step a b, bit_xor_step b c)

pub bit_xor_assoc : (a b c : ℕ) → bit_xor (bit_xor a b) c ≡ bit_xor a (bit_xor b c)
bit_xor_assoc a b c = assoc_below (a + b + c) a b c (omega arith) (omega arith) (omega arith)

pub bit_xor_zero : (a : ℕ) → bit_xor a 0 ≡ a
bit_xor_zero a = omega (arith, bit_xor_comm a 0, zero-bit_xor a)

-- One digit on: exclusive or with an even number.
pub bit_xor_double : (q r : ℕ) → bit_xor (2 * q) r ≡ 2 * bit_xor q (r / 2) + r % 2
bit_xor_double q r =
    let half : 2 * q / 2 ≡ q = omega arith in
    let step = bit_xor_step (2 * q) r in let step' = rw half at step in omega (arith, step')

bit_or_double : (q r : ℕ) → bit_or (2 * q) r ≡ 2 * bit_or q (r / 2) + r % 2
bit_or_double q r =
    let half : 2 * q / 2 ≡ q = omega arith in
    let step = bit_or_step (2 * q) r in let step' = rw half at step in omega (arith, step')

or_zero_below : (n a : ℕ) → a ≤ n → bit_or a 0 ≡ a
or_zero_below zero zero p = refl
or_zero_below zero (suc a) p = absurd (omega arith)
or_zero_below (suc n) a p = omega (arith, bit_or_step a 0, or_zero_below n (a / 2) (omega arith))

pub bit_or_zero : (a : ℕ) → bit_or a 0 ≡ a
bit_or_zero a = or_zero_below a a (omega arith)

-- A byte in the low digits, as `(d << 8) | h`.
pub bit_or_byte : (d h : ℕ) → h < 256 → bit_or (d * 256) h ≡ d * 256 + h
bit_or_byte d h lt =
    let e : d * 256 ≡ 2 * (2 * (2 * (2 * (2 * (2 * (2 * (2 * d))))))) = omega arith in
    let none_left : h / 2 / 2 / 2 / 2 / 2 / 2 / 2 / 2 ≡ 0 = omega arith in
    rw
      (
        e, bit_or_double, bit_or_double, bit_or_double, bit_or_double, bit_or_double, bit_or_double,
        bit_or_double, bit_or_double, none_left, bit_or_zero,
      )
      (omega arith)

pub bit_xor_byte : (d h : ℕ) → h < 256 → bit_xor (d * 256) h ≡ d * 256 + h
bit_xor_byte d h lt =
    let e : d * 256 ≡ 2 * (2 * (2 * (2 * (2 * (2 * (2 * (2 * d))))))) = omega arith in
    let none_left : h / 2 / 2 / 2 / 2 / 2 / 2 / 2 / 2 ≡ 0 = omega arith in
    rw
      (
        e, bit_xor_double, bit_xor_double, bit_xor_double, bit_xor_double, bit_xor_double,
        bit_xor_double, bit_xor_double, bit_xor_double, none_left, bit_xor_zero,
      )
      (omega arith)

bit_xor_half : (a b : ℕ) → bit_xor a b / 2 ≡ bit_xor (a / 2) (b / 2)
bit_xor_half a b = omega (arith, bit_xor_step a b)

-- Exclusive or acts on the high digits by themselves, so it stays within a byte or a word.
pub bit_xor_high : (a b : ℕ) → bit_xor a b / 256 ≡ bit_xor (a / 256) (b / 256)
bit_xor_high a b =
    let e : (n : ℕ) → n / 256 ≡ n / 2 / 2 / 2 / 2 / 2 / 2 / 2 / 2 = λ n. omega arith in
    rw (e (bit_xor a b), e a, e b)
      (rw
        (
          bit_xor_half, bit_xor_half, bit_xor_half, bit_xor_half, bit_xor_half, bit_xor_half,
          bit_xor_half, bit_xor_half,
        )
        refl)

pub bit_xor-lt_byte : (a b : ℕ) → a < 256 → b < 256 → bit_xor a b < 256
bit_xor-lt_byte a b p q =
    let za : a / 256 ≡ 0 = omega arith in
    let zb : b / 256 ≡ 0 = omega arith in
    let high = bit_xor_high a b in
    let high' : bit_xor a b / 256 ≡ bit_xor 0 0 = high ∙ ap₂ bit_xor za zb in
    let none : bit_xor 0 0 ≡ 0 = zero-bit_xor 0 in omega (arith, high', none)

pub bit_xor-lt_word : (a b : ℕ) → a < 65536 → b < 65536 → bit_xor a b < 65536
bit_xor-lt_word a b p q =
    omega (arith, bit_xor_high a b, bit_xor-lt_byte (a / 256) (b / 256) (omega arith) (omega arith))

-- The digits that a mask of ones keeps.
and_zero_below : (n a : ℕ) → a ≤ n → bit_and a 0 ≡ 0
and_zero_below zero zero p = bit_and-bitwise 0 0
and_zero_below zero (suc a) p = absurd (omega arith)
and_zero_below (suc n) a p = omega (arith, bit_and_step a 0, and_zero_below n (a / 2) (omega arith))

pub bit_and_zero : (a : ℕ) → bit_and a 0 ≡ 0
bit_and_zero a = and_zero_below a a (omega arith)

pub bit_and_one : (a : ℕ) → bit_and a 1 ≡ a % 2
bit_and_one a = omega (arith, bit_and_step a 1, bit_and_zero (a / 2))

pub and_nibble : (a : ℕ) → bit_and a 15 ≡ a % 16
and_nibble a = omega (
  arith,
  bit_and_step a 15,
  bit_and_step (a / 2) 7,
  bit_and_step (a / 2 / 2) 3,
  bit_and_one (a / 2 / 2 / 2),
)

pub bit_and_byte : (a : ℕ) → bit_and a 255 ≡ a % 256
bit_and_byte a = omega (
  arith,
  bit_and_step a 255,
  bit_and_step (a / 2) 127,
  bit_and_step (a / 2 / 2) 63,
  bit_and_step (a / 2 / 2 / 2) 31,
  and_nibble (a / 2 / 2 / 2 / 2),
)
