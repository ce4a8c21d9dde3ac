-- ===== src/Base/Flip.antt =====
-- Inclusive or in either order, and the complement of a byte.
use Prim.Native.Nat.{ℕ, zero, suc, ◌+◌, ◌-◌, ◌*◌, ◌/◌, ◌%◌, ◌≤◌, ◌<◌, bit_or, bit_xor}
use mathlib.Core.Path.{◌≡◌, refl, sym, ◌∙◌, ap}
use mathlib.Core.Bool.{true}
use native.Mathlib.Omega.{arith}
use arctic_tracker_teensy.Base.Tests.{◌==◌, ==→eq}
use arctic_tracker_teensy.Base.Bytes.{all_below, all_below_sound}
use arctic_tracker_teensy.Base.Bits.{
  zero-bit_or, bit_or_zero, bit_or_step, bit_xor_byte, bit_xor_assoc,
}

or_comm_below : (n a b : ℕ) → a ≤ n → bit_or a b ≡ bit_or b a
or_comm_below zero a b p = let e : a ≡ 0 = omega arith in rw e (zero-bit_or b ∙ sym (bit_or_zero b))
or_comm_below (suc n) zero b p = zero-bit_or b ∙ sym (bit_or_zero b)
or_comm_below (suc n) (suc a) b p = omega (
  arith,
  bit_or_step (suc a) b,
  bit_or_step b (suc a),
  or_comm_below n (suc a / 2) (b / 2) (omega arith),
)

pub bit_or_comm : (a b : ℕ) → bit_or a b ≡ bit_or b a
bit_or_comm a b = or_comm_below a a b (omega arith)

flip_table : all_below 256 (λ a. bit_xor a 255 == 255 - a) ≡ true
unfolding all_below
flip_table = refl

-- The complement of a byte, and of the low byte of a number.
pub bit_xor_flip : (a : ℕ) → a < 256 → bit_xor a 255 ≡ 255 - a
bit_xor_flip a lt = ==→eq _ _ (all_below_sound 256 (λ b. bit_xor b 255 == 255 - b) a flip_table lt)

pub bit_xor_flip_low : (a : ℕ) → bit_xor a 255 % 256 ≡ 255 - a % 256
bit_xor_flip_low a =
    let d = a / 256 in
    let h = a % 256 in
    let low : h < 256 = omega arith in
    let flip = bit_xor_flip h low in
    let parts : a ≡ bit_xor (d * 256) h = omega (arith, bit_xor_byte d h low) in
    let e : bit_xor a 255 ≡ d * 256 + bit_xor h 255 =
      ap (λ n. bit_xor n 255) parts
      ∙ bit_xor_assoc (d * 256) h 255
      ∙ bit_xor_byte d (bit_xor h 255) (omega (arith, flip)) in
    omega (arith, e, flip)
