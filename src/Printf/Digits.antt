-- ===== src/Printf/Digits.antt =====
-- Numbers of one and of two digits.
use arctic_tracker_teensy.Base.{
  ℕ, ◌+◌, ◌-◌, ◌*◌, ◌/◌, ◌%◌, ◌≤◌, ◌<◌, ◌≡◌, refl, true, false, List, [], ◌∷◌, ◌++◌, arith, lt→ltb,
  ge→ltb, ne→==,
}
use arctic_tracker_teensy.Printf.{
  decimal_loop, decimal, padded, is_digit, is_space, read_digits, atoi, scan_two,
}
use native.Mathlib.Decide.{dec_lt}

pub decimal_one : (n : ℕ) → n < 10 → decimal n ≡ (48 + n) ∷ []
unfolding decimal decimal_loop
decimal_one n lt = rw (lt→ltb n 10 lt) refl

pub decimal_two : (n : ℕ) → 10 ≤ n → n < 100 → decimal n ≡ (48 + n / 10) ∷ (48 + n % 10) ∷ []
unfolding decimal decimal_loop
decimal_two n ge lt = rw (ge→ltb n 10 ge, lt→ltb (n / 10) 10 (omega arith)) refl

-- `%02u` of a number below 100 is its two digits.
pub padded_two : (n : ℕ) → n < 100 → padded 2 n ≡ (48 + n / 10) ∷ (48 + n % 10) ∷ []
unfolding padded
padded_two n lt = elim (dec_lt n 10) [
  | yes small ↦
      let tens : n / 10 ≡ 0 = omega arith in
      let ones : n % 10 ≡ n = omega arith in rw (decimal_one n small, tens, ones) refl
  | no big ↦ rw (decimal_two n (omega arith) lt) refl
]

pub scan_two-padded_two : (n : ℕ) (cs : List ℕ) → n < 100 → scan_two (padded 2 n ++ cs) ≡ (n, cs)
unfolding scan_two
scan_two-padded_two n cs lt =
    let value : (48 + n / 10 - 48) * 10 + (48 + n % 10 - 48) ≡ n = omega arith in
    rw (padded_two n lt, value) refl

digit : (d : ℕ) → d < 10 → is_digit (48 + d) ≡ true
unfolding is_digit
digit d lt = ground arith

not_space : (d : ℕ) → is_space (48 + d) ≡ false
unfolding is_space
not_space d = ground arith

-- atoi reads a number of at most two digits back.
pub atoi-decimal : (n : ℕ) → n < 100 → atoi (decimal n) ≡ n
unfolding atoi read_digits
atoi-decimal n lt = elim (dec_lt n 10) [
  | yes small ↦
      rw
        (
          decimal_one n small,
          not_space n,
          digit n small,
          ne→== (48 + n) 45 (λ e. omega arith),
          ne→== (48 + n) 43 (λ e. omega arith),
        )
        (omega arith)
  | no big ↦
      rw
        (
          decimal_two n (omega arith) lt,
          not_space (n / 10),
          digit (n / 10) (omega arith),
          digit (n % 10) (omega arith),
          ne→== (48 + n / 10) 45 (λ e. omega arith),
          ne→== (48 + n / 10) 43 (λ e. omega arith),
        )
        (omega arith)
]
