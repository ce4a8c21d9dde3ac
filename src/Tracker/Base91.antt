-- ===== src/Tracker/Base91.antt =====
-- The base-91 coordinates of a compressed report.
use arctic_tracker_teensy.Base.{
  ℕ, ◌+◌, ◌-◌, ◌*◌, ◌/◌, ◌%◌, ◌≤◌, ◌<◌, ◌≡◌, sym, List, [], ◌∷◌, arith,
}
use arctic_tracker_teensy.Fbuf.{Fbuf, write, put_char}
use arctic_tracker_teensy.Ax25.Encode.{then_same, write-one}
use arctic_tracker_teensy.Tracker.Packets.{base91, put_base91}

-- What a receiver reads: digits from 0 to 90, each 33 below its character.
unfoldable pub read91 : ℕ → List ℕ → ℕ
read91 acc [] = acc
read91 acc (c ∷ cs) = read91 (acc * 91 + (c - 33)) cs

unfoldable pub Printable91 : List ℕ → Type 0
Printable91 [] = Unit
Printable91 (c ∷ cs) = (33 ≤ c) × ((c ≤ 123) × Printable91 cs)

pub put_base91-write : (v : ℕ) (b : Fbuf) → put_base91 v b ≡ write b (base91 v)
unfolding put_base91 base91 write
put_base91-write v b =
    then_same (put_char b _)
      λ b₁. then_same (put_char b₁ _) λ b₂. then_same (put_char b₂ _) λ b₃. sym (write-one _ b₃)

-- Below 91 ^ 4, the four characters are digits to the base 91, and a receiver reads the number
-- back from them.
pub read91-base91 : (v : ℕ) → v < 68574961 → (read91 0 (base91 v) ≡ v) × Printable91 (base91 v)
unfolding base91 read91 Printable91
read91-base91 v lt =
    let a = v / 753571 in
    let r = v % 753571 in
    let b = r / 8281 in
    let s = r % 8281 in
    let c = s / 91 in
    let d = s % 91 in
    let la : a < 91 = omega arith in
    let lb : b < 91 = omega arith in
    let lc : c < 91 = omega arith in
    let ea : (a + 33) % 256 ≡ a + 33 = omega arith in
    let eb : (b + 33) % 256 ≡ b + 33 = omega arith in
    let ec : (c + 33) % 256 ≡ c + 33 = omega arith in
    let ed : (d + 33) % 256 ≡ d + 33 = omega arith in
    rw (ea, eb, ec, ed)
      (
        omega arith,
        (
          omega arith,
          (
            omega arith,
            (
              omega arith,
              (omega arith, (omega arith, (omega arith, (omega arith, (omega arith, tt))))),
            ),
          ),
        ),
      )
