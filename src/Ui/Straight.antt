-- ===== src/Ui/Straight.antt =====
-- The loop of gui_line goes straight, where the line is wide and where it is tall.
use mathlib.Core.Path.{fun_ext}
use arctic_tracker_teensy.Base.{
  ℕ, zero, suc, ◌+◌, ◌*◌, ◌/◌, ◌≤◌, ◌<◌, ◌≡◌, refl, sym, ap, ◌∙◌, Bool, true, false, ◌&&◌, arith,
  ◌==◌, if◌then◌else◌,
}
use arctic_tracker_teensy.Base.Int.{ℤ, pos, neg}
use arctic_tracker_teensy.Ui.Screen.{
  Screen, Draw, drawn, outside, unfinished, Plot, then_draw, ◌>>◌,
}
use arctic_tracker_teensy.Ui.Shapes.{ink_at, step_err}
use arctic_tracker_teensy.Ui.Steps.{
  go, div_unique, IsError, goes_x, goes_y, next-IsError, loop, last_round, other_round,
}

-- `k / n` of `m`, rounded to the nearest number.
unfoldable pub rounded : ℕ → ℕ → ℕ → ℕ
rounded k m n = (2 * (k * m) + n) / (2 * n)

rounded_lem :
    (k m n j : ℕ)
    → 2 * (j * n) ≤ 2 * (k * m) + n
    → 2 * (k * m) < 2 * (j * n) + n
    → rounded k m n ≡ j
unfolding rounded
rounded_lem k m n j low high = div_unique (2 * (k * m) + n) (2 * n) j (grind arith) (grind arith)

pub rounded_whole : (k n : ℕ) → 0 < n → rounded k n n ≡ k
rounded_whole k n way = rounded_lem k n n k (omega arith) (omega arith)

rounded_end : (m n : ℕ) → 0 < n → rounded n m n ≡ m
rounded_end m n way = rounded_lem n m n m (grind arith) (grind arith)

multiple :
    (c : Bool) (j a p : ℕ) → p ≡ j * a → (if c then p + a else p) ≡ (if c then j + 1 else j) * a
multiple true j a p e = grind arith
multiple false j a p e = e

pub then_nothing : (r : Draw) → then_draw r drawn ≡ r
then_nothing (drawn s) = refl
then_nothing outside = refl
then_nothing unfinished = refl

module _ (x y : ℤ) (upx upy : Bool) (a b : ℕ) where
  -- The point at `k / n` of the way, and those from it on, `r` more.
  abbrev pub point : ℕ → ℕ → Plot
  point n k = ink_at (go upx x (rounded k a n)) (go upy y (rounded k b n))

  unfoldable pub trace : ℕ → ℕ → ℕ → Plot
  trace n zero k = point n k
  trace n (suc r) k = point n k >> trace n r (k + 1)

  pub loop_wide :
      (r n i j p q : ℕ) (err : ℤ) (s : Screen)
      → p ≡ j * a
      → q ≡ i * b
      → i + r ≡ a
      → r ≤ n
      → 0 < a
      → b ≤ a
      → p + p ≤ q + q + a
      → q + q < p + p + a
      → IsError a b err p q
      → loop x y upx upy a b (suc n) i j err s ≡ trace a r i s
  unfolding trace
  loop_wide zero n i j p q err s ep eq end enough way wide low high e =
      let column : rounded i a a ≡ i = rounded_whole i a way in
      let row : rounded i b a ≡ j = rounded_lem i b a j (omega arith) (omega arith) in
      let last : i ≡ a = omega arith in
      let bottom : j ≡ b = sym row ∙ ap (λ k. rounded k b a) last ∙ rounded_end b a way in
      rw (column, row) (last_round x y upx upy a b n i j err s last bottom ∙ then_nothing _)
  loop_wide (suc r) zero i j p q err s ep eq end enough way wide low high e = absurd (omega arith)
  loop_wide (suc r) (suc n) i j p q err s ep eq end enough way wide low high e =
      let column : rounded i a a ≡ i = rounded_whole i a way in
      let row : rounded i b a ≡ j = rounded_lem i b a j (omega arith) (omega arith) in
      let more : (i == a && j == b) ≡ false = ground arith in
      let right : goes_x a b p q ≡ true = ground arith in
      let step = other_round x y upx upy a b (suc n) i j p q err s e more in
      let next = next-IsError a b err p q e in
      let e' : IsError a b (step_err (pos a) (neg (pos b)) err)
          (if goes_y a b p q then p + a else p) (q + b) =
        rw right at next in
      let rest : loop x y upx upy a b (suc n) (i + 1) (if goes_y a b p q then j + 1 else j)
            (step_err (pos a) (neg (pos b)) err)
          ≡ trace a r (i + 1) =
        fun_ext (λ t.
          loop_wide r n (i + 1) (if goes_y a b p q then j + 1 else j)
            (if goes_y a b p q then p + a else p) (q + b) (step_err (pos a) (neg (pos b)) err) t
            (multiple (goes_y a b p q) j a p ep) (multiple true i b q eq) (omega arith)
            (omega arith) way wide (ground arith) (ground arith) e') in
      rw (column, row) (step ∙ rw (right, rest) refl)

  pub loop_tall :
      (r n i j p q : ℕ) (err : ℤ) (s : Screen)
      → p ≡ j * a
      → q ≡ i * b
      → j + r ≡ b
      → r ≤ n
      → 0 < b
      → a ≤ b
      → q + q ≤ p + p + b
      → p + p < q + q + b
      → IsError a b err p q
      → loop x y upx upy a b (suc n) i j err s ≡ trace b r j s
  unfolding trace
  loop_tall zero n i j p q err s ep eq end enough way tall low high e =
      let row : rounded j b b ≡ j = rounded_whole j b way in
      let column : rounded j a b ≡ i = rounded_lem j a b i (omega arith) (omega arith) in
      let bottom : j ≡ b = omega arith in
      let last : i ≡ a = sym column ∙ ap (λ k. rounded k a b) bottom ∙ rounded_end a b way in
      rw (column, row) (last_round x y upx upy a b n i j err s last bottom ∙ then_nothing _)
  loop_tall (suc r) zero i j p q err s ep eq end enough way tall low high e = absurd (omega arith)
  loop_tall (suc r) (suc n) i j p q err s ep eq end enough way tall low high e =
      let row : rounded j b b ≡ j = rounded_whole j b way in
      let column : rounded j a b ≡ i = rounded_lem j a b i (omega arith) (omega arith) in
      let more : (i == a && j == b) ≡ false = ground arith in
      let down : goes_y a b p q ≡ true = ground arith in
      let step = other_round x y upx upy a b (suc n) i j p q err s e more in
      let next = next-IsError a b err p q e in
      let e' : IsError a b (step_err (pos a) (neg (pos b)) err) (p + a)
          (if goes_x a b p q then q + b else q) =
        rw down at next in
      let rest : loop x y upx upy a b (suc n) (if goes_x a b p q then i + 1 else i) (j + 1)
            (step_err (pos a) (neg (pos b)) err)
          ≡ trace b r (j + 1) =
        fun_ext (λ t.
          loop_tall r n (if goes_x a b p q then i + 1 else i) (j + 1) (p + a)
            (if goes_x a b p q then q + b else q) (step_err (pos a) (neg (pos b)) err) t
            (multiple true j a p ep) (multiple (goes_x a b p q) i b q eq) (omega arith)
            (omega arith) way tall (ground arith) (ground arith) e') in
      rw (column, row) (step ∙ rw (down, rest) refl)
