-- ===== src/Hdlc/Start.antt =====
-- The receiver at its start: get_bit begins with sixteen ones in its window, which take the place of
-- the first two bytes that come in.
use arctic_tracker_teensy.Base.{
  ℕ, zero, suc, ◌+◌, ◌*◌, ◌^◌, ◌%◌, ◌≤◌, ◌<◌, ◌≡◌, refl, ap, ◌∙◌, List, ◌∷◌, ◌++◌, arith, length,
  replicate, bit_or, ◌==◌, ==→eq, true, length-append,
}
use arctic_tracker_teensy.Base.Bytes.{all_below, all_below_sound}
use arctic_tracker_teensy.Hdlc.{bits, bits_of}
use arctic_tracker_teensy.Hdlc.Stuffing.{AllBytes}
use arctic_tracker_teensy.Hdlc.Decoder.{Window, fill, token, get_bit, done, find_flag}
use arctic_tracker_teensy.Hdlc.Window.{ahead, IsWindow}
use arctic_tracker_teensy.Hdlc.GetBit.{get_bit-bit}

-- The static variables of get_bit at the start.
abbrev pub started : List ℕ → Window
started bytes = record { bits = 0xffff; bit_count = 0; inq = bytes }

-- When the first nine ones have been taken, the first two bytes are lost.
abbrev pub settled : List ℕ → Window
settled bytes = record { bits = 127; bit_count = 7; inq = bytes }

first_table : all_below 256 (λ b. bit_or 65535 (b * 2 ^ 0 % 65536) == 65535) ≡ true
unfolding all_below
first_table = refl

second_table : all_below 256 (λ b. bit_or 32767 (b * 2 ^ 7 % 65536) == 32767) ≡ true
unfolding all_below
second_table = refl

take_one :
    (w next : Window) (n : ℕ) → get_bit w ≡ done (1, next) → find_flag (suc n) w ≡ find_flag n next
unfolding find_flag
take_one w next n e = rw e refl

seven_ones :
    (bytes : List ℕ) (n : ℕ)
    → find_flag
        (suc (suc (suc (suc (suc (suc (suc n)))))))
        (record { bits = 16383; bit_count = 14; inq = bytes })
      ≡ find_flag n (settled bytes)
unfolding find_flag get_bit fill token
seven_ones bytes n = refl

module _ (b c : ℕ) (bytes : List ℕ) (b_byte : b < 256) (c_byte : c < 256) where
  first_bit :
      get_bit (started (b ∷ c ∷ bytes))
      ≡ done (1, record { bits = 32767; bit_count = 7; inq = c ∷ bytes })
  unfolding get_bit fill token
  first_bit = rw (==→eq _ _ (all_below_sound 256 _ b first_table b_byte)) refl

  second_bit :
      get_bit (record { bits = 32767; bit_count = 7; inq = c ∷ bytes })
      ≡ done (1, record { bits = 16383; bit_count = 14; inq = bytes })
  unfolding get_bit fill token
  second_bit = rw (==→eq _ _ (all_below_sound 256 _ c second_table c_byte)) refl

  -- The nine ones are taken.
  find_flag-settled :
      (n : ℕ)
      → find_flag (suc (suc (suc (suc (suc (suc (suc (suc (suc n))))))))) (started (b ∷ c ∷ bytes))
        ≡ find_flag n (settled bytes)
  find_flag-settled n = take_one _ _ _ first_bit ∙ take_one _ _ _ second_bit ∙ seven_ones bytes n

-- After `k` ones, `ys` is ahead.
pub record Skipped (w : Window) (k : ℕ) (ys : List ℕ) : Type 0 where
  pub next : Window
  pub valid : IsWindow next
  pub left : ahead next ≡ ys
  pub same : (n : ℕ) → find_flag (k + n) w ≡ find_flag n next

skip_ones :
    (k : ℕ) (w : Window) (ys : List ℕ)
    → IsWindow w
    → ahead w ≡ replicate k 1 ++ ys
    → 8 ≤ length ys
    → Skipped w k ys
unfolding find_flag
skip_ones zero w ys v e long = record {
  next = w;
  valid = v;
  left = e;
  same = λ n. ap (λ m. find_flag m w) (omega arith);
}
skip_ones (suc k) w ys v e long =
    let more = length-append (replicate k 1) ys in
    let g = get_bit-bit w 1 (replicate k 1 ++ ys) v e refl (omega (arith, more)) in
    let rest = skip_ones k g.next ys g.valid g.left long in
    record {
      next = rest.next;
      valid = rest.valid;
      left = rest.left;
      same = λ n.
          let count : suc k + n ≡ suc (k + n) = omega arith in rw (count, g.result) (rest.same n);
    }

two_to_seven : 2 ^ 7 ≡ 128
two_to_seven = refl

-- The sixteen ones of the start are taken, and the first two bytes are lost.
pub start-Skipped :
    (b c : ℕ) (bytes : List ℕ)
    → AllBytes (b ∷ c ∷ bytes)
    → 8 ≤ length (bits_of bytes)
    → Skipped (started (b ∷ c ∷ bytes)) 16 (bits_of bytes)
unfolding ahead bits AllBytes
start-Skipped b c bytes all long =
    let window : IsWindow (settled bytes) = record {
      short = omega arith;
      clean = omega (arith, two_to_seven);
      bytes = all.1.1;
    } in
    let rest = skip_ones 7 (settled bytes) (bits_of bytes) window refl long in
    record {
      next = rest.next;
      valid = rest.valid;
      left = rest.left;
      same = λ n.
          let count : 16 + n ≡ suc (suc (suc (suc (suc (suc (suc (suc (suc (7 + n))))))))) =
            omega arith in
          rw count (find_flag-settled b c bytes all.0 all.1.0 (7 + n)) ∙ rest.same n;
    }
