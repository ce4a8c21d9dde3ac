-- ===== src/Hdlc/Sending.antt =====
-- hdlc_encode_byte sends its byte as bits, stuffed unless it is a flag, and always ends.
use arctic_tracker_teensy.Base.{
  ℕ, zero, suc, ◌+◌, ◌/◌, ◌%◌, ◌<◌, ◌≡◌, refl, sym, ap, ◌∙◌, inl, inr, Bool, true, false, Option,
  some, List, [], ◌∷◌, ◌++◌, append_assoc, append-nil, arith, bit_and, ◌==◌, ==→eq, lt→ltb,
  Bool-cases,
}
use arctic_tracker_teensy.Base.Bytes.{all_below_sound}
use arctic_tracker_teensy.Base.Bits.{bit_and_one, bit_or_zero}
use arctic_tracker_teensy.Hdlc.{bits}
use arctic_tracker_teensy.Hdlc.Encoder.{Encoder, shift_out, encode_loop, encode_byte}
use arctic_tracker_teensy.Hdlc.Stuffing.{
  next_run, stuff_quiet, run_quiet, stuff_full, run_full, stuff_nil, run_nil, run_after, stuff,
  run_plain, trailing, sent, IsEncoder, with_bit, test_table,
}
use arctic_tracker_teensy.Hdlc.Shifted.{Sends, shift_out-Sends}

-- The test for five ones reads the run from the register.
test_of : (v : ℕ) → v < 128 → (bit_and v 0x7c == 0x7c) ≡ (trailing v == 5)
test_of v small = let t = all_below_sound 128 _ v test_table small in ground (arith, t)

-- One round of the loop.
module _ (n i txbyte : ℕ) (e : Encoder) (more : i < 9) where
  data_round :
      (bit_and e.outbyte 0x7c == 0x7c) ≡ false
      → encode_loop (suc n) i txbyte false e
        ≡ encode_loop n (i + 1) (txbyte / 2) false (shift_out (with_bit e.outbyte (txbyte % 2)) e)
  unfolding encode_loop
  data_round t = rw (lt→ltb i 9 more, t, bit_and_one txbyte) refl

  stuff_round :
      (bit_and e.outbyte 0x7c == 0x7c) ≡ true
      → encode_loop (suc n) i txbyte false e
        ≡ encode_loop n i txbyte false (shift_out (with_bit e.outbyte 0) e)
  unfolding encode_loop
  stuff_round t = rw (lt→ltb i 9 more, t, bit_or_zero e.outbyte) refl

  flag_round :
      encode_loop (suc n) i txbyte true e
      ≡ encode_loop n (i + 1) (txbyte / 2) true (shift_out (with_bit e.outbyte (txbyte % 2)) e)
  unfolding encode_loop
  flag_round = rw (lt→ltb i 9 more, bit_and_one txbyte) refl

-- The encoder has ended with the bits `xs` sent, and the run is `t`.
pub record SentBits (e : Encoder) (xs : List ℕ) (t : ℕ) (r : Option Encoder) : Type 0 where
  pub last : Encoder
  pub result : r ≡ some last
  pub valid : IsEncoder last
  pub stream : sent last ≡ sent e ++ xs
  pub run : trailing last.outbyte ≡ t

SentBits-step :
    {e e' : Encoder} {x t : ℕ} {xs : List ℕ} {r : Option Encoder}
    → Sends e x e'
    → SentBits e' xs t r
    → SentBits e (x ∷ xs) t r
SentBits-step {e} {x} {xs} s w = record {
  last = w.last;
  result = w.result;
  valid = w.valid;
  stream = w.stream ∙ ap (λ ys. ys ++ xs) s.bit ∙ append_assoc (sent e) (x ∷ []) xs;
  run = w.run;
}

SentBits-end :
    (n txbyte : ℕ) (flag : Bool) (i : ℕ) (e : Encoder)
    → IsEncoder e
    → i ≡ 9
    → SentBits e [] (trailing e.outbyte) (encode_loop (suc n) i txbyte flag e)
unfolding encode_loop
SentBits-end n txbyte flag i e v done =
    rw (done)
      (record { last = e; result = refl; valid = v; stream = sym (append-nil _); run = refl })

flag_loop-SentBits :
    (m n i txbyte : ℕ) (e : Encoder)
    → IsEncoder e
    → i + m ≡ 9
    → m < n
    → SentBits e
        (bits m txbyte)
        (run_plain (trailing e.outbyte) (bits m txbyte))
        (encode_loop n i txbyte true e)
unfolding bits run_plain
flag_loop-SentBits m zero i txbyte e v count enough = absurd (omega arith)
flag_loop-SentBits zero (suc n) i txbyte e v count enough =
    SentBits-end n txbyte true i e v (omega arith)
flag_loop-SentBits (suc m) (suc n) i txbyte e v count enough =
    let s = shift_out-Sends e (txbyte % 2) v (omega arith) in
    let ih = flag_loop-SentBits m n (i + 1) (txbyte / 2) _ s.valid (omega arith) (omega arith) in
    rw (flag_round n i txbyte e (omega arith)) (SentBits-step s (rw (s.run) at ih))

data_loop-SentBits :
    (m n i txbyte : ℕ) (e : Encoder)
    → IsEncoder e
    → i + m ≡ 9
    → m + m < n
    → SentBits e
        (stuff (trailing e.outbyte) (bits m txbyte))
        (run_after (trailing e.outbyte) (bits m txbyte))
        (encode_loop n i txbyte false e)
unfolding bits
data_loop-SentBits m zero i txbyte e v count enough = absurd (omega arith)
data_loop-SentBits zero (suc n) i txbyte e v count enough =
    rw (stuff_nil (trailing e.outbyte), run_nil (trailing e.outbyte))
      (SentBits-end n txbyte false i e v (omega arith))
data_loop-SentBits (suc m) (suc zero) i txbyte e v count enough = absurd (omega arith)
data_loop-SentBits (suc m) (suc (suc n)) i txbyte e v count enough =
    let x = txbyte % 2 in
    let test = test_of e.outbyte v.shifted in
    elim (Bool-cases (trailing e.outbyte == 5)) [
      | inr f ↦
          let s = shift_out-Sends e x v (omega arith) in
          let ih =
            data_loop-SentBits m (suc n) (i + 1) (txbyte / 2) _ s.valid (omega arith)
              (omega arith) in
          rw
            (
              stuff_quiet _ _ _ f,
              run_quiet _ _ _ f,
              data_round (suc n) i txbyte e (omega arith) (test ∙ f),
            )
            (SentBits-step s (rw (s.run) at ih))
      | inl t ↦
          let s₀ = shift_out-Sends e 0 v (omega arith) in
          let e₀ = shift_out (with_bit e.outbyte 0) e in
          let cleared : trailing e₀.outbyte ≡ 0 = s₀.run in
          let quiet : (bit_and e₀.outbyte 0x7c == 0x7c) ≡ false =
            test_of e₀.outbyte (s₀.valid).shifted ∙ rw cleared refl in
          let s = shift_out-Sends e₀ x s₀.valid (omega arith) in
          let run : trailing (shift_out (with_bit e₀.outbyte x) e₀).outbyte ≡ next_run 0 x =
            rw cleared at (s.run) in
          let ih =
            data_loop-SentBits m n (i + 1) (txbyte / 2) _ s.valid (omega arith) (omega arith) in
          rw
            (
              ==→eq (trailing e.outbyte) 5 t,
              stuff_full,
              run_full,
              stuff_round (suc n) i txbyte e (omega arith) (test ∙ t),
              data_round n i txbyte e₀ (omega arith) quiet,
            )
            (SentBits-step s₀ (SentBits-step s (rw run at ih)))
    ]

-- hdlc_encode_byte of data always ends, and sends the byte's eight bits, lowest first, with a
-- zero in front of each bit that follows five ones, also when those began in earlier bytes.
pub encode_byte-stuff :
    (byte : ℕ) (e : Encoder)
    → IsEncoder e
    → SentBits e
        (stuff (trailing e.outbyte) (bits 8 byte))
        (run_after (trailing e.outbyte) (bits 8 byte))
        (encode_byte byte false e)
unfolding encode_byte
encode_byte-stuff byte e v = data_loop-SentBits 8 17 1 byte e v refl (omega arith)

-- hdlc_encode_byte of a flag always ends, and sends its eight bits as they are.
pub encode_byte-flag :
    (byte : ℕ) (e : Encoder)
    → IsEncoder e
    → SentBits e
        (bits 8 byte)
        (run_plain (trailing e.outbyte) (bits 8 byte))
        (encode_byte byte true e)
unfolding encode_byte
encode_byte-flag byte e v = flag_loop-SentBits 8 17 1 byte e v refl (omega arith)
