-- ===== src/Hdlc/Shifted.antt =====
-- hdlc_encoder.c: one bit goes into the register, and every eighth sends a byte.
use arctic_tracker_teensy.Base.{
  ℕ, ◌+◌, ◌/◌, ◌%◌, ◌<◌, ◌≡◌, refl, sym, ap, ◌∙◌, List, [], ◌∷◌, ◌++◌, append_assoc, append-nil,
  arith, ne→==,
}
use arctic_tracker_teensy.Base.Bytes.{all_below_sound}
use arctic_tracker_teensy.Hdlc.{bits, bits_of}
use arctic_tracker_teensy.Hdlc.Encoder.{Encoder, shift_out}
use arctic_tracker_teensy.Hdlc.Stuffing.{
  AllBytes, next_run, trailing, pending, sent, IsEncoder, same_bits_sound, with_bit, pending_table,
  byte_table, run_table,
}
use native.Mathlib.Decide.{dec_lt}

-- The state after one bit: it has been sent, and the run is counted on.
pub record Sends (e : Encoder) (x : ℕ) (e' : Encoder) : Type 0 where
  pub valid : IsEncoder e'
  pub bit : sent e' ≡ sent e ++ (x ∷ [])
  pub run : trailing e'.outbyte ≡ next_run (trailing e.outbyte) x

module _ (v x : ℕ) (v_small : v < 128) (x_bit : x < 2) where
  run_of : (trailing (with_bit v x / 2) ≡ next_run (trailing v) x) × (with_bit v x / 2 < 128)
  run_of =
      let t = all_below_sound 2 _ x (all_below_sound 128 _ v run_table v_small) x_bit in
      ground (arith, t)

  pending_of : (k : ℕ) → k < 7 → pending (k + 1) (with_bit v x / 2) ≡ pending k v ++ (x ∷ [])
  pending_of k lt = same_bits_sound _ _ (
      all_below_sound 2 _ x
        (all_below_sound 128 _ v (all_below_sound 7 _ k pending_table lt) v_small) x_bit)

  byte_of : bits 8 (with_bit v x) ≡ pending 7 v ++ (x ∷ [])
  byte_of =
      same_bits_sound _ _ (all_below_sound 2 _ x (all_below_sound 128 _ v byte_table v_small) x_bit)

bits_of-snoc : (bs : List ℕ) (b : ℕ) → bits_of (bs ++ (b ∷ [])) ≡ bits_of bs ++ bits 8 b
unfolding bits_of
bits_of-snoc [] b = append-nil (bits 8 b)
bits_of-snoc (c ∷ bs) b = simp (bits_of-snoc bs b, append_assoc)

pending_zero : (v : ℕ) → pending 0 v ≡ []
unfolding pending bits
pending_zero v = refl

AllBytes-snoc : (bs : List ℕ) (b : ℕ) → AllBytes bs → b < 256 → AllBytes (bs ++ (b ∷ []))
unfolding AllBytes
AllBytes-snoc [] b all lt = (lt, tt)
AllBytes-snoc (c ∷ bs) b all lt = (all.0, AllBytes-snoc bs b all.1 lt)

pub shift_out-Sends :
    (e : Encoder) (x : ℕ) → IsEncoder e → x < 2 → Sends e x (shift_out (with_bit e.outbyte x) e)
unfolding shift_out sent
shift_out-Sends e x v bit =
    let partial = v.partial in
    let (run, small) = run_of e.outbyte x v.shifted bit in
    elim (dec_lt e.outbits 7) [
      | yes lt ↦
          let n : (e.outbits + 1) % 256 ≡ e.outbits + 1 = omega arith in
          rw (n, ne→== (e.outbits + 1) 8 (omega arith))
            (record {
              valid = record { partial = omega arith; shifted = small; bytes = v.bytes };
              bit =
                  ap (λ ys. bits_of e.out ++ ys) (pending_of e.outbyte x v.shifted bit e.outbits lt)
                  ∙ sym (append_assoc (bits_of e.out) _ _);
              run = run;
            })
      | no ge ↦
          let full : e.outbits ≡ 7 = omega arith in
          let n : (e.outbits + 1) % 256 ≡ 8 = omega arith in
          let byte = byte_of e.outbyte x v.shifted bit in
          rw n (record {
            valid = record {
              partial = omega arith;
              shifted = small;
              bytes = AllBytes-snoc e.out _ v.bytes (omega arith);
            };
            bit =
                ap (λ ys. bits_of (e.out ++ (with_bit e.outbyte x ∷ [])) ++ ys) (pending_zero _)
                ∙ append-nil _
                ∙ bits_of-snoc e.out (with_bit e.outbyte x)
                ∙ ap (λ ys. bits_of e.out ++ ys) byte
                ∙ sym (append_assoc (bits_of e.out) (pending 7 e.outbyte) (x ∷ []))
                ∙ ap (λ k. (bits_of e.out ++ pending k e.outbyte) ++ (x ∷ [])) (sym full);
            run = run;
          })
    ]
