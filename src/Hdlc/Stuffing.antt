-- ===== src/Hdlc/Stuffing.antt =====
-- hdlc_encode_byte at the level of bits: data with a zero after five ones, flags as they are.
use arctic_tracker_teensy.Base.{
  ℕ, ◌+◌, ◌-◌, ◌*◌, ◌/◌, ◌%◌, ◌^◌, ◌<◌, ◌≡◌, refl, ap, ==→eq, inl, inr, Bool-cases, Bool, true,
  false, ◌&&◌, not, List, [], ◌∷◌, ◌++◌, arith, bit_and, bit_or, ltb, ◌==◌, if◌then◌else◌,
}
use arctic_tracker_teensy.Base.Bytes.{all_below}
use arctic_tracker_teensy.Hdlc.{bits, bits_of}
use arctic_tracker_teensy.Hdlc.Encoder.{Encoder}

-- The run of ones after one more bit, counted up to five.
abbrev pub next_run : ℕ → ℕ → ℕ
next_run t b = if b == 0 then 0 else if t == 5 then 5 else t + 1

-- The run after more data, where a stuffed zero ends a run of five.
unfoldable pub run_after : ℕ → List ℕ → ℕ
run_after t [] = t
run_after t (b ∷ bs) = run_after (next_run (if t == 5 then 0 else t) b) bs

-- Data bits with a zero put in front of each bit that follows five ones.
unfoldable pub stuff : ℕ → List ℕ → List ℕ
stuff t [] = []
stuff t (b ∷ bs) =
    let rest = stuff (next_run (if t == 5 then 0 else t) b) bs in
    if t == 5 then 0 ∷ b ∷ rest else b ∷ rest

-- The run after bits that are sent without stuffing.
unfoldable pub run_plain : ℕ → List ℕ → ℕ
run_plain t [] = t
run_plain t (b ∷ bs) = run_plain (next_run t b) bs

pub stuff_nil : (t : ℕ) → stuff t [] ≡ []
unfolding stuff
stuff_nil t = refl

pub run_nil : (t : ℕ) → run_after t [] ≡ t
unfolding run_after
run_nil t = refl

-- Stuffing, one bit at a time.
module _ (b : ℕ) (bs : List ℕ) where
  pub stuff_quiet : (t : ℕ) → (t == 5) ≡ false → stuff t (b ∷ bs) ≡ b ∷ stuff (next_run t b) bs
  unfolding stuff
  stuff_quiet t f = rw f (rw f refl)

  pub run_quiet : (t : ℕ) → (t == 5) ≡ false → run_after t (b ∷ bs) ≡ run_after (next_run t b) bs
  unfolding run_after
  run_quiet t f = rw f (rw f refl)

  pub stuff_full : stuff 5 (b ∷ bs) ≡ 0 ∷ b ∷ stuff (next_run 0 b) bs
  unfolding stuff
  stuff_full = refl

  pub run_full : run_after 5 (b ∷ bs) ≡ run_after (next_run 0 b) bs
  unfolding run_after
  run_full = refl

pub run_after-append :
    (xs ys : List ℕ) (t : ℕ) → run_after t (xs ++ ys) ≡ run_after (run_after t xs) ys
unfolding run_after
run_after-append [] ys t = refl
run_after-append (x ∷ xs) ys t = run_after-append xs ys (next_run (if t == 5 then 0 else t) x)

pub stuff-append :
    (xs ys : List ℕ) (t : ℕ) → stuff t (xs ++ ys) ≡ stuff t xs ++ stuff (run_after t xs) ys
stuff-append [] ys t = rw (stuff_nil t, run_nil t) refl
stuff-append (x ∷ xs) ys t = elim (Bool-cases (t == 5)) [
  | inl e ↦
      rw (==→eq t 5 e, stuff_full x (xs ++ ys), stuff_full x xs, run_full x xs)
        (ap (λ zs. 0 ∷ x ∷ zs) (stuff-append xs ys (next_run 0 x)))
  | inr e ↦
      rw (stuff_quiet x (xs ++ ys) t e, stuff_quiet x xs t e, run_quiet x xs t e)
        (ap (λ zs. x ∷ zs) (stuff-append xs ys (next_run t x)))
]

-- The register holds the last seven bits, the newest in bit 6: the ones that end it, up to five.
unfoldable pub trailing : ℕ → ℕ
trailing v =
    if v / 64 % 2 == 0
    then 0
    else if v / 32 % 2 == 0
    then 1
    else if v / 16 % 2 == 0
    then 2
    else if v / 8 % 2 == 0
    then 3
    else if v / 4 % 2 == 0
    then 4
    else 5

-- The newest `k` bits of the register, oldest first: those not yet put into the queue.
unfoldable pub pending : ℕ → ℕ → List ℕ
pending k v = bits k (v / 2 ^ (7 - k))

-- All bits sent so far.
unfoldable pub sent : Encoder → List ℕ
sent e = bits_of e.out ++ pending e.outbits e.outbyte

-- All values in a list are bytes.
unfoldable pub AllBytes : List ℕ → Type 0
AllBytes [] = Unit
AllBytes (b ∷ bs) = (b < 256) × AllBytes bs

pub record IsEncoder (e : Encoder) : Type 0 where
  pub partial : e.outbits < 8
  pub shifted : e.outbyte < 128
  pub bytes : AllBytes e.out

unfoldable pub same_bits : List ℕ → List ℕ → Bool
same_bits [] [] = true
same_bits [] (y ∷ ys) = false
same_bits (x ∷ xs) [] = false
same_bits (x ∷ xs) (y ∷ ys) = x == y && same_bits xs ys

pub same_bits_sound : (xs ys : List ℕ) → same_bits xs ys ≡ true → xs ≡ ys
unfolding same_bits
same_bits_sound [] [] e = refl
same_bits_sound [] (y ∷ ys) e = cc
same_bits_sound (x ∷ xs) [] e = cc
same_bits_sound (x ∷ xs) (y ∷ ys) e = ground (arith, same_bits_sound xs ys)

-- The register with one more bit on top, before it is shifted.
abbrev pub with_bit : ℕ → ℕ → ℕ
with_bit v x = bit_or v (x * 128)

-- What a round does, for every state of the register and every bit.
pub pending_table :
    all_below 7 (λ k. all_below 128 (λ v.
      all_below 2 (λ x. same_bits (pending (k + 1) (with_bit v x / 2)) (pending k v ++ (x ∷ [])))))
    ≡ true
unfolding all_below same_bits pending bits
pending_table = refl

pub byte_table :
    all_below 128
      (λ v. all_below 2 (λ x. same_bits (bits 8 (with_bit v x)) (pending 7 v ++ (x ∷ []))))
    ≡ true
unfolding all_below same_bits pending bits
byte_table = refl

pub run_table :
    all_below 128 (λ v.
      all_below 2 (λ x.
        (trailing (with_bit v x / 2) == next_run (trailing v) x) && ltb (with_bit v x / 2) 128))
    ≡ true
unfolding all_below trailing
run_table = refl

pub test_table :
    all_below 128 (λ v. if bit_and v 0x7c == 0x7c then trailing v == 5 else not (trailing v == 5))
    ≡ true
unfolding all_below trailing
test_table = refl
