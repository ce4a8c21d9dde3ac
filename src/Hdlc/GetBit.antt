-- ===== src/Hdlc/GetBit.antt =====
-- get_bit takes a flag off the front of the bits ahead, or else one bit.
use arctic_tracker_teensy.Base.{
  ℕ, suc, ◌+◌, ◌-◌, ◌/◌, ◌%◌, ◌^◌, ◌≤◌, ◌<◌, ◌≡◌, refl, sym, ap, ◌∙◌, inl, inr, Bool, true, false,
  ◌&&◌, List, [], ◌∷◌, ◌++◌, append_assoc, arith, length, ◌==◌, ==→eq, Bool-cases,
}
use arctic_tracker_teensy.Hdlc.{hdlc_flag, bits, bits_of}
use arctic_tracker_teensy.Hdlc.Decoder.{Window, filled, token, done, get_bit}
use arctic_tracker_teensy.Hdlc.Window.{
  ahead, IsWindow, fill-Filled, bits-more, length-bits, append_same, head_same, tail_same, flag,
  is_flag, bits_flag,
}
use native.Mathlib.Nat.{two-pow-succ}

-- Does the list begin with these bits?
abbrev pub begins : List ℕ → List ℕ → Bool
begins [] ys = true
begins (x ∷ xs) [] = false
begins (x ∷ xs) (y ∷ ys) = x == y && begins xs ys

-- A token has been read, and `ys` is left.
pub record Token (w : Window) (x : ℕ) (ys : List ℕ) : Type 0 where
  pub next : Window
  pub result : get_bit w ≡ done (x, next)
  pub valid : IsWindow next
  pub left : ahead next ≡ ys

power_step : (k v : ℕ) → v < 2 ^ suc k → v / 2 < 2 ^ k
power_step k v lt = omega (arith, two-pow-succ k)

power_byte : (k v : ℕ) → v < 2 ^ (k + 8) → v / 256 < 2 ^ k
power_byte k v lt =
    let e : k + 8 ≡ suc (suc (suc (suc (suc (suc (suc (suc k))))))) = omega arith in
    let lt' = rw e at lt in
    let h1 = power_step _ v lt' in
    let h2 = power_step _ _ h1 in
    let h3 = power_step _ _ h2 in
    let h4 = power_step _ _ h3 in
    let h5 = power_step _ _ h4 in
    let h6 = power_step _ _ h5 in
    let h7 = power_step _ _ h6 in
    let h8 = power_step _ _ h7 in
    let q : v / 2 / 2 / 2 / 2 / 2 / 2 / 2 / 2 ≡ v / 256 = omega arith in rw (← q) h8

-- A filled window, its first eight bits apart.
module _ (w : Window) (v : IsWindow w) (enough : 8 ≤ w.bit_count) where
  eight : ahead w ≡ bits 8 w.bits ++ (bits (w.bit_count - 8) (w.bits / 256) ++ bits_of w.inq)
  unfolding ahead
  eight =
      let n : w.bit_count ≡ w.bit_count - 8 + 8 = omega arith in
      ap (λ k. bits k w.bits ++ bits_of w.inq) n
      ∙ ap (λ xs. xs ++ bits_of w.inq) (bits-more (w.bit_count - 8) w.bits)
      ∙ append_assoc (bits 8 w.bits) _ (bits_of w.inq)

  pub token-flag :
      (ys : List ℕ)
      → ahead w ≡ flag ++ ys
      → (next : Window) × (token w ≡ (hdlc_flag, next)) × IsWindow next × (ahead next ≡ ys)
  unfolding token ahead
  token-flag ys e =
      let (same, rest) =
        append_same (bits 8 w.bits) _ flag ys (length-bits 8 w.bits) (sym eight ∙ e) in
      let is = is_flag w.bits same in
      let short = v.short in
      let count : (w.bit_count + 248) % 256 ≡ w.bit_count - 8 = omega arith in
      let n : w.bit_count ≡ w.bit_count - 8 + 8 = omega arith in
      let clean : w.bits < 2 ^ (w.bit_count - 8 + 8) = rw (← n) v.clean in
      (
        record w { bits = w.bits / 256; bit_count = (w.bit_count + 248) % 256 },
        rw is refl,
        record {
          short = omega arith;
          clean = rw count (power_byte (w.bit_count - 8) w.bits clean);
          bytes = v.bytes;
        },
        rw count rest,
      )

  pub token_bit :
      (x : ℕ) (ys : List ℕ)
      → ahead w ≡ x ∷ ys
      → begins flag (x ∷ ys) ≡ false
      → (next : Window) × (token w ≡ (x, next)) × IsWindow next × (ahead next ≡ ys)
  unfolding token ahead bits
  token_bit x ys e no_flag =
      let n : w.bit_count ≡ suc (w.bit_count - 1) = omega arith in
      let short = v.short in
      let count : (w.bit_count + 255) % 256 ≡ w.bit_count - 1 = omega arith in
      let clean : w.bits < 2 ^ suc (w.bit_count - 1) = rw (← n) v.clean in
      let e' : w.bits % 2 ∷ (bits (w.bit_count - 1) (w.bits / 2) ++ bits_of w.inq) ≡ x ∷ ys =
        sym (ap (λ k. bits k w.bits ++ bits_of w.inq) n) ∙ e in
      elim (Bool-cases (w.bits % 256 == hdlc_flag)) [
        | inl is ↦
            let rest = bits (w.bit_count - 8) (w.bits / 256) ++ bits_of w.inq in
            let begun : x ∷ ys ≡ flag ++ rest =
              sym e
              ∙ eight
              ∙ ap (λ xs. xs ++ rest) (bits_flag w.bits (==→eq (w.bits % 256) hdlc_flag is)) in
            let is_begun : begins flag (x ∷ ys) ≡ true = ap (begins flag) begun in
            cc (sym no_flag ∙ is_begun)
        | inr is ↦ (
          record w { bits = w.bits / 2; bit_count = (w.bit_count + 255) % 256 },
          rw (is, head_same _ x _ ys e') refl,
          record {
            short = omega arith;
            clean = rw count (power_step (w.bit_count - 1) w.bits clean);
            bytes = v.bytes;
          },
          rw count (tail_same _ x _ ys e'),
        )
      ]

-- get_bit returns a flag that is ahead.
pub get_bit-flag :
    (w : Window) (ys : List ℕ) → IsWindow w → ahead w ≡ flag ++ ys → Token w hdlc_flag ys
unfolding get_bit
get_bit-flag w ys v e =
    let f = fill-Filled w v (let n = ap length e in omega (arith, n)) in
    let (next, result, valid, left) = token-flag f.next f.valid f.enough ys (f.same ∙ e) in
    record { next = next; result = ap filled f.result ∙ ap done result; valid = valid; left = left }

-- With at least eight bits ahead that do not begin with a flag, get_bit returns the first.
pub get_bit-bit :
    (w : Window) (x : ℕ) (ys : List ℕ)
    → IsWindow w
    → ahead w ≡ x ∷ ys
    → begins flag (x ∷ ys) ≡ false
    → 7 ≤ length ys
    → Token w x ys
unfolding get_bit
get_bit-bit w x ys v e no_flag long =
    let f = fill-Filled w v (let n = ap length e in omega (arith, n)) in
    let (next, result, valid, left) = token_bit f.next f.valid f.enough x ys (f.same ∙ e) no_flag in
    record { next = next; result = ap filled f.result ∙ ap done result; valid = valid; left = left }
