-- ===== src/Hdlc/Unstuffing.antt =====
-- The receiver's rounds on stuffed bits: no flag is seen before the real one, and each stuffed
-- zero is skipped.
use arctic_tracker_teensy.Base.{
  ℕ, zero, suc, ◌+◌, ◌≤◌, ◌<◌, ◌≡◌, ◌≢◌, refl, inl, inr, false, List, [], ◌∷◌, ◌++◌, arith, length,
  length-append, ◌==◌, ==→eq, ==→ne, ne→==, Bool-cases,
}
use arctic_tracker_teensy.Hdlc.{hdlc_flag}
use arctic_tracker_teensy.Hdlc.Stuffing.{
  next_run, run_after, stuff, stuff_nil, stuff_quiet, stuff_full, run_quiet, run_full,
}
use arctic_tracker_teensy.Hdlc.Decoder.{Window, Rx, done, get_bit, Receiver, unstuff, ◌>>=◌}
use arctic_tracker_teensy.Hdlc.Window.{ahead, IsWindow, flag}
use arctic_tracker_teensy.Hdlc.GetBit.{begins, get_bit-flag, get_bit-bit}

-- All values are bits.
unfoldable pub AllBits : List ℕ → Type 0
AllBits [] = Unit
AllBits (b ∷ bs) = (b < 2) × AllBits bs

abbrev ones : ℕ → List ℕ → List ℕ
ones zero ys = ys
ones (suc k) ys = 1 ∷ ones k ys

-- After a run of `t` ones, stuffed bits and a flag do not begin with as many ones as make six.
no_run :
    (bs : List ℕ) (t k : ℕ) (ys more : List ℕ)
    → AllBits bs
    → t ≤ 5
    → 6 ≤ t + k
    → begins (ones k ys) (stuff t bs ++ (flag ++ more)) ≡ false
unfolding AllBits
no_run bs t zero ys more all le six = absurd (omega arith)
no_run [] t (suc k) ys more all le six = rw (stuff_nil t) refl
no_run (b ∷ bs) t (suc k) ys more all le six = elim (Bool-cases (t == 5)) [
  | inl e ↦ rw (==→eq t 5 e, stuff_full b bs) refl
  | inr e ↦
      let ne = ==→ne t 5 e in
      rw (stuff_quiet b bs t e) (elim (Bool-cases (b == 1)) [
        | inr z ↦
            let bit = ==→ne b 1 z in
            let small : b < 2 = all.0 in let zero_bit : b ≡ 0 = omega arith in rw zero_bit refl
        | inl o ↦
            let one_bit = ==→eq b 1 o in
            let next : next_run t 1 ≡ t + 1 = rw e refl in
            rw (one_bit, next) (no_run bs (t + 1) k ys more all.1 (omega arith) (omega arith))
      ])
]

-- A bit that is sent after fewer than five ones does not begin a flag.
pub no_flag :
    (b : ℕ) (bs : List ℕ) (r : ℕ) (more : List ℕ)
    → b < 2
    → AllBits bs
    → begins flag (b ∷ (stuff (next_run r b) bs ++ (flag ++ more))) ≡ false
no_flag b bs r more bit all = elim (Bool-cases (b == 0)) [
  | inl e ↦ rw (==→eq b 0 e) (no_run bs 0 6 (0 ∷ []) more all (omega arith) (omega arith))
  | inr e ↦ let ne = ==→ne b 0 e in let one_bit : b ≡ 1 = omega arith in rw one_bit refl
]

-- Nor does a stuffed zero.
no_flag_stuffed :
    (b : ℕ) (bs more : List ℕ)
    → b < 2
    → AllBits bs
    → begins flag (0 ∷ b ∷ (stuff (next_run 0 b) bs ++ (flag ++ more))) ≡ false
unfolding AllBits
no_flag_stuffed b bs more bit all =
    let whole = no_run (b ∷ bs) 0 6 (0 ∷ []) more (bit, all) (omega arith) (omega arith) in
    rw (stuff_quiet b bs 0 refl) at whole

-- Where the receiver stands: `r` ones have been counted, and the data bits `bs` are still to be
-- taken in, the first of them as the present token; then comes a flag, and `more`.
unfoldable pub Reads : ℕ → List ℕ → List ℕ → Receiver → Type 0
Reads r [] more s = (s.bit ≡ hdlc_flag) × ((ahead s.window ≡ more) × IsWindow s.window)
Reads r (b ∷ bs) more s =
    (s.bit ≡ b)
    × ((s.ones_count ≡ r)
        × ((ahead s.window ≡ stuff (next_run r b) bs ++ (flag ++ more)) × IsWindow s.window))

-- A round has ended.
pub record Round (more bs : List ℕ) (octet : ℕ) (r : Rx Receiver) : Type 0 where
  pub next : Receiver
  pub count : ℕ
  pub result : r ≡ done next
  pub low : count < 5
  pub octets : next.octet ≡ octet
  pub reads : Reads count bs more next
  pub ends : run_after count bs ≢ 5

pub long_tail : (xs more : List ℕ) → 7 ≤ length (xs ++ (flag ++ more))
long_tail xs more = omega (arith, length-append xs (flag ++ more))

-- The next token, where no zero is stuffed.
pub unstuff-quiet :
    (octet t : ℕ) (bs more : List ℕ) (w : Window)
    → AllBits bs
    → t < 5
    → run_after t bs ≢ 5
    → IsWindow w
    → ahead w ≡ stuff t bs ++ (flag ++ more)
    → Round more bs octet (get_bit w >>= unstuff octet t)
unfolding unstuff Reads AllBits
unstuff-quiet octet t [] more w all low ends v e =
    let e' = rw (stuff_nil t) at e in
    let g = get_bit-flag w more v e' in
    rw (g.result, ne→== t 5 (omega arith))
      (record {
        next = record { bit = hdlc_flag; octet = octet; ones_count = t; window = g.next };
        count = t;
        result = refl;
        low = low;
        octets = refl;
        reads = (refl, (g.left, g.valid));
        ends = ends;
      })
unstuff-quiet octet t (b ∷ bs) more w all low ends v e =
    let quiet = ne→== t 5 (omega arith) in
    let e' = rw (stuff_quiet b bs t quiet) at e in
    let g = get_bit-bit w b _ v e' (no_flag b bs t more all.0 all.1) (long_tail _ more) in
    rw (g.result, quiet)
      (record {
        next = record { bit = b; octet = octet; ones_count = t; window = g.next };
        count = t;
        result = refl;
        low = low;
        octets = refl;
        reads = (refl, (refl, (g.left, g.valid)));
        ends = ends;
      })

-- After five ones a zero is skipped.
pub unstuff-full :
    (octet b : ℕ) (bs more : List ℕ) (w : Window)
    → b < 2
    → AllBits bs
    → run_after 5 (b ∷ bs) ≢ 5
    → IsWindow w
    → ahead w ≡ stuff 5 (b ∷ bs) ++ (flag ++ more)
    → Round more (b ∷ bs) octet (get_bit w >>= unstuff octet 5)
unfolding unstuff Reads
unstuff-full octet b bs more w bit all ends v e =
    let e' = rw (stuff_full b bs) at e in
    let g = get_bit-bit w 0 _ v e' (no_flag_stuffed b bs more bit all) (long_tail (b ∷ _) more) in
    let h =
      get_bit-bit g.next b _ g.valid g.left (no_flag b bs 0 more bit all) (long_tail _ more) in
    let ends' : run_after 0 (b ∷ bs) ≢ 5 =
      rw (run_quiet b bs 0 refl) (rw (run_full b bs) at ends) in
    rw (g.result, h.result)
      (record {
        next = record { bit = b; octet = octet; ones_count = 0; window = h.next };
        count = 0;
        result = refl;
        low = omega arith;
        octets = refl;
        reads = (refl, (refl, (h.left, h.valid)));
        ends = ends';
      })
