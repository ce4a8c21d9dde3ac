-- ===== src/Hdlc/Receiving.antt =====
-- The receiver takes in the octets of a stuffed frame.
use arctic_tracker_teensy.Base.{
  ℕ, ◌+◌, ◌*◌, ◌/◌, ◌%◌, ◌≤◌, ◌<◌, ◌≡◌, ◌≢◌, refl, ap, ◌∙◌, inl, inr, true, List, [], ◌∷◌, ◌++◌,
  arith, length, ◌==◌, ==→eq, ==→ne, ne→==, if◌then◌else◌, Bool-cases,
}
use arctic_tracker_teensy.Base.Bytes.{all_below, all_below_sound}
use arctic_tracker_teensy.Hdlc.{hdlc_flag, bits}
use arctic_tracker_teensy.Hdlc.Stuffing.{next_run, run_after, stuff, run_nil, run_quiet}
use arctic_tracker_teensy.Hdlc.Decoder.{
  Window, get_bit, Receiver, push, unstuff, receive_bit, receive_bits, ◌>>=◌,
}
use arctic_tracker_teensy.Hdlc.Window.{ahead, IsWindow, flag}
use arctic_tracker_teensy.Hdlc.Unstuffing.{AllBits, Reads, Round, unstuff-quiet, unstuff-full}

-- The octet after some bits.
unfoldable pub pushes : List ℕ → ℕ → ℕ
pushes [] octet = octet
pushes (b ∷ bs) octet = pushes bs (push b octet)

module _ (more : List ℕ) where
  after_round :
      (octet t : ℕ) (bs : List ℕ) (w : Window)
      → AllBits bs
      → t ≤ 5
      → run_after t bs ≢ 5
      → IsWindow w
      → ahead w ≡ stuff t bs ++ (flag ++ more)
      → Round more bs octet (get_bit w >>= unstuff octet t)
  unfolding AllBits
  after_round octet t bs w all le ends v e = elim (Bool-cases (t == 5)) [
    | inr f ↦ let ne = ==→ne t 5 f in unstuff-quiet octet t bs more w all (omega arith) ends v e
    | inl f ↦ let five = ==→eq t 5 f in full bs all (rw five at ends) five (rw five at e)
  ]
    where
      full :
          (bs : List ℕ)
          → AllBits bs
          → run_after 5 bs ≢ 5
          → t ≡ 5
          → ahead w ≡ stuff 5 bs ++ (flag ++ more)
          → Round more bs octet (get_bit w >>= unstuff octet t)
      full [] all ends five e = absurd (ends (run_nil 5))
      full (b ∷ bs) all ends five e = rw five (unstuff-full octet b bs more w all.0 all.1 ends v e)

  next_run-le : (r b : ℕ) → r < 5 → next_run r b ≤ 5
  next_run-le r b low = ground arith

  -- A round takes in the present bit.
  receive_bit-Round :
      (b r : ℕ) (bs : List ℕ) (s : Receiver)
      → b < 2
      → AllBits bs
      → r < 5
      → run_after r (b ∷ bs) ≢ 5
      → Reads r (b ∷ bs) more s
      → Round more bs (push b s.octet) (receive_bit s)
  unfolding receive_bit Reads
  receive_bit-Round b r bs s bit all low ends (is, (count, (left, v))) =
      let quiet = ne→== r 5 (omega arith) in
      let ends' : run_after (next_run r b) bs ≢ 5 = rw (run_quiet b bs r quiet) at ends in
      let run : (if b == 0 then 0 else (r + 1) % 256) ≡ next_run r b = rw quiet (ground arith) in
      rw (is, count, ne→== b hdlc_flag (omega arith), run)
        (after_round (push b s.octet) (next_run r b) bs s.window all (next_run-le r b low) ends' v
          left)

  pub receive_bits-Round :
      (xs bs : List ℕ) (r : ℕ) (s : Receiver)
      → AllBits (xs ++ bs)
      → r < 5
      → run_after r (xs ++ bs) ≢ 5
      → Reads r (xs ++ bs) more s
      → Round more bs (pushes xs s.octet) (receive_bits (length xs) s)
  unfolding receive_bits pushes AllBits
  receive_bits-Round [] bs r s all low ends here = record {
    next = s;
    count = r;
    result = refl;
    low = low;
    octets = refl;
    reads = here;
    ends = ends;
  }
  receive_bits-Round (x ∷ xs) bs r s all low ends here =
      let one = receive_bit-Round x r (xs ++ bs) s all.0 all.1 low ends here in
      let rest = receive_bits-Round xs bs one.count one.next all.1 one.low one.ends one.reads in
      rw (one.result) (record {
        next = rest.next;
        count = rest.count;
        result = rest.result;
        low = rest.low;
        octets = rest.octets ∙ ap (pushes xs) one.octets;
        reads = rest.reads;
        ends = rest.ends;
      })

push_table : all_below 2 (λ b. all_below 256 (λ o. push b o == b * 128 + o / 2)) ≡ true
unfolding all_below
push_table = refl

push_lem : (b o : ℕ) → b < 2 → o < 256 → push b o ≡ b * 128 + o / 2
push_lem b o p q = ==→eq _ _ (all_below_sound 256 _ o (all_below_sound 2 _ b push_table p) q)

-- Eight bits make an octet, whatever it was before.
pub pushes-bits : (c o : ℕ) → c < 256 → o < 256 → pushes (bits 8 c) o ≡ c
unfolding pushes bits
pushes-bits c o p q =
    let b0 = c % 2 in
    let b1 = c / 2 % 2 in
    let b2 = c / 2 / 2 % 2 in
    let b3 = c / 2 / 2 / 2 % 2 in
    let b4 = c / 2 / 2 / 2 / 2 % 2 in
    let b5 = c / 2 / 2 / 2 / 2 / 2 % 2 in
    let b6 = c / 2 / 2 / 2 / 2 / 2 / 2 % 2 in
    let b7 = c / 2 / 2 / 2 / 2 / 2 / 2 / 2 % 2 in
    let o1 = push b0 o in
    let e1 = push_lem b0 o (omega arith) q in
    let l1 : o1 < 256 = omega (arith, e1) in
    let o2 = push b1 o1 in
    let e2 = push_lem b1 o1 (omega arith) l1 in
    let l2 : o2 < 256 = omega (arith, e2) in
    let o3 = push b2 o2 in
    let e3 = push_lem b2 o2 (omega arith) l2 in
    let l3 : o3 < 256 = omega (arith, e3) in
    let o4 = push b3 o3 in
    let e4 = push_lem b3 o3 (omega arith) l3 in
    let l4 : o4 < 256 = omega (arith, e4) in
    let o5 = push b4 o4 in
    let e5 = push_lem b4 o4 (omega arith) l4 in
    let l5 : o5 < 256 = omega (arith, e5) in
    let o6 = push b5 o5 in
    let e6 = push_lem b5 o5 (omega arith) l5 in
    let l6 : o6 < 256 = omega (arith, e6) in
    let o7 = push b6 o6 in
    let e7 = push_lem b6 o6 (omega arith) l6 in
    let l7 : o7 < 256 = omega (arith, e7) in
    let e8 = push_lem b7 o7 (omega arith) l7 in omega (arith, e1, e2, e3, e4, e5, e6, e7, e8)
