-- ===== src/Hdlc/Octets.antt =====
-- The receiver from a flag to the end of a frame.
use arctic_tracker_teensy.Base.{
  ℕ, zero, suc, ◌+◌, ◌/◌, ◌%◌, ◌≤◌, ◌<◌, ◌≡◌, ◌≢◌, refl, ap, ◌∙◌, List, [], ◌∷◌, ◌++◌, append_assoc,
  arith, length, ne→==, ge→ltb,
}
use arctic_tracker_teensy.Hdlc.{hdlc_flag, max_hdlc_frame_size, bits, bits_of}
use arctic_tracker_teensy.Hdlc.Stuffing.{AllBytes, run_after, stuff, stuff_quiet}
use arctic_tracker_teensy.Hdlc.Decoder.{
  Window, Rx, done, Receiver, receive_octets, skip_flags, ◌>>=◌,
}
use arctic_tracker_teensy.Hdlc.Window.{ahead, IsWindow, flag, length-bits}
use arctic_tracker_teensy.Hdlc.GetBit.{get_bit-flag, get_bit-bit}
use arctic_tracker_teensy.Hdlc.Unstuffing.{AllBits, Reads, no_flag, long_tail}
use arctic_tracker_teensy.Hdlc.Receiving.{receive_bits-Round, pushes-bits}

AllBits-append : (xs ys : List ℕ) → AllBits xs → AllBits ys → AllBits (xs ++ ys)
unfolding AllBits
AllBits-append [] ys p q = q
AllBits-append (x ∷ xs) ys p q = (p.0, AllBits-append xs ys p.1 q)

AllBits-bits : (n v : ℕ) → AllBits (bits n v)
unfolding AllBits bits
AllBits-bits zero v = tt
AllBits-bits (suc n) v = (omega arith, AllBits-bits n (v / 2))

pub AllBits-bits_of : (bs : List ℕ) → AllBits (bits_of bs)
unfolding bits_of AllBits
AllBits-bits_of [] = tt
AllBits-bits_of (b ∷ bs) =
    AllBits-append (bits 8 b) (bits_of bs) (AllBits-bits 8 b) (AllBits-bits_of bs)

-- A frame has been received.
pub record GotFrame (octets more : List ℕ) (r : Rx (List ℕ × Window)) : Type 0 where
  pub window : Window
  pub result : r ≡ done (octets, window)
  pub left : ahead window ≡ more
  pub valid : IsWindow window

receive_octets-GotFrame :
    (cs : List ℕ) (c n got : ℕ) (acc more : List ℕ) (r : ℕ) (s : Receiver)
    → AllBytes (c ∷ cs)
    → length cs < n
    → got + length cs ≤ max_hdlc_frame_size
    → s.octet < 256
    → r < 5
    → run_after r (bits_of (c ∷ cs)) ≢ 5
    → Reads r (bits_of (c ∷ cs)) more s
    → GotFrame (acc ++ (c ∷ cs)) more (receive_octets n got acc s)
unfolding receive_octets bits_of AllBytes Reads bits
receive_octets-GotFrame cs c zero got acc more r s all enough few small low ends here =
    absurd (omega arith)
receive_octets-GotFrame [] c (suc n) got acc more r s all enough few small low ends here =
    let round =
      receive_bits-Round more (bits 8 c) [] r s (AllBits-bits_of (c ∷ [])) low ends here in
    let result = rw (length-bits 8 c) at (round.result) in
    let octet = round.octets ∙ pushes-bits c s.octet all.0 small in
    let (is, (left, v)) = round.reads in
    rw (ge→ltb max_hdlc_frame_size got (omega arith), result, is, octet)
      (record { window = round.next.window; result = refl; left = left; valid = v })
receive_octets-GotFrame (c' ∷ cs) c (suc n) got acc more r s all enough few small low ends here =
    let round =
      receive_bits-Round more (bits 8 c) (bits_of (c' ∷ cs)) r s (AllBits-bits_of (c ∷ c' ∷ cs)) low
        ends here in
    let result = rw (length-bits 8 c) at (round.result) in
    let octet = round.octets ∙ pushes-bits c s.octet all.0 small in
    let byte : round.next.octet < 256 = rw octet (all.0) in
    let bit = first_bit c' cs round.count more round.next round.reads in
    let rest =
      receive_octets-GotFrame cs c' n (got + 1) (acc ++ (c ∷ [])) more round.count round.next all.1
        (omega arith) (omega arith) byte round.low round.ends round.reads in
    rw (ge→ltb max_hdlc_frame_size got (omega arith), result, ne→== round.next.bit hdlc_flag bit)
      (rw octet (record {
        window = rest.window;
        result =
            rest.result ∙ ap (λ ys. done (ys, rest.window)) (append_assoc acc (c ∷ []) (c' ∷ cs));
        left = rest.left;
        valid = rest.valid;
      }))
  where
    first_bit :
        (c' : ℕ) (cs : List ℕ) (r : ℕ) (more : List ℕ) (s : Receiver)
        → Reads r (bits_of (c' ∷ cs)) more s
        → s.bit ≢ hdlc_flag
    first_bit c' cs r more s here = λ e. omega (arith, here.0, e)

bits_tail : (c : ℕ) (cs : List ℕ) → AllBits (bits 7 (c / 2) ++ bits_of cs)
bits_tail c cs =
    AllBits-append (bits 7 (c / 2)) (bits_of cs) (AllBits-bits 7 (c / 2)) (AllBits-bits_of cs)

-- `n` flags, as lists of bits.
unfoldable pub flags : ℕ → List ℕ
flags zero = []
flags (suc n) = flag ++ flags n

-- A frame and its flag, as the encoder sends them.
abbrev pub sent_frame : List ℕ → List ℕ → List ℕ
sent_frame cs more = stuff 0 (bits_of cs) ++ (flag ++ more)

-- At frame_sync, all flags are skipped.
pub receive_frame-GotFrame :
    (n k c : ℕ) (cs more : List ℕ) (w : Window)
    → n ≤ k
    → AllBytes (c ∷ cs)
    → length cs ≤ max_hdlc_frame_size
    → run_after 0 (bits_of (c ∷ cs)) ≢ 5
    → IsWindow w
    → ahead w ≡ flags n ++ sent_frame (c ∷ cs) more
    → GotFrame (c ∷ cs) more (
        skip_flags (suc k) w >>= λ (bit, w).
        receive_octets 291 0 [] (record { bit = bit; octet = 0; ones_count = 0; window = w }))
unfolding flags skip_flags bits_of bits Reads
receive_frame-GotFrame zero k c cs more w le all few ends v e =
    let tail = bits 7 (c / 2) ++ bits_of cs in
    let e' = rw (stuff_quiet (c % 2) tail 0 refl) at e in
    let g =
      get_bit-bit w (c % 2) _ v e' (no_flag (c % 2) tail 0 more (omega arith) (bits_tail c cs))
        (long_tail _ more) in
    rw (g.result, ne→== (c % 2) hdlc_flag (omega arith))
      (receive_octets-GotFrame cs c 291 0 [] more 0 _ all (omega arith) (omega arith) (omega arith)
        (omega arith) ends (refl, (refl, (g.left, g.valid))))
receive_frame-GotFrame (suc n) zero c cs more w le all few ends v e = absurd (omega arith)
receive_frame-GotFrame (suc n) (suc k) c cs more w le all few ends v e =
    let g = get_bit-flag w (flags n ++ sent_frame (c ∷ cs) more) v e in
    rw (g.result)
      (receive_frame-GotFrame n k c cs more g.next (omega arith) all few ends g.valid g.left)
