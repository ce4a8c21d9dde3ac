-- ===== src/Hdlc/Link.antt =====
-- What the encoder sends, the receiver gets.
use arctic_tracker_teensy.Base.{
  ℕ, zero, suc, ◌+◌, ◌-◌, ◌/◌, ◌^◌, ◌≤◌, ◌<◌, ◌≡◌, ◌≢◌, refl, sym, ap, ap₂, ◌∙◌, some, List, [],
  ◌∷◌, ◌++◌, append_assoc, arith, length, length-append,
}
use arctic_tracker_teensy.Crc.{crc_bytes}
use arctic_tracker_teensy.Hdlc.{max_hdlc_frame_size, bits, bits_of}
use arctic_tracker_teensy.Hdlc.Encoder.{Encoder, fcs, encode_frames}
use arctic_tracker_teensy.Hdlc.Stuffing.{AllBytes, run_after, stuff, pending, sent, IsEncoder}
use arctic_tracker_teensy.Hdlc.Frames.{with_fcs, flag_bits, queue_bits, encode_frames-Transmitted}
use arctic_tracker_teensy.Hdlc.Decoder.{Window, done, ◌>>=◌, find_flag, receive_frame, receive}
use arctic_tracker_teensy.Hdlc.Start.{started, start-Skipped}
use arctic_tracker_teensy.Hdlc.Window.{
  ahead, IsWindow, flag, length-bits, append_same, head_same, tail_same,
}
use arctic_tracker_teensy.Hdlc.GetBit.{get_bit-flag}
use arctic_tracker_teensy.Hdlc.Octets.{GotFrame, flags, sent_frame, receive_frame-GotFrame}

-- The bits that have left an encoder: a list that another is a prefix of.
prefix_of :
    (xs ys zs ps : List ℕ)
    → zs ++ ps ≡ xs ++ ys
    → length ps ≤ length ys
    → (more : List ℕ) × (zs ≡ xs ++ more)
prefix_of [] ys zs ps e le = (zs, refl)
prefix_of (x ∷ xs) ys [] ps e le =
    let n = ap length e in absurd (omega (arith, n, length-append xs ys))
prefix_of (x ∷ xs) ys (z ∷ zs) ps e le =
    let (more, same) = prefix_of xs ys zs ps (tail_same z x (zs ++ ps) (xs ++ ys) e) le in
    (more, ap₂ ◌∷◌ (head_same z x (zs ++ ps) (xs ++ ys) e) same)

flag_bits-flags : (n : ℕ) → flag_bits n ≡ flags n
unfolding flag_bits flags bits
flag_bits-flags zero = refl
flag_bits-flags (suc n) = ap (λ ys. flag ++ ys) (flag_bits-flags n)

-- From flag_sync on, with flags ahead and then a frame.
find_flag-GotFrame :
    (n k c : ℕ) (cs more : List ℕ) (w : Window)
    → n ≤ k
    → AllBytes (c ∷ cs)
    → length cs ≤ max_hdlc_frame_size
    → run_after 0 (bits_of (c ∷ cs)) ≢ 5
    → IsWindow w
    → ahead w ≡ flags (suc n) ++ sent_frame (c ∷ cs) more
    → GotFrame (c ∷ cs) more (find_flag (suc n) w >>= receive_frame (suc k))
unfolding find_flag receive_frame flags
find_flag-GotFrame n k c cs more w le all few ends v e =
    let g = get_bit-flag w (flags n ++ sent_frame (c ∷ cs) more) v e in
    rw (g.result) (receive_frame-GotFrame n k c cs more g.next le all few ends g.valid g.left)

-- Two bytes that are flags stand in front of the others.
two_flags :
    (bytes rest : List ℕ)
    → bits_of bytes ≡ flag ++ (flag ++ rest)
    → (b : ℕ) × ((c : ℕ) × ((bs : List ℕ) × ((bytes ≡ b ∷ c ∷ bs) × (bits_of bs ≡ rest))))
unfolding bits_of
two_flags [] rest e = cc e
two_flags (b ∷ []) rest e =
    let (one, more) = append_same (bits 8 b) [] flag (flag ++ rest) (length-bits 8 b) e in cc more
two_flags (b ∷ c ∷ bs) rest e =
    let (one, more) =
      append_same (bits 8 b) (bits 8 c ++ bits_of bs) flag (flag ++ rest) (length-bits 8 b) e in
    let (two, left) = append_same (bits 8 c) (bits_of bs) flag rest (length-bits 8 c) more in
    (b, (c, (bs, (refl, left))))

-- The receiver at its start, with two flags that are lost ahead, then others and a frame.
start-GotFrame :
    (n c : ℕ) (cs more bytes : List ℕ)
    → AllBytes (c ∷ cs)
    → length cs ≤ max_hdlc_frame_size
    → run_after 0 (bits_of (c ∷ cs)) ≢ 5
    → AllBytes bytes
    → bits_of bytes ≡ flag ++ (flag ++ (flags (suc n) ++ sent_frame (c ∷ cs) more))
    → GotFrame (c ∷ cs) more (receive (16 + suc n) (started bytes))
unfolding receive flags
start-GotFrame n c cs more bytes all few ends bytes_all e =
    let (b, (d, (bs, (shape, left)))) = two_flags bytes _ e in
    let long : 8 ≤ length (bits_of bs) = let m = ap length left in omega (arith, m) in
    let s = start-Skipped b d bs (rw shape at bytes_all) long in
    let fuel : 16 + suc n ≡ suc (16 + n) = omega arith in
    rw (shape, s.same (suc n), fuel)
      (find_flag-GotFrame n (16 + n) c cs more s.next (omega arith) all few ends s.valid
        (s.left ∙ left))

AllBytes-with_fcs : (frame : List ℕ) (crc : ℕ) → AllBytes frame → AllBytes (frame ++ fcs crc)
unfolding AllBytes
AllBytes-with_fcs [] crc all = (omega arith, (omega arith, tt))
AllBytes-with_fcs (b ∷ frame) crc all = (all.0, AllBytes-with_fcs frame crc all.1)

-- A frame with its check sequence has a first byte.
with_fcs-uncons :
    (frame : List ℕ) (crc : ℕ) → (c : ℕ) × ((cs : List ℕ) × (frame ++ fcs crc ≡ c ∷ cs))
with_fcs-uncons [] crc = (_, (_, refl))
with_fcs-uncons (b ∷ frame) crc = (b, (frame ++ fcs crc, refl))

no_bytes : AllBytes []
unfolding AllBytes
no_bytes = tt

nothing_sent : (v : ℕ) → sent (record { outbits = 0; outbyte = v; out = [] }) ≡ []
unfolding sent bits_of pending bits
nothing_sent v = refl

length-pending : (k v : ℕ) → length (pending k v) ≡ k
unfolding pending
length-pending k v = length-bits k (v / 2 ^ (7 - k))

-- The bits that the encoder still holds are fewer than a flag has.
pending-le :
    (e : Encoder) (n : ℕ)
    → IsEncoder e
    → length (pending e.outbits e.outbyte) ≤ length (flag_bits (suc n))
unfolding flag_bits bits
pending-le e n v = let partial = v.partial in omega (arith, length-pending e.outbits e.outbyte)

-- What the receiver makes of the bytes of an encoder, from its start.
pub record Received (txdelay txtail maxfr : ℕ) (frame : List ℕ) (e : Encoder) : Type 0 where
  pub last : Encoder
  pub window : Window
  pub sends : encode_frames txdelay txtail maxfr frame [] e ≡ some (last, [])
  pub receives : receive (14 + txdelay) (started last.out) ≡ done (with_fcs frame, window)

-- A frame of bytes is transmitted with at least three flags in front and at least two behind it. If
-- it has, with its check sequence, at most 290 bytes and does not end with five ones, then a
-- receiver that reads the transmitted bytes from its start gets the frame and the check sequence.
-- The first two bytes are lost to it, since its window begins with sixteen ones.
pub receive-encode_frames :
    (txdelay txtail maxfr v : ℕ) (frame : List ℕ)
    → v < 128
    → 0 < maxfr
    → AllBytes frame
    → length frame ≤ 288
    → run_after 0 (bits_of (with_fcs frame)) ≢ 5
    → Received
        (suc (suc (suc txdelay)))
        (suc (suc txtail))
        maxfr
        frame
        (record { outbits = 0; outbyte = v; out = [] })
unfolding queue_bits flag_bits flags sent bits
receive-encode_frames txdelay txtail maxfr v frame small some_rounds all short ends =
    let e : Encoder = record { outbits = 0; outbyte = v; out = [] } in
    let crc = crc_bytes 0xFFFF frame in
    let body = stuff 0 (bits_of (with_fcs frame)) in
    let (c, (cs, shape)) = with_fcs-uncons frame crc in
    let n = ap length shape in
    let ahead_flags = suc (suc (suc txdelay)) in
    let t =
      encode_frames-Transmitted (suc (suc txdelay)) (suc (suc txtail)) maxfr frame [] e
        (record { partial = omega arith; shifted = small; bytes = no_bytes }) some_rounds in
    let front = flag_bits ahead_flags ++ (body ++ flag) in
    let tail = flag_bits (suc txtail) in
    let all_bits : bits_of (t.last).out ++ pending (t.last).outbits (t.last).outbyte
        ≡ front ++ tail =
      t.stream
      ∙ ap (λ xs. xs ++ (flag_bits ahead_flags ++ (body ++ flag_bits (suc (suc txtail)))))
          (nothing_sent v)
      ∙ ap (λ xs. flag_bits ahead_flags ++ xs) (sym (append_assoc body flag tail))
      ∙ sym (append_assoc (flag_bits ahead_flags) (body ++ flag) tail) in
    let (more, same) =
      prefix_of front tail (bits_of (t.last).out) (pending (t.last).outbits (t.last).outbyte)
        all_bits (pending-le t.last txtail t.valid) in
    let view : bits_of (t.last).out ≡ flags ahead_flags ++ sent_frame (c ∷ cs) more =
      same
      ∙ append_assoc (flag_bits ahead_flags) (body ++ flag) more
      ∙ ap (λ xs. flag_bits ahead_flags ++ xs) (append_assoc body flag more)
      ∙ ap (λ xs. xs ++ sent_frame (with_fcs frame) more) (flag_bits-flags ahead_flags)
      ∙ ap (λ xs. flags ahead_flags ++ sent_frame xs more) shape in
    let few = length-append frame (fcs crc) in
    let fuel : 14 + ahead_flags ≡ 16 + suc txdelay = omega arith in
    let r =
      start-GotFrame txdelay c cs more (t.last).out (rw shape at (AllBytes-with_fcs frame crc all))
        (omega (arith, n, few)) (rw shape at ends) (t.valid).bytes view in
    record {
      last = t.last;
      window = r.window;
      sends = t.result;
      receives = rw fuel (r.result ∙ ap (λ xs. done (xs, r.window)) (sym shape));
    }
