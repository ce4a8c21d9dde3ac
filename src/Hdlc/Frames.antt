-- ===== src/Hdlc/Frames.antt =====
-- hdlc_encode_frames at the level of bits: whole frames, and the flags around them.
use arctic_tracker_teensy.Base.{
  ℕ, zero, suc, ◌<◌, ◌≡◌, refl, sym, ap, ◌∙◌, true, false, Option, none, some, List, [], ◌∷◌, ◌++◌,
  append_assoc, append-nil, arith, length,
}
use arctic_tracker_teensy.Crc.{crc_bytes}
use arctic_tracker_teensy.Hdlc.{hdlc_flag, bits, bits_of}
use arctic_tracker_teensy.Hdlc.Encoder.{
  Encoder, ◌>>=◌, encode_byte, encode_flags, encode_bytes, fcs, encode_frame, encode_queue,
  encode_frames,
}
use arctic_tracker_teensy.Hdlc.Stuffing.{
  run_after-append, stuff-append, stuff_nil, run_nil, run_after, stuff, run_plain, trailing, sent,
  IsEncoder,
}
use arctic_tracker_teensy.Hdlc.Sending.{SentBits, encode_byte-stuff, encode_byte-flag}

-- Sending one thing after the other.
SentBits-then :
    {e : Encoder} {xs ys : List ℕ} {t u : ℕ} {r : Option Encoder} {f : Encoder → Option Encoder}
    → SentBits e xs t r
    → ((e' : Encoder) → IsEncoder e' → trailing e'.outbyte ≡ t → SentBits e' ys u (f e'))
    → SentBits e (xs ++ ys) u (r >>= f)
SentBits-then {e} {xs} {ys} {f = f} s next =
    let n = next s.last s.valid s.run in
    record {
      last = n.last;
      result = ap (λ r. r >>= f) s.result ∙ n.result;
      valid = n.valid;
      stream = n.stream ∙ ap (λ zs. zs ++ ys) s.stream ∙ append_assoc (sent e) xs ys;
      run = n.run;
    }

encode_bytes-stuff :
    (bs : List ℕ) (e : Encoder) (t : ℕ)
    → IsEncoder e
    → trailing e.outbyte ≡ t
    → SentBits e (stuff t (bits_of bs)) (run_after t (bits_of bs)) (encode_bytes bs e)
unfolding encode_bytes bits_of
encode_bytes-stuff [] e t v run =
    rw (stuff_nil t, run_nil t)
      (record { last = e; result = refl; valid = v; stream = sym (append-nil _); run = run })
encode_bytes-stuff (b ∷ bs) e t v run =
    rw (stuff-append (bits 8 b) (bits_of bs) t, run_after-append (bits 8 b) (bits_of bs) t)
      (SentBits-then (rw run at (encode_byte-stuff b e v))
        (λ e' v' run'. encode_bytes-stuff bs e' _ v' run'))

-- What a frame consists of.
abbrev pub with_fcs : List ℕ → List ℕ
with_fcs bytes = bytes ++ fcs (crc_bytes 0xFFFF bytes)

bind_assoc :
    {f : Encoder → Option Encoder} (g h : Encoder → Option Encoder) (r : Option Encoder)
    → ((e : Encoder) → f e ≡ g e >>= h)
    → (r >>= f) ≡ ((r >>= g) >>= h)
bind_assoc g h none same = refl
bind_assoc g h (some e) same = same e

encode_bytes-append :
    (xs ys : List ℕ) (e : Encoder)
    → encode_bytes (xs ++ ys) e ≡ encode_bytes xs e >>= encode_bytes ys
unfolding encode_bytes
encode_bytes-append [] ys e = refl
encode_bytes-append (x ∷ xs) ys e =
    bind_assoc _ _ (encode_byte x false e) (λ e'. encode_bytes-append xs ys e')

pub encode_frame-stuff :
    (bytes : List ℕ) (e : Encoder) (t : ℕ)
    → IsEncoder e
    → trailing e.outbyte ≡ t
    → SentBits e
        (stuff t (bits_of (with_fcs bytes)))
        (run_after t (bits_of (with_fcs bytes)))
        (encode_frame bytes e)
unfolding encode_frame
encode_frame-stuff bytes e t v run =
    rw (sym (encode_bytes-append bytes (fcs (crc_bytes 0xFFFF bytes)) e))
      (encode_bytes-stuff (with_fcs bytes) e t v run)

-- The bits of `n` flags, and the run of ones after them.
unfoldable pub flag_bits : ℕ → List ℕ
flag_bits zero = []
flag_bits (suc n) = bits 8 hdlc_flag ++ flag_bits n

abbrev flags_run : ℕ → ℕ → ℕ
flags_run zero t = t
flags_run (suc n) t = 0

run_plain-flag : (t : ℕ) → run_plain t (bits 8 hdlc_flag) ≡ 0
unfolding run_plain bits
run_plain-flag t = refl

encode_flag :
    (e : Encoder) → IsEncoder e → SentBits e (bits 8 hdlc_flag) 0 (encode_byte hdlc_flag true e)
encode_flag e v = rw (run_plain-flag (trailing e.outbyte)) at (encode_byte-flag hdlc_flag e v)

encode_flags-flag_bits :
    (n : ℕ) (e : Encoder) (t : ℕ)
    → IsEncoder e
    → trailing e.outbyte ≡ t
    → SentBits e (flag_bits n) (flags_run n t) (encode_flags n e)
unfolding encode_flags flag_bits
encode_flags-flag_bits zero e t v run = record {
  last = e;
  result = refl;
  valid = v;
  stream = sym (append-nil _);
  run = run;
}
encode_flags-flag_bits (suc zero) e t v run =
    SentBits-then (encode_flag e v) (λ e' v' run'. encode_flags-flag_bits zero e' 0 v' run')
encode_flags-flag_bits (suc (suc n)) e t v run =
    SentBits-then (encode_flag e v) (λ e' v' run'. encode_flags-flag_bits (suc n) e' 0 v' run')

-- The bits of a frame, its stuffing begun after a run `t`, and of those behind it, each after a
-- flag.
unfoldable pub queue_bits : List ℕ → List (List ℕ) → ℕ → List ℕ
queue_bits frame [] t = stuff t (bits_of (with_fcs frame))
queue_bits frame (next ∷ waiting) t =
    stuff t (bits_of (with_fcs frame)) ++ (bits 8 hdlc_flag ++ queue_bits next waiting 0)

-- The transmission has ended with the bits `xs` sent and `rest` still waiting.
pub record Transmitted (e : Encoder) (xs : List ℕ) (rest : List (List ℕ))
    (r : Option (Encoder × List (List ℕ))) : Type 0 where
  pub last : Encoder
  pub result : r ≡ some (last, rest)
  pub valid : IsEncoder last
  pub stream : sent last ≡ sent e ++ xs

encode_queue-Transmitted :
    (left : ℕ) (frame : List ℕ) (waiting : List (List ℕ)) (e : Encoder) (t : ℕ)
    → IsEncoder e
    → trailing e.outbyte ≡ t
    → length waiting < left
    → Transmitted e (queue_bits frame waiting t) [] (encode_queue left frame waiting e)
unfolding encode_queue queue_bits
encode_queue-Transmitted zero frame waiting e t v run lt = absurd (omega arith)
encode_queue-Transmitted (suc left) frame [] e t v run lt =
    let s = encode_frame-stuff frame e t v run in
    rw (s.result) (record { last = s.last; result = refl; valid = s.valid; stream = s.stream })
encode_queue-Transmitted (suc left) frame (next ∷ waiting) e t v run lt =
    let f = encode_frame-stuff frame e t v run in
    let g = encode_flag f.last f.valid in
    let q = encode_queue-Transmitted left next waiting g.last 0 g.valid g.run (omega arith) in
    rw (f.result, g.result)
      (record {
        last = q.last;
        result = q.result;
        valid = q.valid;
        stream =
            q.stream
            ∙ ap (λ zs. zs ++ queue_bits next waiting 0)
                (g.stream ∙ ap (λ zs. zs ++ bits 8 hdlc_flag) f.stream)
            ∙ append_assoc (sent e ++ stuff t (bits_of (with_fcs frame))) (bits 8 hdlc_flag) _
            ∙ append_assoc (sent e) (stuff t (bits_of (with_fcs frame))) _;
      })

-- hdlc_encode_frames, given at least one flag before the frames and at least as many rounds as
-- there are frames, always ends with no frame waiting. What it has sent is the flags of the
-- preamble, each frame with its check sequence and stuffed from a fresh start, one flag between
-- two frames, and the flags of the postamble.
pub encode_frames-Transmitted :
    (txdelay txtail maxfr : ℕ) (frame : List ℕ) (waiting : List (List ℕ)) (e : Encoder)
    → IsEncoder e
    → length waiting < maxfr
    → Transmitted e
        (flag_bits (suc txdelay) ++ (queue_bits frame waiting 0 ++ flag_bits txtail))
        []
        (encode_frames (suc txdelay) txtail maxfr frame waiting e)
unfolding encode_frames
encode_frames-Transmitted txdelay txtail maxfr frame waiting e v lt =
    let a = encode_flags-flag_bits (suc txdelay) e _ v refl in
    let q = encode_queue-Transmitted maxfr frame waiting a.last 0 a.valid a.run lt in
    let z = encode_flags-flag_bits txtail q.last _ q.valid refl in
    rw (a.result, q.result, z.result)
      (record {
        last = z.last;
        result = refl;
        valid = z.valid;
        stream =
            z.stream
            ∙ ap (λ zs. zs ++ flag_bits txtail)
                (q.stream ∙ ap (λ zs. zs ++ queue_bits frame waiting 0) a.stream)
            ∙ append_assoc (sent e ++ flag_bits (suc txdelay)) (queue_bits frame waiting 0) _
            ∙ append_assoc (sent e) (flag_bits (suc txdelay)) _;
      })

same_rest :
    {C : Type 0} (f g : Encoder → Option C) (r : Option Encoder)
    → ((e : Encoder) → f e ≡ g e)
    → (r >>= f) ≡ (r >>= g)
same_rest f g none same = refl
same_rest f g (some e) same = same e

-- The frame behind the last that MAXFRAME allows is never sent and does not wait on: whatever it
-- is, the transmission and the frames that still wait after it are the same.
pub encode_queue-lost :
    (frame : List ℕ) (before : List (List ℕ)) (a b : List ℕ) (after : List (List ℕ)) (e : Encoder)
    → encode_queue (suc (length before)) frame (before ++ (a ∷ after)) e
      ≡ encode_queue (suc (length before)) frame (before ++ (b ∷ after)) e
unfolding encode_queue
encode_queue-lost frame [] a b after e = refl
encode_queue-lost frame (x ∷ before) a b after e = same_rest _ _ (encode_frame frame e) (λ e'.
    same_rest _ _ (encode_byte hdlc_flag true e') (λ e''. encode_queue-lost x before a b after e''))
