-- ===== src/Hdlc/Encoder.antt =====
-- hdlc_encoder.c: the bytes that hdlc_encode_byte puts into the output queue, and the frames that
-- hdlc_encode_frames sends. The queue is the list of the bytes put so far.
use arctic_tracker_teensy.Base.{
  ℕ, zero, suc, ◌+◌, ◌*◌, ◌/◌, ◌%◌, Bool, true, false, ◌&&◌, not, Option, none, some, List, [], ◌∷◌,
  ◌++◌, bit_and, bit_or, bit_xor, ltb, ◌==◌, if◌then◌else◌,
}
use arctic_tracker_teensy.Crc.{crc_ccitt_update, crc_bytes}
use arctic_tracker_teensy.Run
use arctic_tracker_teensy.Run.{Cmd, pure, stuck, nil}
use arctic_tracker_teensy.Fbuf.{Fbuf, reset, get_char}
use arctic_tracker_teensy.Hdlc.{hdlc_flag}

-- The static variables of hdlc_encode_byte and what has gone to `outqueue`.
pub record Encoder : Type 0 where
  pub outbits : ℕ
  pub outbyte : ℕ
  pub out : List ℕ

-- `if (++outbits == 8) { oqPut(outqueue, outbyte); outbits = 0; } outbyte >>= 1;`
unfoldable pub shift_out : ℕ → Encoder → Encoder
shift_out byte e =
    if (e.outbits + 1) % 256 == 8
    then record { outbits = 0; outbyte = byte / 2; out = e.out ++ (byte ∷ []) }
    else record { outbits = (e.outbits + 1) % 256; outbyte = byte / 2; out = e.out }

-- The loop of hdlc_encode_byte from round `i` on: a round that stuffs a bit does not count.
unfoldable pub encode_loop : ℕ → ℕ → ℕ → Bool → Encoder → Option Encoder
encode_loop zero i txbyte flag e = none
encode_loop (suc n) i txbyte flag e =
    let stuffed = encode_loop n i txbyte flag (shift_out e.outbyte e) in
    let sent =
      encode_loop n (i + 1) (txbyte / 2) flag
        (shift_out (bit_or e.outbyte (bit_and txbyte 1 * 128)) e) in
    if ltb i 9
    then (if not flag && (bit_and e.outbyte 0x7c == 0x7c) then stuffed else sent)
    else some e

-- hdlc_encode_byte. At most every other round stuffs, so 17 rounds are enough.
unfoldable pub encode_byte : ℕ → Bool → Encoder → Option Encoder
encode_byte txbyte flag e = encode_loop 17 1 txbyte flag e

infixl 5 ◌>>=◌
abbrev pub ◌>>=◌ : {A C : Type 0} → Option A → (A → Option C) → Option C
none >>= f = none
some e >>= f = f e

-- `n` flags, as the loops for the preamble and the postamble send them
unfoldable pub encode_flags : ℕ → Encoder → Option Encoder
encode_flags zero e = some e
encode_flags (suc n) e = do e ← encode_byte hdlc_flag true e; encode_flags n e

-- The bytes of a list, one after the other.
unfoldable pub encode_bytes : List ℕ → Encoder → Option Encoder
encode_bytes [] e = some e
encode_bytes (b ∷ bs) e = do e ← encode_byte b false e; encode_bytes bs e

-- The two bytes of the frame check sequence, lower first.
abbrev pub fcs : ℕ → List ℕ
fcs crc = (bit_xor crc 0xFF % 256) ∷ (bit_xor (crc / 256) 0xFF % 256) ∷ []

-- One frame of a transmission, given as the bytes that send_buffer reads from its buffer, and then
-- the check sequence.
unfoldable pub encode_frame : List ℕ → Encoder → Option Encoder
encode_frame bytes e = do e ← encode_bytes bytes e; encode_bytes (fcs (crc_bytes 0xFFFF bytes)) e

-- The frames of one transmission, a flag between two of them: `left` is how many more rounds
-- MAXFRAME allows, then come the frame in hand and those waiting in the encoder queue. The result
-- has those still waiting; the frame in hand when the rounds run out is not among them.
unfoldable pub encode_queue :
    ℕ → List ℕ → List (List ℕ) → Encoder → Option (Encoder × List (List ℕ))
encode_queue zero frame waiting e = some (e, waiting)
encode_queue (suc left) frame [] e = do e ← encode_frame frame e; some (e, [])
encode_queue (suc left) frame (next ∷ waiting) e = do
  e ← encode_frame frame e
  e ← encode_byte hdlc_flag true e
  encode_queue left next waiting e

-- hdlc_encode_frames, with the values of TXDELAY, TXTAIL and MAXFRAME
unfoldable pub encode_frames :
    ℕ → ℕ → ℕ → List ℕ → List (List ℕ) → Encoder → Option (Encoder × List (List ℕ))
encode_frames txdelay txtail maxfr frame waiting e = do
  e ← encode_flags txdelay e
  r ← encode_queue maxfr frame waiting e
  finish r
  where
    finish : Encoder × List (List ℕ) → Option (Encoder × List (List ℕ))
    finish (e, rest) = do e ← encode_flags txtail e; some (e, rest)

-- An operation of the encoder between those on the buffers.
abbrev pub encoding : Option Encoder → Cmd Encoder
encoding none = λ _. stuck
encoding (some e) = pure e

-- `while (!BUFFER_EMPTY)` over the buffer, with `n` rounds at most: the checksum is formed and the
-- bytes are encoded as they are read. Where the last slot of the chain is empty it never ends.
unfoldable pub encode_buffer : ℕ → ℕ → Fbuf → Encoder → Cmd (ℕ × Encoder)
encode_buffer zero crc b e = λ _. stuck
encode_buffer (suc n) crc b e =
    if b.rslot == nil
    then pure (crc, e)
    else Run.◌>>=◌ (get_char b) λ (txbyte, b).
      Run.◌>>=◌ (encoding (encode_byte txbyte false e))
        (encode_buffer n (crc_ccitt_update crc txbyte) b)

-- One frame of hdlc_encode_frames, from its buffer: the bytes and then the check sequence. What
-- happens to the buffer afterwards is left out.
unfoldable pub send_buffer : ℕ → Fbuf → Encoder → Cmd Encoder
unfolding encode_buffer
send_buffer n b e =
    Run.◌>>=◌ (encode_buffer n 0xFFFF (reset b) e) λ (crc, e). encoding (encode_bytes (fcs crc) e)
