-- ===== src/Hdlc/Decoder.antt =====
-- hdlc_decoder.c: bits and flags from the bytes of the demodulator, and frames from those. The
-- input queue is the list of the bytes that are still to come: where it is empty the thread waits.
use arctic_tracker_teensy.Base.{
  ℕ, zero, suc, ◌+◌, ◌*◌, ◌/◌, ◌%◌, ◌^◌, Option, none, some, List, [], ◌∷◌, ◌++◌, bit_or, ltb, ◌==◌,
  if◌then◌else◌,
}
use arctic_tracker_teensy.Hdlc.{hdlc_flag, max_hdlc_frame_size}

-- The static variables of get_bit, and the input queue.
pub record Window : Type 0 where
  pub bits : ℕ
  pub bit_count : ℕ
  pub inq : List ℕ

-- `bits |= (uint16_t) byte << bit_count; bit_count += 8`
abbrev pub take_byte : ℕ → List ℕ → Window → Window
take_byte byte rest w = record {
  bits = bit_or w.bits (byte * 2 ^ w.bit_count % 65536);
  bit_count = (w.bit_count + 8) % 256;
  inq = rest;
}

-- iqGet, none where it waits
abbrev pub read_byte : List ℕ → Window → Option Window
read_byte [] w = none
read_byte (byte ∷ rest) w = some (take_byte byte rest w)

-- The part of get_bit that reads the queue.
unfoldable pub fill : Window → Option Window
fill w = if ltb w.bit_count 8 then read_byte w.inq w else some w

-- The part of get_bit that takes a flag or a bit.
unfoldable pub token : Window → ℕ × Window
token w =
    if w.bits % 256 == hdlc_flag
    then (hdlc_flag, record w { bits = w.bits / 256; bit_count = (w.bit_count + 248) % 256 })
    else (w.bits % 2, record w { bits = w.bits / 2; bit_count = (w.bit_count + 255) % 256 })

-- How the receiver goes on: with a value, at one of the labels flag_sync and frame_sync, or not
-- before there is more input.
pub data Rx (A : Type 0) : Type 0 where
  done : A → Rx A
  flag_sync : Window → Rx A
  frame_sync : Window → Rx A
  waits : Rx A

infixl 5 ◌>>=◌
abbrev pub ◌>>=◌ : {A C : Type 0} → Rx A → (A → Rx C) → Rx C
done a >>= f = f a
flag_sync w >>= f = flag_sync w
frame_sync w >>= f = frame_sync w
waits >>= f = waits

abbrev pub filled : Option Window → Rx (ℕ × Window)
filled none = waits
filled (some w) = done (token w)

-- get_bit
unfoldable pub get_bit : Window → Rx (ℕ × Window)
get_bit w = filled (fill w)

-- The loop variables of the receiver.
pub record Receiver : Type 0 where
  pub bit : ℕ
  pub octet : ℕ
  pub ones_count : ℕ
  pub window : Window

-- `octet = (bit ? 0x80 : 0x00) | (octet >> 1)`
abbrev pub push : ℕ → ℕ → ℕ
push bit octet = bit_or (if bit == 0 then 0 else 0x80) (octet / 2)

-- The rest of a round, with the next token: after five ones it must be a zero, which is skipped.
unfoldable pub unstuff : ℕ → ℕ → ℕ × Window → Rx Receiver
unstuff octet ones (bit, w) =
    if ones == 5
    then (if bit == 0
        then (do
          (bit, w) ← get_bit w
          done (record { bit = bit; octet = octet; ones_count = 0; window = w }))
        else flag_sync w)
    else done (record { bit = bit; octet = octet; ones_count = ones; window = w })

-- A round of the loop over the bits of an octet.
unfoldable pub receive_bit : Receiver → Rx Receiver
receive_bit r =
    let ones = if r.bit == 0 then 0 else (r.ones_count + 1) % 256 in
    if r.bit == hdlc_flag
    then frame_sync r.window
    else get_bit r.window >>= unstuff (push r.bit r.octet) ones

-- `n` rounds
unfoldable pub receive_bits : ℕ → Receiver → Rx Receiver
receive_bits zero r = done r
receive_bits (suc n) r = receive_bit r >>= receive_bits n

-- The loop over the octets of a frame, with `length` octets received, `octets` the bytes put into
-- the buffer, and `n` rounds to go: the bytes and the window after the flag.
unfoldable pub receive_octets : ℕ → ℕ → List ℕ → Receiver → Rx (List ℕ × Window)
receive_octets zero length octets r = waits
receive_octets (suc n) length octets r =
    if ltb max_hdlc_frame_size length
    then flag_sync r.window
    else receive_bits 8 r >>= λ r.
        if r.bit == hdlc_flag
        then done (octets ++ (r.octet ∷ []), r.window)
        else receive_octets n (length + 1) (octets ++ (r.octet ∷ [])) r

-- The loop at frame_sync, which skips flags: the first bit of the frame.
unfoldable pub skip_flags : ℕ → Window → Rx (ℕ × Window)
skip_flags zero w = waits
skip_flags (suc n) w = do
  (bit, w) ← get_bit w
  if bit == hdlc_flag then skip_flags n w else done (bit, w)

-- The loop at flag_sync, which skips all up to a flag.
unfoldable pub find_flag : ℕ → Window → Rx Window
find_flag zero w = waits
find_flag (suc n) w = do (bit, w) ← get_bit w; if bit == hdlc_flag then done w else find_flag n w

-- The receiver from frame_sync to the end of a frame, with fuel for each loop. A frame cannot have
-- more than 290 octets.
unfoldable pub receive_frame : ℕ → Window → Rx (List ℕ × Window)
receive_frame n w = do
  (bit, w) ← skip_flags n w
  receive_octets 291 0 [] (record { bit = bit; octet = 0; ones_count = 0; window = w })

-- The receiver from flag_sync on.
unfoldable pub receive : ℕ → Window → Rx (List ℕ × Window)
receive n w = find_flag n w >>= receive_frame n
