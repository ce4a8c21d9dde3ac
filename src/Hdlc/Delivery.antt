-- ===== src/Hdlc/Delivery.antt =====
-- hdlc_decoder.c, the end of the receiver: the checksum of a frame and its subscribers.
use arctic_tracker_teensy.Base.{
  ℕ, ◌+◌, ◌-◌, ◌*◌, ◌%◌, Bool, Option, none, some, List, length, ltb, ◌==◌, bit_or, bit_xor,
  if◌then◌else◌,
}
use arctic_tracker_teensy.Run.{Cmd, pure, ◌>>=◌, update}
use arctic_tracker_teensy.Crc.{crc_bytes}
use arctic_tracker_teensy.Fbuf.{Fbuf, new, release, write, new_ref, rseek, get_char, get_chars}
use arctic_tracker_teensy.Fbuf.Join.{remove_last}
use arctic_tracker_teensy.Fbuf.Queue.{Fbq, put, clear}

-- The complement of the two bytes of a checksum, the low byte first.
unfoldable pub received_crc : ℕ → ℕ → ℕ
received_crc lo hi = bit_or (bit_xor lo 0xFF) (bit_xor hi 0xFF * 256)

-- crc_match, which takes the length as a byte
unfoldable pub crc_match : Fbuf → ℕ → Cmd (Bool × Fbuf)
crc_match b length = do
  (cs, b) ← get_chars (length - 2) b
  b ← rseek b ((length + 65534) % 65536)
  (lo, b) ← get_char b
  (hi, b) ← get_char b
  pure (crc_bytes 0xFFFF cs == received_crc lo hi, b)

-- `if (mqueue[i]) fbq_put(mqueue[i], ...)`, of the buffer or of a new reference to it
unfoldable pub put_first : Option Fbq → Fbuf → Cmd (Option Fbq)
put_first none b = pure none
put_first (some q) b = do q ← put q b; pure (some q)

unfoldable pub put_ref : Option Fbq → Fbuf → Cmd (Option Fbq)
put_ref none b = pure none
put_ref (some q) b = do r ← new_ref b; q ← put q r; pure (some q)

unfoldable pub release_unused : Option Fbq → Fbuf → Cmd Fbuf
release_unused none b = release b
release_unused (some q) b = pure b

-- The delivery of a frame to `mqueue`: the buffer for the next frame, and the queues.
unfoldable pub deliver : Fbuf → (ℕ → Option Fbq) → Cmd (Fbuf × (ℕ → Option Fbq))
deliver b mqueue = do
  b ← remove_last b
  b ← remove_last b
  q0 ← put_first (mqueue 0) b
  q1 ← put_ref (mqueue 1) b
  q2 ← put_ref (mqueue 2) b
  _ ← release_unused q0 b
  b ← new
  pure (b, update (update (update mqueue 0 q0) 1 q1) 2 q2)

unfoldable pub deliver_if : Bool → Fbuf → (ℕ → Option Fbq) → Cmd (Fbuf × (ℕ → Option Fbq))
deliver_if matched b mqueue = if matched then deliver b mqueue else pure (b, mqueue)

-- The part of hdlc_rxdecoder behind the loop over a frame of `length` octets.
unfoldable pub end_frame : Fbuf → ℕ → (ℕ → Option Fbq) → Cmd (Fbuf × (ℕ → Option Fbq))
end_frame b length mqueue =
    if ltb 18 length
    then (do (matched, b) ← crc_match b (length % 256); deliver_if matched b mqueue)
    else pure (b, mqueue)

-- What hdlc_rxdecoder does with the octets of a frame, from the buffer of the previous one on.
unfoldable pub take_frame : Fbuf → List ℕ → (ℕ → Option Fbq) → Cmd (Fbuf × (ℕ → Option Fbq))
take_frame b octets mqueue = do
  _ ← release b
  b ← new
  b ← write b octets
  end_frame b (length octets) mqueue

unfoldable pub clear_if : Option Fbq → Cmd (Option Fbq)
clear_if none = pure none
clear_if (some q) = do q ← clear q; pure (some q)

-- hdlc_subscribe_rx: the queues, and what is left of the one that was subscribed before
unfoldable pub subscribe_rx :
    Option Fbq → ℕ → (ℕ → Option Fbq) → Cmd (Option Fbq × (ℕ → Option Fbq))
subscribe_rx q i mqueue =
    if ltb 2 i
    then pure (none, mqueue)
    else (do old ← clear_if (mqueue i); pure (old, update mqueue i q))
