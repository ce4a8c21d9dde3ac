-- ===== src/Hdlc/LinkTests.antt =====
-- A frame through the encoder and the receiver, and the checksum of a frame in a buffer.
use arctic_tracker_teensy.Base.{ℕ, ◌+◌, ◌≡◌, ◌≢◌, refl, inr, true, false, [], ◌∷◌, arith}
use arctic_tracker_teensy.Run.Returns.{Returns}
use arctic_tracker_teensy.Crc.{crc_bytes, crc_ccitt_update}
use arctic_tracker_teensy.Fbuf.{Fbuf, reset}
use arctic_tracker_teensy.Fbuf.Buffer.{IsBuffer}
use arctic_tracker_teensy.Fbuf.Chain.{contents, bytes}
use arctic_tracker_teensy.Hdlc.{bits, bits_of}
use arctic_tracker_teensy.Hdlc.Encoder.{Encoder, fcs}
use arctic_tracker_teensy.Hdlc.Frames.{with_fcs}
use arctic_tracker_teensy.Hdlc.Stuffing.{AllBytes, run_after}
use arctic_tracker_teensy.Hdlc.Link.{Received, receive-encode_frames}
use arctic_tracker_teensy.Hdlc.Delivery.{crc_match}
use arctic_tracker_teensy.Hdlc.Accept.{crc_match-fcs}
use arctic_tracker_teensy.Run.{Slot, Pool, nil}

bytes_ok : AllBytes (1 ∷ 2 ∷ [])
unfolding AllBytes
bytes_ok = (omega arith, (omega arith, tt))

ends_ok : run_after 0 (bits_of (with_fcs (1 ∷ 2 ∷ []))) ≢ 5
unfolding run_after bits_of bits crc_bytes crc_ccitt_update
ends_ok = λ e. omega arith

receive-encode_frames_example :
    Received 4 2 1 (1 ∷ 2 ∷ []) (record { outbits = 0; outbyte = 0; out = [] })
receive-encode_frames_example =
    receive-encode_frames 1 0 1 0 (1 ∷ 2 ∷ []) (omega arith) (omega arith) bytes_ok (omega arith)
      ends_ok

-- The bytes 1 to 5 in one slot, of which the last two stand for a checksum.
abbrev five_bytes : ℕ → Slot
five_bytes = λ _. record { refcnt = 1; length = 5; next = nil; buf = λ i. i + 1 }

abbrev five_pool : Pool
five_pool = record { slot = five_bytes; free_slots = 0; has_handler = false }

abbrev five_chain : Fbuf
five_chain = record { head = 0; wslot = 0; rslot = 0; rpos = 0; length = 5 }

five_chain-IsBuffer : IsBuffer five_bytes five_chain []
unfolding contents bytes
five_chain-IsBuffer = record {
  links = (refl, omega arith, refl);
  distinct = (tt, tt);
  in_use = (omega arith, omega arith, tt);
  counted = refl;
  full = tt;
  last_used = inr (omega arith);
}

crc_match-fcs_example :
    Returns
      (λ out q.
        (((4 ∷ 5 ∷ [] ≡ fcs (crc_bytes 0xFFFF (1 ∷ 2 ∷ 3 ∷ []))) → out.0 ≡ true)
          × (out.0 ≡ true → 4 ∷ 5 ∷ [] ≡ fcs (crc_bytes 0xFFFF (1 ∷ 2 ∷ 3 ∷ []))))
        × (q ≡ five_pool))
      (crc_match five_chain 5 five_pool)
unfolding contents bytes reset
crc_match-fcs_example =
    crc_match-fcs five_pool five_chain [] (1 ∷ 2 ∷ 3 ∷ []) 4 5 five_chain-IsBuffer refl refl
      (omega arith) (λ e. omega arith) (omega arith) (omega arith)
