-- ===== src/Hdlc.antt =====
-- hdlc.h, and the bit stream that hdlc_encoder.c and hdlc_decoder.c have in common.
pub mod Encoder
pub mod Stuffing
pub mod Shifted
pub mod Sending
pub mod Frames
pub mod Decoder
pub mod Window
pub mod GetBit
pub mod Unstuffing
pub mod Receiving
pub mod Octets
pub mod Buffered
pub mod Start
pub mod Link
pub mod Delivery
pub mod Match
pub mod Accept
mod Tests
mod LinkTests
use arctic_tracker_teensy.Base.{ℕ, zero, suc, ◌/◌, ◌%◌, List, [], ◌∷◌, ◌++◌, ◌==◌, if◌then◌else◌}

-- HDLC_FLAG
abbrev pub hdlc_flag : ℕ
hdlc_flag = 0x7E

-- MAX_HDLC_FRAME_SIZE
abbrev pub max_hdlc_frame_size : ℕ
max_hdlc_frame_size = 289

-- The lowest `n` bits of a number, lowest first, the order in which bits are sent.
unfoldable pub bits : ℕ → ℕ → List ℕ
bits zero v = []
bits (suc n) v = (v % 2) ∷ bits n (v / 2)

-- The bits of bytes that are sent one after the other.
unfoldable pub bits_of : List ℕ → List ℕ
bits_of [] = []
bits_of (b ∷ bs) = bits 8 b ++ bits_of bs
