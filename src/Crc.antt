-- ===== src/Crc.antt =====
-- What _crc_ccitt_update of util/crc16.h computes, a copy of a library's file that the code calls, on
-- 16-bit sums and bytes as natural numbers; and the sum over a list of bytes.
use arctic_tracker_teensy.Base.{ℕ, ◌*◌, ◌/◌, ◌%◌, List, [], ◌∷◌, bit_and, bit_or, bit_xor}

-- `data ^= (crc & 255); data ^= data << 4` on a byte
abbrev ccitt_mix : ℕ → ℕ → ℕ
ccitt_mix crc byte = let d = bit_xor byte (bit_and crc 255) in bit_xor d (d * 16 % 256)

-- _crc_ccitt_update
unfoldable pub crc_ccitt_update : ℕ → ℕ → ℕ
crc_ccitt_update crc byte =
    let d = ccitt_mix crc byte in
    bit_xor (bit_xor (bit_or (d * 256) (crc / 256)) (d / 16)) (d * 8) % 65536

-- The sum over a list of bytes, as the loop of crc_match forms it.
unfoldable pub crc_bytes : ℕ → List ℕ → ℕ
crc_bytes crc [] = crc
crc_bytes crc (b ∷ bs) = crc_bytes (crc_ccitt_update crc b) bs
