-- ===== src/Hdlc/Tests.antt =====
-- Concrete runs of the encoder.
use arctic_tracker_teensy.Base.{◌≡◌, refl, false, some, [], ◌∷◌, arith}
use arctic_tracker_teensy.Hdlc.Encoder.{Encoder, shift_out, encode_loop, encode_byte}
use arctic_tracker_teensy.Hdlc.Stuffing.{AllBytes, IsEncoder}

abbrev at_start : Encoder
at_start = record { outbits = 0; outbyte = 0; out = [] }

at_start-IsEncoder : IsEncoder at_start
unfolding AllBytes
at_start-IsEncoder = record { partial = omega arith; shifted = omega arith; bytes = tt }

-- The register after a byte of ones, with its stuffed zero still to come.
abbrev in_ones : Encoder
in_ones = record { outbits = 3; outbyte = 124; out = 255 ∷ [] }

in_ones-IsEncoder : IsEncoder in_ones
unfolding AllBytes
in_ones-IsEncoder = record {
  partial = omega arith;
  shifted = omega arith;
  bytes = (omega arith, tt);
}

-- Eight ones go out with a zero after the first five.
ones_test :
    encode_byte 255 false at_start ≡ some (record { outbits = 1; outbyte = 119; out = 223 ∷ [] })
unfolding encode_byte encode_loop shift_out
ones_test = refl
