-- ===== src/Ax25/Overrun.antt =====
-- ax25_decode_header on a path of seven addresses of which none is marked as the last.
use arctic_tracker_teensy.Base.{ℕ, suc, ◌+◌, ◌≡◌, false, List, [], ◌∷◌, ◌++◌, length, arith, bit_or}
use arctic_tracker_teensy.Ax25.{Addr, is_last, decode_digis, decode_path}
use arctic_tracker_teensy.Ax25.Bytes.{addr_bytes}
use arctic_tracker_teensy.Ax25.Decode.{
  Decodes, Decodes-then, Decodes-map, Decodes-pure, received, decode_addr-Decodes,
}
use arctic_tracker_teensy.Ax25.RoundTrip.{IsPath, unmarked_still, unmarked-byte}

-- Addresses one after the other, with the flags as they are.
unfoldable pub unmarked_bytes : List Addr → List ℕ
unmarked_bytes [] = []
unmarked_bytes (d ∷ ds) = addr_bytes d (bit_or d.flags 0) ++ unmarked_bytes ds

unfoldable pub unmarked_path : List Addr → List Addr
unmarked_path [] = []
unmarked_path (d ∷ ds) = received d (bit_or d.flags 0) ∷ unmarked_path ds

decode_digis-unmarked :
    (ds : List Addr) (i : ℕ)
    → IsPath ds
    → Decodes (decode_digis (length ds) i) (unmarked_bytes ds) (unmarked_path ds, i + length ds)
unfolding decode_digis unmarked_bytes unmarked_path IsPath
decode_digis-unmarked [] i path =
    let same : i + 0 ≡ i = omega arith in rw same (Decodes-pure ([], i))
decode_digis-unmarked (d ∷ ds) i (v, path) =
    let same : i + suc (length ds) ≡ i + 1 + length ds = omega arith in
    let rest = decode_digis-unmarked ds (i + 1) path in
    rw same (
      Decodes-then _ (decode_addr-Decodes d _ v.addr (unmarked-byte d v)) (
        rw (unmarked_still d v) (
          Decodes-map (λ (out : List Addr × ℕ). (received d (bit_or d.flags 0) ∷ out.0, out.1))
            rest)))

-- When none of seven digipeaters is marked as the last, ax25_decode_header stores all seven, and
-- returns eight as their number.
pub decode_path_overrun :
    (from : Addr) (ds : List Addr)
    → is_last from ≡ false
    → IsPath ds
    → length ds ≡ 7
    → Decodes (decode_path from) (unmarked_bytes ds) (unmarked_path ds, 8)
unfolding decode_path
decode_path_overrun from ds more path seven =
    let rest = decode_digis-unmarked ds 0 path in
    let rest' = rw seven at rest in
    rw (decode_path, more) (Decodes-map (λ (out : List Addr × ℕ). (out.0, out.1 + 1)) rest')
