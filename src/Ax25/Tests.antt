-- ===== src/Ax25/Tests.antt =====
-- A frame from LA7ECA to APRS by WIDE1-1, and a path without an end.
use arctic_tracker_teensy.Base.{
  ℕ, ◌<◌, ◌≡◌, refl, inl, Bool, true, false, ◌&&◌, ltb, ltb→lt, List, [], ◌∷◌, arith,
}
use arctic_tracker_teensy.Run.{Slot, Pool, nil, ◌>>=◌, update}
use arctic_tracker_teensy.Run.Returns.{Returns}
use arctic_tracker_teensy.Fbuf.{Fbuf, reset, write}
use arctic_tracker_teensy.Fbuf.Chain.{contents, bytes}
use arctic_tracker_teensy.Fbuf.Count.{IsPool, free_count}
use arctic_tracker_teensy.Fbuf.Buffer.{IsBuffer, room}
use arctic_tracker_teensy.Fbuf.Read.{ToRead}
use arctic_tracker_teensy.Ax25.{Addr, ftype_ui, encode_header, decode_header}
use arctic_tracker_teensy.Ax25.Bytes.{IsAddr, IsChar, AllChars, callsign_bytes, digis_bytes}
use arctic_tracker_teensy.Ax25.Wire.{AllShort, wire_header, encode_header-wire}
use arctic_tracker_teensy.Ax25.RoundTrip.{IsDigi, IsPath, received_header}
use arctic_tracker_teensy.Ax25.Frame.{write_frame, decode_header-encode_header}

abbrev from : Addr
from = record { callsign = 76 ∷ 65 ∷ 55 ∷ 69 ∷ 67 ∷ 65 ∷ []; ssid = 0; flags = 0 }

abbrev to : Addr
to = record { callsign = 65 ∷ 80 ∷ 82 ∷ 83 ∷ []; ssid = 0; flags = 0 }

abbrev wide : Addr
wide = record { callsign = 87 ∷ 73 ∷ 68 ∷ 69 ∷ 49 ∷ []; ssid = 1; flags = 0 }

-- A letter or a digit.
is_char : (x : ℕ) → 32 < x → x < 128 → IsChar x
is_char x p q = record { ascii = q; used = λ e. omega arith; no_space = λ e. omega arith }

both : (a b : Bool) → a && b ≡ true → (a ≡ true) × (b ≡ true)
both true b t = (refl, t)
both false b t = cc

-- Letters and digits, tested.
abbrev are_letters : List ℕ → Bool
are_letters [] = true
are_letters (x ∷ c) = ltb 32 x && (ltb x 128 && are_letters c)

letters : (c : List ℕ) → are_letters c ≡ true → AllChars c
unfolding AllChars
letters [] t = tt
letters (x ∷ c) t =
    let (p, q) = both (ltb 32 x) _ t in
    let (q', r) = both (ltb x 128) _ q in (is_char x (ltb→lt 32 x p) (ltb→lt x 128 q'), letters c r)

from-IsAddr : IsAddr from
from-IsAddr = record {
  short = omega arith;
  chars = letters _ refl;
  four_bits = omega arith;
  byte = omega arith;
}

to-IsAddr : IsAddr to
to-IsAddr = record {
  short = omega arith;
  chars = letters _ refl;
  four_bits = omega arith;
  byte = omega arith;
}

wide-IsDigi : IsDigi wide
wide-IsDigi = record {
  addr = record {
    short = omega arith;
    chars = letters _ refl;
    four_bits = omega arith;
    byte = omega arith;
  };
  unmarked = refl;
}

wide-IsPath : IsPath (wide ∷ [])
unfolding IsPath
wide-IsPath = (wide-IsDigi, tt)

-- The pool after one fbuf_new.
abbrev one_slot : ℕ → Slot
one_slot =
    update (λ _. record { refcnt = 0; length = 0; next = 0; buf = λ _. 0 }) 0
      (record { refcnt = 1; length = 0; next = nil; buf = λ _. 0 })

abbrev pool : Pool
pool = record { slot = one_slot; free_slots = 899; has_handler = false }

abbrev empty : Fbuf
empty = record { head = 0; wslot = 0; rslot = 0; rpos = 0; length = 0 }

pool-IsPool : IsPool pool
unfolding free_count update
pool-IsPool = record { counted = refl }

empty-IsBuffer : IsBuffer one_slot empty []
unfolding update contents bytes
empty-IsBuffer = record {
  links = (refl, omega arith, refl);
  distinct = (tt, tt);
  in_use = (omega arith, omega arith, tt);
  counted = refl;
  full = tt;
  last_used = inl refl;
}

no_contents : contents one_slot (0 ∷ []) ≡ []
unfolding update contents bytes
no_contents = refl

decode_header-encode_header_example :
    Returns
      (λ out q.
        (out.0 ≡ received_header from to (wide ∷ []) ftype_ui 240)
        × ToRead q.slot out.1 (33 ∷ 34 ∷ []))
      ((write_frame from to (wide ∷ []) ftype_ui 240 (33 ∷ 34 ∷ []) empty >>= λ b'.
          decode_header (reset b'))
        pool)
unfolding room free_count update callsign_bytes digis_bytes
decode_header-encode_header_example =
    decode_header-encode_header from to (wide ∷ []) ftype_ui 240 from-IsAddr to-IsAddr wide-IsPath
      (omega arith) refl (33 ∷ 34 ∷ []) pool empty [] empty-IsBuffer no_contents pool-IsPool
      (omega arith) (omega arith)

encode_header-wire_example :
    encode_header from to (wide ∷ []) ftype_ui 240 empty
    ≡ write empty (wire_header from to (wide ∷ []) ftype_ui 240)
unfolding AllShort
encode_header-wire_example =
    encode_header-wire from to (wide ∷ []) ftype_ui 240 empty (omega arith) (omega arith)
      ((omega arith, omega arith), tt)

abbrev seven : List Addr
seven = wide ∷ wide ∷ wide ∷ wide ∷ wide ∷ wide ∷ wide ∷ []

seven-IsPath : IsPath seven
unfolding IsPath
seven-IsPath = (
  wide-IsDigi,
  (wide-IsDigi, (wide-IsDigi, (wide-IsDigi, (wide-IsDigi, (wide-IsDigi, (wide-IsDigi, tt)))))),
)
