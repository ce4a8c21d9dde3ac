-- ===== src/Ax25/TextTests.antt =====
-- Addresses as text.
use arctic_tracker_teensy.Base.{◌≡◌, refl, false, [], ◌∷◌, arith}
use arctic_tracker_teensy.Printf.{toupper}
use arctic_tracker_teensy.Ax25.{Addr}
use arctic_tracker_teensy.Ax25.Text.{str2addr, addr2str}
use arctic_tracker_teensy.Ax25.Parse.{IsCall, IsPlain, AllPlain, reread, str2addr-addr2str}

-- "LA7-12", with the flag of a digipeater
abbrev station : Addr
station = record { callsign = 76 ∷ 65 ∷ 55 ∷ []; ssid = 12; flags = 128 }

station-IsPlain : IsPlain station
unfolding IsCall toupper
station-IsPlain = record {
  call = (
    (λ e. omega arith),
    (
      (λ e. omega arith),
      (
        refl,
        (
          (λ e. omega arith),
          ((λ e. omega arith), (refl, ((λ e. omega arith), ((λ e. omega arith), (refl, tt))))),
        ),
      ),
    ),
  );
  short = omega arith;
  four_bits = omega arith;
}

str2addr-addr2str_example : str2addr (addr2str station) false ≡ reread false station
str2addr-addr2str_example = str2addr-addr2str station false station-IsPlain

two-AllPlain : AllPlain (station ∷ station ∷ [])
unfolding AllPlain
two-AllPlain = (station-IsPlain, (station-IsPlain, tt))
