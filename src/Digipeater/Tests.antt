-- ===== src/Digipeater/Tests.antt =====
-- Paths with WIDE1-1, under a comparison of prefixes for strncasecmp.
use arctic_tracker_teensy.Base.{ℕ, zero, suc, ◌≡◌, refl, true, List, [], ◌∷◌, ◌==◌, if◌then◌else◌}
use arctic_tracker_teensy.Ax25.{Addr}
use arctic_tracker_teensy.Digipeater.{
  flag_digi, alias, wide1, used, unused, without_sar, renewed, overrun, written, new_path,
}
use arctic_tracker_teensy.Digipeater.Path.{Repeated, new_path-front}

-- Zero where the first `n` characters agree.
abbrev compare_prefix : List ℕ → List ℕ → ℕ → ℕ
compare_prefix xs ys zero = 0
compare_prefix [] [] (suc n) = 0
compare_prefix [] (y ∷ ys) (suc n) = 1
compare_prefix (x ∷ xs) [] (suc n) = 1
compare_prefix (x ∷ xs) (y ∷ ys) (suc n) =
    let rest = compare_prefix xs ys n in if x == y then rest else 1

abbrev mycall : Addr
mycall = record { callsign = 76 ∷ 65 ∷ []; ssid = 5; flags = 0 }

abbrev wide : Addr
wide = record { callsign = wide1; ssid = 1; flags = 0 }

abbrev seen : Addr
seen = record { callsign = 76 ∷ 66 ∷ []; ssid = 2; flags = flag_digi }

abbrev own : Addr
own = record { callsign = 76 ∷ 65 ∷ []; ssid = 5; flags = flag_digi }

-- One used digipeater and then WIDE1-1.
repeat_test :
    new_path compare_prefix true true mycall (seen ∷ wide ∷ [])
    ≡ renewed (seen ∷ own ∷ alias wide1 ∷ [])
unfolding new_path written used unused without_sar
repeat_test = refl

new_path-front_example : Repeated own (seen ∷ wide ∷ []) (seen ∷ own ∷ alias wide1 ∷ [])
new_path-front_example =
    new_path-front compare_prefix true true mycall (seen ∷ wide ∷ [])
      (seen ∷ own ∷ alias wide1 ∷ []) repeat_test

-- Seven digipeaters, of which six have been used.
abbrev full : List Addr
full = seen ∷ seen ∷ seen ∷ seen ∷ seen ∷ seen ∷ wide ∷ []

full_test : new_path compare_prefix true true mycall full ≡ overrun
unfolding new_path written used unused without_sar
full_test = refl
