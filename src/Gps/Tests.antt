-- ===== src/Gps/Tests.antt =====
-- Sentences, with natural numbers for the floating point ones.
use arctic_tracker_teensy.Base.{
  ℕ, ◌-◌, ◌+◌, ◌*◌, ◌≡◌, Option, ltb, codes, refl, none, some, true, false, List, [], ◌∷◌, ◌++◌,
  arith, if◌then◌else◌,
}
use arctic_tracker_teensy.Floats.Naturals.{naturals}
use arctic_tracker_teensy.Config.{xor_all}
use arctic_tracker_teensy.Gps.{Date, PosData, Gps, sentence, nmea2time, do_rmc, token, first_char}
use arctic_tracker_teensy.Gps.Sentence.{IsBody, sentence-checksum}
use arctic_tracker_teensy.Gps.Lock.{AllInLock, do_lines, do_rmc-lock}

abbrev today : Date
today = record { year = 2026; month = 3; day = 24 }

-- The number of the hexadecimal digits at the start of a text.
abbrev digit : ℕ → Option ℕ
digit c =
    if ltb c 48
    then none
    else if ltb c 58
    then some (c - 48)
    else if ltb c 65
    then none
    else if ltb c 71
    then some (c - 55)
    else none

abbrev hex : List ℕ → Option ℕ
hex [] = none
hex (c ∷ []) = digit c
hex (c ∷ d ∷ cs) = elim (digit c) [
  | none ↦ none
  | some h ↦ elim (digit d) [ none ↦ some h | some l ↦ some (h * 16 + l) ]
]

-- "GP", with its checksum 17 behind the star.
abbrev gp : List ℕ
gp = 71 ∷ 80 ∷ []

gp-IsBody : IsBody gp
unfolding IsBody
gp-IsBody =
    ((λ e. omega arith), ((λ e. omega arith), ((λ e. omega arith), ((λ e. omega arith), tt))))

sentence-checksum_example :
    (sentence hex 0 (36 ∷ gp ++ (42 ∷ codes "17")) ≡ some (36 ∷ gp))
    × (sentence hex 0 (36 ∷ gp) ≡ some (36 ∷ gp))
unfolding xor_all
sentence-checksum_example = sentence-checksum hex 0 gp (codes "17") gp-IsBody (omega arith)

abbrev nowhere : PosData ℕ
nowhere = record { latitude = 0; longitude = 0; speed = 0; altitude = 0; course = 0; timestamp = 0 }

abbrev receiver : Gps ℕ
receiver = record {
  current_pos = nowhere;
  current_time = 0;
  current_date = today;
  monitor_pos = false;
  monitor_raw = false;
  is_fixed = true;
  signalled = false;
  lock_cnt = 0;
  altitude = 0;
}

-- The tokens of a sentence with and without a fix: those that do_rmc reads here.
abbrev fix : List (List ℕ)
fix = [] ∷ (49 ∷ 50 ∷ 51 ∷ 53 ∷ 49 ∷ 57 ∷ []) ∷ (65 ∷ []) ∷ []

abbrev no_fix : List (List ℕ)
no_fix = [] ∷ (49 ∷ 50 ∷ 51 ∷ 53 ∷ 49 ∷ 57 ∷ []) ∷ (86 ∷ []) ∷ []

abbrev four : List (List (List ℕ))
four = fix ∷ fix ∷ fix ∷ fix ∷ []

four-AllInLock : AllInLock four
unfolding AllInLock first_char token
four-AllInLock = (refl, (refl, (refl, (refl, tt))))

do_rmc-lock_example :
    let before = do_lines naturals four (do_rmc naturals 13 no_fix receiver) in
    let after = do_rmc naturals 13 fix before in
    ((before.is_fixed ≡ false) × (before.current_pos ≡ nowhere))
    × ((after.is_fixed ≡ true)
        × (after.current_pos.timestamp ≡ (nmea2time (token fix 1) (token fix 9)).0))
unfolding first_char token
do_rmc-lock_example =
    do_rmc-lock naturals no_fix fix four receiver (λ e. omega arith) four-AllInLock refl refl
