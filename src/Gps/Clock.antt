-- ===== src/Gps/Clock.antt =====
-- Dates and times as text, and the timestamp of a sentence.
use arctic_tracker_teensy.Base.{
  ℕ, ◌+◌, ◌-◌, ◌*◌, ◌/◌, ◌%◌, ◌≤◌, ◌<◌, ◌≡◌, refl, sym, ap, ap₂, ◌∙◌, List, [], ◌∷◌, ◌++◌, arith,
  length, append-nil, ge→ltb, lt→ltb,
}
use arctic_tracker_teensy.Printf.{padded, scan_two, decimal, decimal_loop}
use arctic_tracker_teensy.Printf.Digits.{padded_two, scan_two-padded_two}
use arctic_tracker_teensy.Gps.{Date, nmea2time}
use arctic_tracker_teensy.Gps.Times.{time2str, date2str, hour_of, minute_of, second_of, wide_four}

-- Three numbers of two digits, one behind the other: the time and the date fields of a sentence.
abbrev pub six_digits : ℕ → ℕ → ℕ → List ℕ
six_digits a b c = padded 2 a ++ (padded 2 b ++ padded 2 c)

scan_six :
    (a b c : ℕ)
    → a < 100
    → b < 100
    → c < 100
    → (scan_two (six_digits a b c) ≡ (a, padded 2 b ++ padded 2 c))
      × ((scan_two (padded 2 b ++ padded 2 c) ≡ (b, padded 2 c))
          × (scan_two (padded 2 c) ≡ (c, [])))
scan_six a b c la lb lc = (
  scan_two-padded_two a (padded 2 b ++ padded 2 c) la,
  (
    scan_two-padded_two b (padded 2 c) lb,
    ap scan_two (sym (append-nil (padded 2 c))) ∙ scan_two-padded_two c [] lc,
  ),
)

-- nmea2time gives the seconds since the first of the month, and the date in this century.
pub nmea2time-six_digits :
    (hour min sec day month year : ℕ)
    → hour < 24
    → min < 60
    → sec < 60
    → 0 < day
    → day < 32
    → month < 13
    → year < 100
    → nmea2time (six_digits hour min sec) (six_digits day month year) ≡ (
      sec + 60 * (min + 60 * (hour + 24 * (day - 1))),
      record { year = 2000 + year; month = month; day = day },
    )
unfolding nmea2time
nmea2time-six_digits hour min sec day month year lh lm ls some ld lmo ly =
    let (t1, (t2, t3)) = scan_six hour min sec (omega arith) (omega arith) (omega arith) in
    let (d1, (d2, d3)) = scan_six day month year (omega arith) (omega arith) (omega arith) in
    let day_byte : day % 256 ≡ day = omega arith in
    let month_byte : month % 256 ≡ month = omega arith in
    let full_year : (year + 2000) % 65536 ≡ 2000 + year = omega arith in
    let total = sec + 60 * (min + 60 * (hour + 24 * (day - 1))) in
    let value : ((day + 4294967295) * 86400 + hour * 3600 + min * 60 + sec) % 4294967296 ≡ total =
      omega arith in
    rw (t1, t2, t3, d1, d2, d3, day_byte, month_byte, full_year, value) refl

-- The hour, the minute and the second of a timestamp that nmea2time gave are those of the sentence.
pub time2str-nmea2time :
    (hour min sec day month year : ℕ)
    → hour < 24
    → min < 60
    → sec < 60
    → 0 < day
    → day < 32
    → month < 13
    → year < 100
    → time2str (nmea2time (six_digits hour min sec) (six_digits day month year)).0
      ≡ padded 2 hour ++ (58 ∷ padded 2 min ++ (58 ∷ padded 2 sec))
unfolding time2str hour_of minute_of second_of
time2str-nmea2time hour min sec day month year lh lm ls some ld lmo ly =
    rw (nmea2time-six_digits hour min sec day month year lh lm ls some ld lmo ly) (
      ap₂ (λ (x : ℕ) (y : List ℕ). padded 2 x ++ (58 ∷ y)) (omega arith)
        (ap₂ (λ (x y : ℕ). padded 2 x ++ (58 ∷ padded 2 y)) (omega arith) (omega arith)))

decimal_four : (n : ℕ) → 1000 ≤ n → n < 10000 → length (decimal n) ≡ 4
unfolding decimal decimal_loop
decimal_four n ge lt =
    rw
      (
        ge→ltb n 10 (omega arith),
        ge→ltb (n / 10) 10 (omega arith),
        ge→ltb (n / 10 / 10) 10 (omega arith),
        lt→ltb (n / 10 / 10 / 10) 10 (omega arith),
      )
      refl

-- date2str writes ten characters, and the NUL behind them, for a year of four digits.
pub length-date2str :
    (d : Date)
    → d.day < 100
    → d.month < 100
    → 1000 ≤ d.year
    → d.year < 10000
    → length (date2str d) ≡ 10
unfolding date2str wide_four
length-date2str d ld lm ge lt =
    rw
      (
        padded_two d.day ld,
        padded_two d.month lm,
        ge→ltb d.year 10 (omega arith),
        ge→ltb d.year 100 (omega arith),
        ge→ltb d.year 1000 ge,
        decimal_four d.year ge lt,
      )
      refl
