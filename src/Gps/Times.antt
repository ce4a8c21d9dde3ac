-- ===== src/Gps/Times.antt =====
-- gps.c: times and dates as text.
use arctic_tracker_teensy.Base.{
  ℕ, ◌/◌, ◌%◌, none, some, List, [], ◌∷◌, ◌++◌, ltb, get_elem?, if◌then◌else◌,
}
use arctic_tracker_teensy.Printf.{decimal, padded}
use arctic_tracker_teensy.Gps.{Date}

unfoldable pub hour_of : ℕ → ℕ
hour_of time = (time / 3600) % 24

unfoldable pub minute_of : ℕ → ℕ
minute_of time = (time / 60) % 60

unfoldable pub second_of : ℕ → ℕ
second_of time = time % 60

-- time2str
unfoldable pub time2str : ℕ → List ℕ
time2str time =
    padded 2 (hour_of time) ++ (58 ∷ padded 2 (minute_of time) ++ (58 ∷ padded 2 (second_of time)))

-- `%4hu`
unfoldable pub wide_four : ℕ → List ℕ
wide_four n =
    if ltb n 10
    then 32 ∷ 32 ∷ 32 ∷ decimal n
    else if ltb n 100
    then 32 ∷ 32 ∷ decimal n
    else if ltb n 1000
    then 32 ∷ decimal n
    else decimal n

-- date2str
unfoldable pub date2str : Date → List ℕ
date2str date = padded 2 date.day ++ (45 ∷ padded 2 date.month ++ (45 ∷ wide_four date.year))

-- The names in datetime2str, from month 0 on.
abbrev month_names : List (List ℕ)
month_names =
    (63 ∷ 63 ∷ 63 ∷ [])
    ∷ (74 ∷ 97 ∷ 110 ∷ [])
    ∷ (70 ∷ 101 ∷ 98 ∷ [])
    ∷ (77 ∷ 97 ∷ 114 ∷ [])
    ∷ (65 ∷ 112 ∷ 114 ∷ [])
    ∷ (77 ∷ 97 ∷ 121 ∷ [])
    ∷ (74 ∷ 117 ∷ 110 ∷ [])
    ∷ (74 ∷ 117 ∷ 108 ∷ [])
    ∷ (65 ∷ 117 ∷ 103 ∷ [])
    ∷ (83 ∷ 101 ∷ 112 ∷ [])
    ∷ (79 ∷ 99 ∷ 116 ∷ [])
    ∷ (78 ∷ 111 ∷ 118 ∷ [])
    ∷ (68 ∷ 101 ∷ 99 ∷ [])
    ∷ []

unfoldable pub month_name : ℕ → List ℕ
month_name m = elim (get_elem? month_names m) [ none ↦ 63 ∷ 63 ∷ 63 ∷ [] | some name ↦ name ]

-- datetime2str
unfoldable pub datetime2str : Date → ℕ → List ℕ
datetime2str d time =
    month_name d.month
    ++ (32 ∷ padded 2 d.day
        ++ (32 ∷ padded 2 (hour_of time)
            ++ (58 ∷ padded 2 (minute_of time) ++ (32 ∷ 85 ∷ 84 ∷ 67 ∷ []))))
