-- ===== src/Gps.antt =====
-- gps.c and gps.h: NMEA sentences, the position they give, and dates and times as text. A sentence
-- is split by tokenize of ui/text.c; sscanf of a hexadecimal number is a parameter, none where it
-- finds no number.
pub mod Times
pub mod Distance
pub mod Clock
pub mod Sentence
pub mod Lock
mod Tests
use arctic_tracker_teensy.Base.{
  ℕ, zero, suc, ◌+◌, ◌-◌, ◌*◌, ◌/◌, ◌%◌, Bool, true, false, ◌||◌, ◌&&◌, not, Option, none, some,
  List, [], ◌∷◌, ◌++◌, ltb, leb, ◌==◌, length, take, drop, bit_xor, get_elem?, if◌then◌else◌,
}
use mathlib.Core.Option
use arctic_tracker_teensy.Floats.{Floats}
use arctic_tracker_teensy.Printf.{decimal, padded, scan_two}
use arctic_tracker_teensy.Ax25.Text.{same_prefix}
use arctic_tracker_teensy.Text.{Scan, counted, overfull, outside, tokenize}

-- `date_t`
pub record Date : Type 0 where
  pub year : ℕ
  pub month : ℕ
  pub day : ℕ

-- `posdata_t`
pub record PosData (F : Type 0) : Type 0 where
  pub latitude : F
  pub longitude : F
  pub speed : F
  pub altitude : F
  pub course : ℕ
  pub timestamp : ℕ

-- The loop of nmeaListener over the characters behind the dollar, with `n` to go at most: the
-- checksum, the characters passed, and what is left.
unfoldable pub checksum_loop : ℕ → ℕ → List ℕ → ℕ × (List ℕ × List ℕ)
checksum_loop zero checksum buf = (checksum, ([], buf))
checksum_loop (suc n) checksum [] = (checksum, ([], []))
checksum_loop (suc n) checksum (c ∷ buf) =
    let (sum, (body, rest)) = checksum_loop n (bit_xor checksum c) buf in
    if c == 42 || c == 0 then (checksum, ([], c ∷ buf)) else (sum, (c ∷ body, rest))

-- `c_checksum`, which keeps the value `before`, as it stands on the stack, where sscanf finds no
-- number.
unfoldable pub c_checksum : ℕ → Option ℕ → ℕ
c_checksum before none = before
c_checksum before (some n) = n

module _ (scan_hex : List ℕ → Option ℕ) (before : ℕ) where
  -- What the checksum leaves of a sentence: the text up to the star, where there is one and
  -- `c_checksum` is the checksum, all of it where there is none.
  unfoldable pub checked : ℕ → List ℕ → List ℕ → Option (List ℕ)
  checked checksum body [] = some body
  checked checksum body (c ∷ rest) =
      if c == 42
      then (if c_checksum before (scan_hex rest) == checksum then some body else none)
      else some (body ++ (c ∷ rest))

  unfoldable pub verified : ℕ × (List ℕ × List ℕ) → Option (List ℕ)
  verified (sum, (body, rest)) = Option.map (◌∷◌ 36) (checked sum body rest)

  -- nmeaListener: the text of a line that is a sentence, which begins with the dollar
  unfoldable pub sentence : List ℕ → Option (List ℕ)
  sentence [] = none
  sentence (c ∷ buf) =
      let text = verified (checksum_loop 79 0 buf) in if c == 36 then text else none

-- nmea2time: the timestamp and the date
unfoldable pub nmea2time : List ℕ → List ℕ → ℕ × Date
nmea2time timestr datestr =
    let (hour, t1) = scan_two timestr in
    let (min, t2) = scan_two t1 in
    let (sec, t3) = scan_two t2 in
    let (day, d1) = scan_two datestr in
    let (month, d2) = scan_two d1 in
    let (year, d3) = scan_two d2 in
    (
      ((day % 256 + 4294967295) * 86400 + hour * 3600 + min * 60 + sec) % 4294967296,
      record { year = (year + 2000) % 65536; month = month % 256; day = day % 256 },
    )

-- The variables of gps.c. `signalled` is the binary semaphore `wait_gps`.
pub record Gps (F : Type 0) : Type 0 where
  pub current_pos : PosData F
  pub current_time : ℕ
  pub current_date : Date
  pub monitor_pos : Bool
  pub monitor_raw : Bool
  pub is_fixed : Bool
  pub signalled : Bool
  pub lock_cnt : ℕ
  pub altitude : F

module _ {F : Type 0} where
  -- gps_mon_pos, gps_mon_raw and gps_mon_off
  unfoldable pub gps_mon_pos : Gps F → Gps F
  gps_mon_pos g = record g { monitor_pos = true }

  unfoldable pub gps_mon_raw : Gps F → Gps F
  gps_mon_raw g = record g { monitor_raw = true }

  unfoldable pub gps_mon_off : Gps F → Gps F
  gps_mon_off g = record g { monitor_pos = false; monitor_raw = false }

  -- notify_fix: the LEDs are left out.
  unfoldable pub notify_fix : Bool → Gps F → Gps F
  notify_fix lock g = record g {
    is_fixed = lock;
    signalled = if lock && not g.is_fixed then true else g.signalled;
  }

  -- gps_on
  unfoldable pub gps_on : Gps F → Gps F
  gps_on g = notify_fix false g

  -- gps_is_fixed, with the value of TRACKER_ON
  unfoldable pub gps_is_fixed : ℕ → Gps F → Bool
  gps_is_fixed tracker_on g = g.is_fixed && not (tracker_on == 0)

-- Token `i`, and its first character.
unfoldable pub token : List (List ℕ) → ℕ → List ℕ
token argv i = elim (get_elem? argv i) [ none ↦ [] | some t ↦ t ]

unfoldable pub first_char : List ℕ → ℕ
first_char [] = 0
first_char (c ∷ cs) = c

module _ (fl : Floats) where
  -- str2coord, of a string of at least `ndeg` characters
  unfoldable pub str2coord : ℕ → List ℕ → fl.F
  str2coord ndeg str = fl.single (
      fl.add (fl.scan (take ndeg str))
        (fl.single (fl.div (fl.scan (drop ndeg str)) (fl.number 60))))

  -- The course field: the sum is cut to an integer again.
  unfoldable pub course_field : List ℕ → ℕ
  course_field [] = 0
  course_field (c ∷ str) =
      fl.to_uint 16 (fl.add (fl.number (fl.to_uint 16 (fl.scan (c ∷ str)))) (fl.literal 5 1))

  unfoldable pub speed_field : List ℕ → fl.F
  speed_field [] = fl.number 0
  speed_field (c ∷ str) = fl.scan (c ∷ str)

  unfoldable pub signed_coord : ℕ → ℕ → List ℕ → List ℕ → fl.F
  signed_coord ndeg minus str hemisphere =
      if first_char hemisphere == minus then fl.neg (str2coord ndeg str) else str2coord ndeg str

  -- The part of do_rmc that takes the position over.
  unfoldable pub take_position : List (List ℕ) → Gps fl.F → Gps fl.F
  take_position argv g = record g {
    current_pos = record {
      timestamp = g.current_time;
      latitude = signed_coord 2 83 (token argv 3) (token argv 4);
      longitude = signed_coord 3 87 (token argv 5) (token argv 6);
      speed = speed_field (token argv 7);
      course = course_field (token argv 8);
      altitude = g.altitude;
    };
  }

  unfoldable pub set_time : ℕ × Date → Gps fl.F → Gps fl.F
  set_time (time, date) g = record g { current_time = time; current_date = date }

  -- The part of do_rmc below the timestamp.
  unfoldable pub lock_step : List (List ℕ) → Gps fl.F → Gps fl.F
  lock_step argv g =
      if not (first_char (token argv 2) == 65)
      then record (notify_fix false g) { lock_cnt = 4 }
      else if ltb 0 g.lock_cnt
      then record g { lock_cnt = g.lock_cnt - 1 }
      else take_position argv (notify_fix true (record g { lock_cnt = 1 }))

  -- do_rmc: what goes to the screen is left out.
  unfoldable pub do_rmc : ℕ → List (List ℕ) → Gps fl.F → Gps fl.F
  do_rmc argc argv g =
      if not (argc == 13)
      then g
      else lock_step argv (set_time (nmea2time (token argv 1) (token argv 9)) g)

  -- do_gga
  unfoldable pub do_gga : ℕ → List (List ℕ) → Gps fl.F → Gps fl.F
  do_gga argc argv g = record g {
    altitude =
        if argc == 15 && ltb 48 (first_char (token argv 6))
        then fl.scan (token argv 9)
        else fl.neg (fl.number 1);
  }

  -- The selection of the handler in nmeaListener.
  unfoldable pub dispatch : ℕ → List (List ℕ) → Gps fl.F → Gps fl.F
  dispatch argc argv g =
      let name = drop 3 (token argv 0) in
      if same_prefix 3 (82 ∷ 77 ∷ 67 ∷ []) name
      then do_rmc argc argv g
      else if same_prefix 3 (71 ∷ 71 ∷ 65 ∷ []) name
      then do_gga argc argv g
      else g

  -- The part of nmeaListener below the checksum; none where tokenize leaves its buffers.
  unfoldable pub listen : Scan → Gps fl.F → Option (Gps fl.F)
  listen (counted argv) g = some (dispatch (length argv % 256) argv g)
  listen (overfull argv) g = some (dispatch (suc (length argv) % 256) argv g)
  listen outside g = none

  -- A round of nmeaListener, with the line that readline gave.
  unfoldable pub nmea_listener : (List ℕ → Option ℕ) → ℕ → List ℕ → Gps fl.F → Option (Gps fl.F)
  nmea_listener scan_hex before buf g = elim (sentence scan_hex before buf) [
    | none ↦ some g
    | some line ↦ listen (tokenize line 16 (44 ∷ []) false) g
  ]
