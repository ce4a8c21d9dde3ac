-- ===== src/Tracker/Packets.antt =====
-- tracker.c, the parts of a packet: send_header, the timestamps, the position in both formats.
use arctic_tracker_teensy.Base.{
  ℕ, ◌+◌, ◌/◌, ◌%◌, Bool, true, false, not, ◌&&◌, List, [], ◌∷◌, ◌++◌, take, ltb, ◌==◌,
  if◌then◌else◌,
}
use arctic_tracker_teensy.Run.{Cmd, pure, ◌>>=◌}
use arctic_tracker_teensy.Fbuf.{Fbuf, put_char, put_str}
use arctic_tracker_teensy.Floats.{Floats}
use arctic_tracker_teensy.Printf.{padded}
use arctic_tracker_teensy.Ax25.{Addr, ftype_ui, encode_header}
use arctic_tracker_teensy.Ax25.Text.{str2addr}
use arctic_tracker_teensy.Gps.{PosData}
use arctic_tracker_teensy.Gps.Times.{hour_of, minute_of, second_of}
use arctic_tracker_teensy.Tracker.{Params}

-- PID_NO_L3
abbrev pub pid_no_l3 : ℕ
pid_no_l3 = 0xf0

-- ASCII_BASE
abbrev pub ascii_base : ℕ
ascii_base = 33

-- "TCPIP"
abbrev tcpip : List ℕ
tcpip = 84 ∷ 67 ∷ 80 ∷ 73 ∷ 80 ∷ []

-- The path in send_header. A count above seven makes ax25_encode_header leave the path out.
unfoldable pub path : Params → Bool → List Addr
path pr no_tx =
    if no_tx
    then str2addr tcpip false ∷ []
    else if ltb 7 pr.ndigis
    then []
    else take pr.ndigis pr.digis

-- send_header
unfoldable pub send_header : Params → Bool → Fbuf → Cmd Fbuf
send_header pr no_tx b = encode_header pr.mycall pr.dest (path pr no_tx) ftype_ui pid_no_l3 b

-- The string of send_timestamp, and the function
unfoldable pub timestamp : ℕ → List ℕ
timestamp t =
    padded 2 (hour_of t) ++ (padded 2 (minute_of t) ++ (padded 2 (second_of t) ++ (104 ∷ [])))

unfoldable pub send_timestamp : ℕ → Fbuf → Cmd Fbuf
send_timestamp t b = put_str b (timestamp t)

-- The string of send_timestamp_z, and the function
unfoldable pub timestamp_z : ℕ → List ℕ
timestamp_z t =
    padded 2 ((t / 86400) % 256 + 1)
    ++ (padded 2 (hour_of t) ++ (padded 2 (minute_of t) ++ (122 ∷ [])))

unfoldable pub send_timestamp_z : ℕ → Fbuf → Cmd Fbuf
send_timestamp_z t b = put_str b (timestamp_z t)

-- The string of send_timestamp_compressed, and the function
unfoldable pub timestamp_compressed : ℕ → List ℕ
timestamp_compressed t = (48 + hour_of t) ∷ (48 + minute_of t) ∷ (48 + second_of t) ∷ []

unfoldable pub send_timestamp_compressed : ℕ → Fbuf → Cmd Fbuf
send_timestamp_compressed t b = put_str b (timestamp_compressed t)

-- The four characters that send_latlong_compressed makes of `v`.
unfoldable pub base91 : ℕ → List ℕ
base91 v =
    (v / 753571 + ascii_base) % 256
    ∷ (v % 753571 / 8281 + ascii_base) % 256
    ∷ (v % 753571 % 8281 / 91 + ascii_base) % 256
    ∷ (v % 753571 % 8281 % 91 + ascii_base) % 256
    ∷ []

unfoldable pub put_base91 : ℕ → Fbuf → Cmd Fbuf
put_base91 v b = do
  b ← put_char b ((v / 753571 + ascii_base) % 256)
  let v = v % 753571
  b ← put_char b ((v / 8281 + ascii_base) % 256)
  let v = v % 8281
  b ← put_char b ((v / 91 + ascii_base) % 256)
  put_char b ((v % 91 + ascii_base) % 256)

module _ (fl : Floats) where
  -- send_latlong_compressed
  unfoldable pub send_latlong_compressed : fl.F → Bool → Fbuf → Cmd Fbuf
  send_latlong_compressed pos is_longitude b =
      put_base91
        (fl.to_uint 32 (
          if is_longitude
          then fl.mul (fl.number 190463) (fl.add (fl.number 180) pos)
          else fl.mul (fl.number 380926) (fl.sub (fl.number 90) pos)))
        b

  -- `pos->altitude >= 0 && GET_BYTE_PARAM(ALTITUDE_ON)`
  abbrev pub with_altitude : Params → PosData fl.F → Bool
  with_altitude pr pos = not (fl.lt pos.altitude (fl.number 0)) && not (pr.altitude_on == 0)

  -- FEET2M
  abbrev pub in_feet : fl.F → fl.F
  in_feet x = fl.mul x (fl.literal 32898 4)

  -- send_csT_compressed: the altitude, or the course and the speed
  unfoldable pub send_altitude : ℕ → Fbuf → Cmd Fbuf
  send_altitude alt b = do
    b ← put_char b ((alt / 91 + ascii_base) % 256)
    b ← put_char b ((alt % 91 + ascii_base) % 256)
    put_char b (0x10 + ascii_base)

  unfoldable pub send_course : PosData fl.F → Fbuf → Cmd Fbuf
  send_course pos b = do
    b ← put_char b ((pos.course / 4 + ascii_base) % 256)
    let speed = fl.log (fl.add pos.speed (fl.number 1))
    b ← put_char b ((fl.to_uint 8 (fl.div speed (fl.literal 76961 6)) + ascii_base) % 256)
    put_char b (0x18 + ascii_base)

  unfoldable pub send_cst_compressed : Params → PosData fl.F → Fbuf → Cmd Fbuf
  send_cst_compressed pr pos b =
      if with_altitude pr pos
      then send_altitude
          (fl.to_uint 32 (fl.div (fl.log (in_feet pos.altitude)) (fl.literal 1998 6))) b
      else send_course pos b

  -- A coordinate as degrees and minutes.
  unfoldable pub degrees : ℕ → fl.F → ℕ → List ℕ
  degrees width x hemisphere =
      let whole = fl.to_uint 32 x in
      padded width whole
      ++ (fl.minutes (fl.single (fl.mul (fl.single (fl.sub x (fl.number whole))) (fl.number 60)))
          ++ (hemisphere ∷ []))

  unfoldable pub latitude_text : PosData fl.F → List ℕ
  latitude_text pos =
      degrees 2 (fl.single (fl.fabs pos.latitude))
        (if fl.lt pos.latitude (fl.number 0) then 83 else 78)

  unfoldable pub longitude_text : PosData fl.F → List ℕ
  longitude_text pos =
      degrees 3 (fl.single (fl.fabs pos.longitude))
        (if fl.lt pos.longitude (fl.number 0) then 87 else 69)

  unfoldable pub course_text : PosData fl.F → List ℕ
  course_text pos = padded 3 pos.course ++ (47 ∷ fl.whole pos.speed)

  -- "/A=" and the altitude
  unfoldable pub altitude_text : PosData fl.F → List ℕ
  altitude_text pos = 47 ∷ 65 ∷ 61 ∷ padded 6 (fl.to_uint 16 (fl.round (in_feet pos.altitude)))

  -- The two formats of send_pos_report
  unfoldable pub send_compressed : Params → PosData fl.F → ℕ → ℕ → Fbuf → Cmd Fbuf
  send_compressed pr pos sym symtab b = do
    b ← put_char b symtab
    b ← send_latlong_compressed pos.latitude false b
    b ← send_latlong_compressed pos.longitude true b
    b ← put_char b sym
    send_cst_compressed pr pos b

  unfoldable pub send_text : Params → PosData fl.F → ℕ → ℕ → Bool → Fbuf → Cmd Fbuf
  send_text pr pos sym symtab simple b = do
    b ← put_str b (latitude_text pos)
    b ← put_char b symtab
    b ← put_str b (longitude_text pos)
    b ← put_char b sym
    if simple then pure b else (do
      b ← put_str b (course_text pos)
      if with_altitude pr pos then put_str b (altitude_text pos) else pure b)

  -- send_pos_report
  unfoldable pub send_pos_report : Params → PosData fl.F → ℕ → ℕ → Bool → Bool → Fbuf → Cmd Fbuf
  send_pos_report pr pos sym symtab compress simple b =
      if compress then send_compressed pr pos sym symtab b else send_text pr pos sym symtab simple b

  -- send_extra_report
  unfoldable pub send_extra_report : Params → PosData fl.F → ℕ → ℕ → Fbuf → Cmd Fbuf
  send_extra_report pr pos sym symtab b = do
    b ← send_timestamp_compressed pos.timestamp b
    send_pos_report pr pos sym symtab true true b
