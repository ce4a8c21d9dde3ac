-- ===== src/Tracker/Tests.antt =====
-- A tracker with natural numbers for the floating point ones.
use arctic_tracker_teensy.Base.{ℕ, ◌≡◌, none, true, false, List, [], ◌∷◌, ◌++◌, arith, length, ltb}
use arctic_tracker_teensy.Floats.Naturals.{naturals}
use arctic_tracker_teensy.Ax25.{Addr, ftype_ui}
use arctic_tracker_teensy.Ax25.Bytes.{header_bytes}
use arctic_tracker_teensy.Fbuf.{write}
use arctic_tracker_teensy.Fbuf.Write.{until_nul}
use arctic_tracker_teensy.Fbuf.Queue.{init}
use arctic_tracker_teensy.Fbuf.Tests.{chain}
use arctic_tracker_teensy.Gps.{PosData}
use arctic_tracker_teensy.Tracker.{Params, State}
use arctic_tracker_teensy.Tracker.Positions.{PosBuf}
use arctic_tracker_teensy.Tracker.Buffered.{IsPosBuf}
use arctic_tracker_teensy.Tracker.Packets.{path, pid_no_l3}
use arctic_tracker_teensy.Tracker.Reports.{object_name, object_packet}
use arctic_tracker_teensy.Tracker.Written.{object_body, object_packet-write}
use arctic_tracker_teensy.Tracker.Beacon.{course_change}
use arctic_tracker_teensy.Tracker.Pause.{
  angle, course_change-angle, updated, should_update-eventually,
}

-- Five numbers for positions, of which the next one drops the number 3.
abbrev five : PosBuf ℕ
five = record { n_pos = 5; next_pos = 3; pos_buf = λ i. i }

five-IsPosBuf : IsPosBuf five
five-IsPosBuf = record { fits = omega arith; inside = omega arith }

-- From 350 to 15 degrees are 25.
course_change-angle_example : course_change 15 350 20 ≡ ltb 20 (angle 15 350)
course_change-angle_example = course_change-angle 15 350 20 (omega arith) (omega arith)

abbrev somewhere : PosData ℕ
somewhere = record {
  latitude = 69;
  longitude = 18;
  speed = 0;
  altitude = 0;
  course = 0;
  timestamp = 1000;
}

abbrev nocall : Addr
nocall = record { callsign = 78 ∷ 79 ∷ []; ssid = 0; flags = 0 }

abbrev params : Params
params = record {
  mycall = nocall;
  dest = nocall;
  ndigis = 0;
  digis = [];
  symbol = 91;
  symbol_tab = 47;
  tracker_on = 1;
  turn_limit = 30;
  maxpause = 3;
  mindist = 100;
  minpause = 2;
  status_time = 30;
  timestamp_on = 1;
  compress_on = 1;
  altitude_on = 0;
  obj_symbol = 46;
  obj_symbol_table = 47;
  obj_id = 79 ∷ 66 ∷ [];
  report_comment = [];
  repeat_on = 0;
  extraturn_on = 0;
  igate_track_on = 0;
}

object_packet-write_example :
    (object_packet naturals params somewhere (object_name 1 (until_nul (79 ∷ 66 ∷ []))) true chain
      ≡ write chain (
          header_bytes nocall nocall (path params false) ftype_ui pid_no_l3
          ++ object_body naturals params somewhere 1 true))
    × (length (object_body naturals params somewhere 1 true) ≡ 31)
object_packet-write_example =
    object_packet-write naturals params somewhere 1 true chain (λ e. omega arith)

abbrev tracker : State ℕ
tracker = record {
  prev_pos = somewhere;
  prev_pos_gps = somewhere;
  course = 65535;
  prev_course = 65535;
  prev_gps_course = 65535;
  gate = none;
  outframes = init (λ _. chain) 16;
  maxpause_reached = false;
  pause_count = 1;
  waited = false;
  positions = record { n_pos = 0; next_pos = 0; pos_buf = λ _. somewhere };
  object_pos = λ _. somewhere;
  n_objects = 0;
  next_obj = 0;
  ccount = 0;
}

-- Two calls at a standstill.
abbrev still : List (PosData ℕ × (PosData ℕ × PosData ℕ))
still = (somewhere, (somewhere, somewhere)) ∷ (somewhere, (somewhere, somewhere)) ∷ []

should_update-eventually_example : updated naturals params still tracker ≡ true
should_update-eventually_example =
    should_update-eventually naturals params still tracker (omega arith) (omega arith) (omega arith)
