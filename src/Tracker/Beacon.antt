-- ===== src/Tracker/Beacon.antt =====
-- tracker.c, smart beaconing: course_change and should_update.
use arctic_tracker_teensy.Base.{
  ℕ, ◌+◌, ◌-◌, ◌/◌, ◌%◌, Bool, true, false, not, ◌&&◌, ◌||◌, ltb, leb, ◌==◌, if◌then◌else◌,
}
use arctic_tracker_teensy.Floats.{Floats}
use arctic_tracker_teensy.Gps.{PosData}
use arctic_tracker_teensy.Gps.Distance.{gps_distance, gps_bearing}
use arctic_tracker_teensy.Tracker.{Params, State}
use arctic_tracker_teensy.Tracker.Positions.{put_pos}

-- `abs(a - b)`
unfoldable pub abs_diff : ℕ → ℕ → ℕ
abs_diff a b = if ltb a b then b - a else a - b

unfoldable pub smaller : ℕ → ℕ → ℕ
smaller a b = if ltb a b then a else b

-- course_change: `(crs - 360) - prev` is taken as the difference of `crs` and `prev + 360`.
unfoldable pub course_change : ℕ → ℕ → ℕ → Bool
course_change crs prev limit =
    ltb limit (abs_diff crs prev)
    && ltb limit (smaller (abs_diff crs (prev + 360)) (abs_diff (crs + 360) prev))

-- `course >= 0`, of a 16-bit number in two's complement
unfoldable pub is_course : ℕ → Bool
is_course c = ltb c 32768

module _ (fl : Floats) (pr : Params) where
  -- The distance, the time and the estimated speed in should_update.
  unfoldable pub moved : PosData fl.F → PosData fl.F → ℕ
  moved prev current = if prev.timestamp == 0 then 0 else gps_distance fl prev current

  unfoldable pub elapsed : PosData fl.F → PosData fl.F → ℕ
  elapsed prev current =
      (if ltb current.timestamp prev.timestamp
        then current.timestamp
        else current.timestamp - prev.timestamp)
      % 65536

  unfoldable pub est_speed : ℕ → ℕ → fl.F
  est_speed dist tdist =
      if tdist == 0
      then fl.number 0
      else fl.single (fl.div (fl.single (fl.number dist)) (fl.single (fl.number tdist)))

  -- The first lines of should_update: the pause is counted and the course is taken.
  unfoldable pub count_pause : PosData fl.F → PosData fl.F → State fl.F → State fl.F
  count_pause prev_gps current t = record t {
    pause_count = (t.pause_count + 1) % 256;
    maxpause_reached = leb pr.maxpause ((t.pause_count + 1) % 256);
    prev_gps_course = t.course;
    course =
        (if fl.lt (fl.number 1) current.speed
          then current.course
          else gps_bearing fl prev_gps current)
        % 65536;
  }

  -- The test on a change of the course since the last report.
  unfoldable pub turned : fl.F → State fl.F → Bool
  turned speed t =
      fl.lt (fl.literal 8 1) speed
      && (is_course t.course
          && (is_course t.prev_course && course_change t.course t.prev_course pr.turn_limit))

  -- The test on a turn within the last period.
  unfoldable pub quick_turn : PosData fl.F → PosData fl.F → State fl.F → Bool
  quick_turn prev_gps prev t =
      not (pr.extraturn_on == 0)
      && (not (prev_gps.timestamp == prev.timestamp)
          && (is_course t.course
              && (is_course t.prev_gps_course
                  && course_change t.course t.prev_gps_course (pr.turn_limit / 2))))

  -- Starting or stopping: from below 3 to above 15 km/h or the other way.
  abbrev pub kmh : ℕ → fl.F
  kmh n = fl.div (fl.number n) (fl.literal 1853 3)

  unfoldable pub start_or_stop : PosData fl.F → PosData fl.F → Bool
  start_or_stop prev current =
      (fl.lt current.speed (kmh 3) && fl.lt (kmh 15) prev.speed)
      || (fl.lt prev.speed (kmh 3) && fl.lt (kmh 15) current.speed)

  -- The pause after which a report is due at this speed.
  unfoldable pub due_pause : fl.F → ℕ
  due_pause speed = fl.to_uint 8 (
      fl.add (fl.single (fl.div (fl.single (fl.div (fl.number pr.mindist) speed)) (fl.number 10)))
        (fl.mul (fl.number pr.minpause) (fl.literal 14 1)))

  -- The second condition of should_update.
  unfoldable pub due : PosData fl.F → PosData fl.F → ℕ → fl.F → State fl.F → Bool
  due prev current dist speed t =
      t.maxpause_reached
      || (t.waited
          || ((leb pr.minpause t.pause_count && start_or_stop prev current)
              || ((leb pr.minpause t.pause_count
                    && (not (fl.lt (fl.number 1) speed) && leb pr.mindist dist))
                  || (fl.lt (fl.number 0) speed && leb (due_pause speed) t.pause_count))))

  -- What a report changes.
  unfoldable pub reported : State fl.F → State fl.F
  reported t = record t { prev_course = t.course; pause_count = 0 }

  -- should_update, once the pause is counted
  unfoldable pub decide :
      PosData fl.F → PosData fl.F → PosData fl.F → ℕ → fl.F → State fl.F → Bool × State fl.F
  decide prev_gps prev current dist speed t =
      if turned speed t
      then (
        true,
        reported (
            if quick_turn prev_gps prev t
            then record t { positions = put_pos prev_gps t.positions }
            else t),
      )
      else if due prev current dist speed t
      then (true, reported t)
      else (false, t)

  -- should_update
  unfoldable pub should_update :
      PosData fl.F → PosData fl.F → PosData fl.F → State fl.F → Bool × State fl.F
  should_update prev_gps prev current t =
      let dist = moved prev current in
      decide prev_gps prev current dist (est_speed dist (elapsed prev current))
        (count_pause prev_gps current t)
