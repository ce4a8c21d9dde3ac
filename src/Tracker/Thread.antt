-- ===== src/Tracker/Thread.antt =====
-- tracker.c, the thread: one round of its loop, without the sleeps and the beep.
use arctic_tracker_teensy.Base.{ℕ, ◌+◌, ◌%◌, Bool, true, false, not, leb, if◌then◌else◌}
use arctic_tracker_teensy.Run.{Cmd, pure, ◌>>=◌}
use arctic_tracker_teensy.Floats.{Floats}
use arctic_tracker_teensy.Gps.{PosData, Gps, gps_is_fixed}
use arctic_tracker_teensy.Tracker.{Params, Device, State}
use arctic_tracker_teensy.Tracker.Reports.{
  report_status, report_objects, report_station_position, activate_tx,
}
use arctic_tracker_teensy.Tracker.Beacon.{should_update}

module _ (fl : Floats) (pr : Params) (dev : Device) where
  -- The count of rounds since the last status report, before the test on it.
  unfoldable pub count_status : Bool → ℕ → ℕ
  count_status fixed st_count = ((if fixed then st_count else (st_count + 2) % 256) + 1) % 256

  unfoldable pub status_part : Gps fl.F → ℕ → State fl.F → Cmd (ℕ × State fl.F)
  status_part g st_count t =
      if leb pr.status_time st_count
      then (do
        t ← report_status fl pr dev.batt g.current_pos t
        t ← report_objects fl pr true t
        t ← activate_tx dev t
        pure (0, t))
      else pure (st_count, t)

  unfoldable pub report_if : Bool → PosData fl.F → State fl.F → Cmd (State fl.F)
  report_if due pos t =
      if due
      then (do t ← report_station_position fl pr pos false t; pure (record t { prev_pos = pos }))
      else report_station_position fl pr pos true t

  unfoldable pub position_part : Gps fl.F → State fl.F → Cmd (State fl.F)
  position_part g t = if not (gps_is_fixed pr.tracker_on g) then pure t else do
    let (due, t) = should_update fl pr t.prev_pos_gps t.prev_pos g.current_pos t
    t ← report_if due g.current_pos t
    activate_tx dev (record t { prev_pos_gps = g.current_pos })

  -- A round of the loop, where `waited` is what gps_wait_fix returned.
  unfoldable pub tracker_round : Gps fl.F → Bool → ℕ × State fl.F → Cmd (ℕ × State fl.F)
  tracker_round g waited (st_count, t) = do
    let fixed = gps_is_fixed pr.tracker_on g
    (st_count, t) ← status_part g (count_status fixed st_count) (record t { waited = waited })
    t ← position_part g t
    pure (st_count, t)
