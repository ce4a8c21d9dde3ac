-- ===== src/Gps/Distance.antt =====
-- gps.c: the distance and the bearing from one position to another.
use arctic_tracker_teensy.Base.{ℕ, ◌+◌, ◌%◌, ◌&&◌, if◌then◌else◌}
use arctic_tracker_teensy.Floats.{Floats}
use arctic_tracker_teensy.Gps.{PosData}

module _ (fl : Floats) where
  -- DEG_TO_RAD and EARTH_RADIUS_IN_METERS
  abbrev pub rad : fl.F → fl.F
  rad x = fl.mul x (fl.literal 17453292519943295769236907684886 33)

  abbrev pub square : fl.F → fl.F
  square x = fl.mul x x

  -- arcInRadians
  unfoldable pub arc_in_radians : PosData fl.F → PosData fl.F → fl.F
  arc_in_radians from to =
      let half = fl.literal 5 1 in
      let latitude_arc = rad (fl.single (fl.sub from.latitude to.latitude)) in
      let longitude_arc = rad (fl.single (fl.sub from.longitude to.longitude)) in
      let latitude_h = square (fl.sin (fl.mul latitude_arc half)) in
      let longitude_h = square (fl.sin (fl.mul longitude_arc half)) in
      let tmp = fl.mul (fl.cos (rad from.latitude)) (fl.cos (rad to.latitude)) in
      fl.mul (fl.number 2) (fl.asin (fl.sqrt (fl.add latitude_h (fl.mul tmp longitude_h))))

  -- gps_distance
  unfoldable pub gps_distance : PosData fl.F → PosData fl.F → ℕ
  gps_distance from to =
      fl.to_uint 32 (fl.round (fl.mul (fl.literal 6372797560856 6) (arc_in_radians from to)))

  -- gps_bearing, where -1 is 65535
  unfoldable pub gps_bearing : PosData fl.F → PosData fl.F → ℕ
  gps_bearing from to =
      let d_lon = rad (fl.single (fl.sub from.longitude to.longitude)) in
      let to_lat = rad to.latitude in
      let from_lat = rad from.latitude in
      let y = fl.mul (fl.sin d_lon) (fl.cos (rad from.latitude)) in
      let x =
        fl.sub (fl.mul (fl.cos to_lat) (fl.sin from_lat))
          (fl.mul (fl.mul (fl.sin to_lat) (fl.cos from_lat)) (fl.cos d_lon)) in
      let degrees = fl.div (fl.atan2 y x) (fl.literal 17453292519943295769236907684886 33) in
      if fl.eq d_lon (fl.number 0) && fl.eq to_lat from_lat
      then 65535
      else (fl.to_uint 16 (fl.round degrees) + 180) % 360
