-- ===== src/Tracker/Pause.antt =====
-- Changes of the course, and that the longest pause is kept.
use arctic_tracker_teensy.Base.{
  ℕ, ◌+◌, ◌-◌, ◌%◌, ◌≤◌, ◌<◌, ◌≡◌, refl, sym, ◌∙◌, ◌⊎◌, inl, inr, Bool, true, false, List, [], ◌∷◌,
  arith, length, ltb, leb, Bool-cases, if◌then◌else◌,
}
use arctic_tracker_teensy.Floats.{Floats}
use arctic_tracker_teensy.Gps.{PosData}
use arctic_tracker_teensy.Tracker.{Params, State}
use arctic_tracker_teensy.Tracker.Beacon.{
  abs_diff, smaller, moved, elapsed, est_speed, course_change, count_pause, turned, due, decide,
  reported, should_update,
}

-- The angle between two courses, on the circle.
unfoldable pub angle : ℕ → ℕ → ℕ
angle a b = smaller (abs_diff a b) (360 - abs_diff a b)

-- For courses below 360 degrees, course_change tests whether the angle between them is more than
-- the limit.
pub course_change-angle :
    (crs prev limit : ℕ)
    → crs < 360
    → prev < 360
    → course_change crs prev limit ≡ ltb limit (angle crs prev)
unfolding course_change angle smaller abs_diff
course_change-angle crs prev limit lc lp = ground arith

module _ (fl : Floats) (pr : Params) where
  -- Calls of should_update, one after the other, up to the first that returns true.
  unfoldable pub updated : List (PosData fl.F × (PosData fl.F × PosData fl.F)) → State fl.F → Bool
  updated [] t = false
  updated ((prev_gps, (prev, current)) ∷ calls) t =
      let r = should_update fl pr prev_gps prev current t in
      let later = updated calls r.1 in if r.0 then true else later

  -- With a pause count of `k`, should_update returns true and resets it, or `k` is below the longest
  -- pause.
  decide-pause :
      (prev_gps prev current : PosData fl.F) (dist : ℕ) (speed : fl.F) (u : State fl.F)
      → u.maxpause_reached ≡ leb pr.maxpause u.pause_count
      → let r = decide fl pr prev_gps prev current dist speed u in
        ((r.0 ≡ true) × (r.1.pause_count ≡ 0))
        ⊎ ((r.0 ≡ false) × ((r.1.pause_count ≡ u.pause_count) × (u.pause_count < pr.maxpause)))
  unfolding decide due reported
  decide-pause prev_gps prev current dist speed u reached =
      elim (Bool-cases (turned fl pr speed u)) [
        | inl e ↦ rw e (inl (refl, refl))
        | inr e ↦ elim (Bool-cases (u.maxpause_reached)) [
          | inl f ↦ rw (e, f) (inl (refl, refl))
          | inr f ↦
              let low : leb pr.maxpause u.pause_count ≡ false = sym reached ∙ f in
              let below : u.pause_count < pr.maxpause = ground arith in
              elim (Bool-cases (due fl pr prev current dist speed u)) [
                | inl g ↦ rw (e, g) (inl (refl, refl))
                | inr g ↦ rw (e, g) (inr (refl, (refl, below)))
              ]
        ]
      ]

  -- A call either returns true, with no pause, or counts the pause below the longest one.
  pub should_update-pause :
      (prev_gps prev current : PosData fl.F) (t : State fl.F)
      → t.pause_count < 255
      → let r = should_update fl pr prev_gps prev current t in
        ((r.0 ≡ true) × (r.1.pause_count ≡ 0))
        ⊎ ((r.0 ≡ false)
            × ((r.1.pause_count ≡ t.pause_count + 1) × (t.pause_count + 1 < pr.maxpause)))
  unfolding should_update count_pause
  should_update-pause prev_gps prev current t lt =
      let byte : (t.pause_count + 1) % 256 ≡ t.pause_count + 1 = omega arith in
      let dist = moved fl pr prev current in
      let speed = est_speed fl pr dist (elapsed fl pr prev current) in
      elim (decide-pause prev_gps prev current dist speed (count_pause fl pr prev_gps current t)
        refl) [
          | inl (e, f) ↦ inl (e, f)
          | inr (e, (f, g)) ↦ inr (e, (f ∙ byte, omega (arith, g, byte)))
        ]

  -- From a pause count below TRACKER_MAXPAUSE on, one of the next calls of should_update returns
  -- true, as soon as there are as many calls as are left to that pause: a report is due at least
  -- once in TRACKER_MAXPAUSE rounds, whatever the positions are.
  pub should_update-eventually :
      (calls : List (PosData fl.F × (PosData fl.F × PosData fl.F))) (t : State fl.F)
      → pr.maxpause < 256
      → t.pause_count < pr.maxpause
      → pr.maxpause ≤ t.pause_count + length calls
      → updated calls t ≡ true
  unfolding updated
  should_update-eventually [] t byte below enough = absurd (omega arith)
  should_update-eventually ((prev_gps, (prev, current)) ∷ calls) t byte below enough =
      let r = should_update fl pr prev_gps prev current t in
      elim (should_update-pause prev_gps prev current t (omega arith)) [
        | inl (e, f) ↦ rw e refl
        | inr (e, (f, g)) ↦
            rw e (should_update-eventually calls r.1 byte (omega (arith, f)) (omega (arith, f)))
      ]
