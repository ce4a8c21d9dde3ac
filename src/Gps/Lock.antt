-- ===== src/Gps/Lock.antt =====
-- When do_rmc takes a position: not before the fifth sentence with a fix.
use arctic_tracker_teensy.Base.{
  ℕ, ◌-◌, ◌≤◌, ◌<◌, ◌≡◌, ◌≢◌, refl, ◌∙◌, true, false, List, [], ◌∷◌, arith, length, lt→ltb, ge→ltb,
  eq→==, ne→==,
}
use arctic_tracker_teensy.Floats.{Floats}
use arctic_tracker_teensy.Gps.{
  Gps, do_rmc, lock_step, take_position, set_time, notify_fix, token, first_char, nmea2time,
}

-- The status field of a sentence says "A", for a receiver in lock.
abbrev pub InLock : List (List ℕ) → Type 0
InLock argv = first_char (token argv 2) ≡ 65

unfoldable pub AllInLock : List (List (List ℕ)) → Type 0
AllInLock [] = Unit
AllInLock (argv ∷ lines) = InLock argv × AllInLock lines

module _ (fl : Floats) where
  -- Sentences of thirteen tokens, one after the other.
  unfoldable pub do_lines : List (List (List ℕ)) → Gps fl.F → Gps fl.F
  do_lines [] g = g
  do_lines (argv ∷ lines) g = do_lines lines (do_rmc fl 13 argv g)

  lost :
      (argv : List (List ℕ)) (g : Gps fl.F)
      → (first_char (token argv 2) ≢ 65)
      → ((do_rmc fl 13 argv g).is_fixed ≡ false)
        × (((do_rmc fl 13 argv g).lock_cnt ≡ 4)
            × ((do_rmc fl 13 argv g).current_pos ≡ g.current_pos))
  unfolding do_rmc lock_step set_time notify_fix
  lost argv g no_lock = rw (ne→== (first_char (token argv 2)) 65 no_lock) (refl, (refl, refl))

  skip :
      (argv : List (List ℕ)) (g : Gps fl.F)
      → InLock argv
      → 0 < g.lock_cnt
      → ((do_rmc fl 13 argv g).is_fixed ≡ g.is_fixed)
        × (((do_rmc fl 13 argv g).lock_cnt ≡ g.lock_cnt - 1)
            × ((do_rmc fl 13 argv g).current_pos ≡ g.current_pos))
  unfolding do_rmc lock_step set_time
  skip argv g lock more =
      rw (eq→== (first_char (token argv 2)) 65 lock, lt→ltb 0 g.lock_cnt more) (refl, (refl, refl))

  take :
      (argv : List (List ℕ)) (g : Gps fl.F)
      → InLock argv
      → g.lock_cnt ≡ 0
      → ((do_rmc fl 13 argv g).is_fixed ≡ true)
        × ((do_rmc fl 13 argv g).current_pos.timestamp
            ≡ (nmea2time (token argv 1) (token argv 9)).0)
  unfolding do_rmc lock_step take_position set_time notify_fix
  take argv g lock none =
      rw (eq→== (first_char (token argv 2)) 65 lock, ge→ltb 0 g.lock_cnt (omega arith)) (refl, refl)

  skip_lines :
      (lines : List (List (List ℕ))) (g : Gps fl.F)
      → AllInLock lines
      → length lines ≤ g.lock_cnt
      → ((do_lines lines g).is_fixed ≡ g.is_fixed)
        × (((do_lines lines g).lock_cnt ≡ g.lock_cnt - length lines)
            × ((do_lines lines g).current_pos ≡ g.current_pos))
  unfolding do_lines AllInLock
  skip_lines [] g all le = (refl, (omega arith, refl))
  skip_lines (argv ∷ lines) g (lock, all) le =
      let (f, (c, p)) = skip argv g lock (omega arith) in
      let (f', (c', p')) = skip_lines lines (do_rmc fl 13 argv g) all (omega arith) in
      (f' ∙ f, (omega (arith, c, c'), p' ∙ p))

  -- After a sentence without a fix, four sentences with a fix change neither the position nor that
  -- the receiver counts as not fixed. The fifth makes it fixed, and the position has its timestamp.
  pub do_rmc-lock :
      (bad argv : List (List ℕ)) (lines : List (List (List ℕ))) (g : Gps fl.F)
      → (first_char (token bad 2) ≢ 65)
      → AllInLock lines
      → length lines ≡ 4
      → InLock argv
      → let before = do_lines lines (do_rmc fl 13 bad g) in
        let after = do_rmc fl 13 argv before in
        ((before.is_fixed ≡ false) × (before.current_pos ≡ g.current_pos))
        × ((after.is_fixed ≡ true)
            × (after.current_pos.timestamp ≡ (nmea2time (token argv 1) (token argv 9)).0))
  do_rmc-lock bad argv lines g no_lock all four lock =
      let (f, (c, p)) = lost bad g no_lock in
      let (f', (c', p')) = skip_lines lines (do_rmc fl 13 bad g) all (omega arith) in
      ((f' ∙ f, p' ∙ p), take argv (do_lines lines (do_rmc fl 13 bad g)) lock (omega arith))
