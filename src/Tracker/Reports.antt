-- ===== src/Tracker/Reports.antt =====
-- tracker.c: status, position and object reports, and the calls that send them.
use arctic_tracker_teensy.Base.{
  ℕ, zero, suc, ◌+◌, ◌-◌, ◌%◌, Bool, true, false, not, ◌&&◌, ◌||◌, Option, none, some, List, [],
  ◌∷◌, ◌++◌, take, length, replicate, ltb, leb, ◌==◌, if◌then◌else◌,
}
use arctic_tracker_teensy.Run.{Cmd, pure, ◌>>=◌, update}
use arctic_tracker_teensy.Fbuf.{Fbuf, new, release, new_ref, put_char, put_str}
use arctic_tracker_teensy.Fbuf.Write.{until_nul}
use arctic_tracker_teensy.Fbuf.Queue.{Fbq, put, eof}
use arctic_tracker_teensy.Floats.{Floats}
use arctic_tracker_teensy.Gps.{PosData, Gps, gps_is_fixed}
use arctic_tracker_teensy.Tracker.{Params, Device, State}
use arctic_tracker_teensy.Tracker.Positions.{put_pos, get_pos, pos_buf_empty}
use arctic_tracker_teensy.Tracker.Packets.{
  send_header, send_timestamp, send_timestamp_z, send_pos_report, send_extra_report,
}

-- MAX_OBJECTS
abbrev pub max_objects : ℕ
max_objects = 4

-- "FW=AT ", VERSION_STRING and " / VBATT="
abbrev fw : List ℕ
fw = 70 ∷ 87 ∷ 61 ∷ 65 ∷ 84 ∷ 32 ∷ []

abbrev version : List ℕ
version = 86 ∷ 48 ∷ 46 ∷ 49 ∷ 32 ∷ 97 ∷ 108 ∷ 112 ∷ 104 ∷ 97 ∷ []

abbrev vbatt : List ℕ
vbatt = 32 ∷ 47 ∷ 32 ∷ 86 ∷ 66 ∷ 65 ∷ 84 ∷ 84 ∷ 61 ∷ []

-- The name that report_object gives to object `pos`: the string of OBJ_ID cut or filled up.
unfoldable pub object_name : ℕ → List ℕ → List ℕ
object_name pos id =
    if leb 8 (length id)
    then take 8 id ++ ((48 + pos) ∷ [])
    else id ++ ((48 + pos) ∷ replicate (8 - length id) 32)

-- The index of the object that report_objects comes to in round `i`.
unfoldable pub object_index : ℕ → ℕ → ℕ
object_index next_obj i =
    if ltb next_obj (i + 1) then max_objects + next_obj - (i + 1) else next_obj - (i + 1)

-- tracker_setGate
unfoldable pub set_gate : {F : Type 0} → Option Fbq → State F → State F
set_gate gt t = record t { gate = gt }

module _ (dev : Device) where
  -- hdlc_enc_packets_waiting
  unfoldable pub packets_waiting : Fbq → Bool
  packets_waiting q = not (eof q) || not (dev.buffer_empty)

  -- activate_tx
  unfoldable pub activate_tx : {F : Type 0} → State F → Cmd (State F)
  activate_tx t =
      if packets_waiting t.outframes
      then (do out ← dev.transmit t.outframes; pure (record t { outframes = out }))
      else pure t

module _ (fl : Floats) (pr : Params) where
  -- report_status
  unfoldable pub report_status : ℕ → PosData fl.F → State fl.F → Cmd (State fl.F)
  report_status batt pos t = do
    b ← new
    b ← send_header pr false b
    b ← put_char b 62
    b ← send_timestamp_z pos.timestamp b
    b ← put_str b fw
    b ← put_str b version
    b ← put_str b vbatt
    b ← put_str b (fl.tenths (fl.div (fl.single (fl.number batt)) (fl.number 1000)))
    out ← put t.outframes b
    pure (record t { outframes = out })

  -- The header and the position of report_station_position.
  unfoldable pub station_head : PosData fl.F → Bool → Fbuf → Cmd Fbuf
  station_head pos no_tx b = do
    b ← send_header pr no_tx b
    b ← put_char b (if pr.timestamp_on == 0 then 33 else 47)
    b ← (if pr.timestamp_on == 0 then pure b else send_timestamp pos.timestamp b)
    send_pos_report fl pr pos pr.symbol pr.symbol_tab (not (pr.compress_on == 0)) false b

  -- The loop over the position buffer, with `n` reports to go at most.
  unfoldable pub extra_reports : ℕ → State fl.F → Fbuf → Cmd (Fbuf × State fl.F)
  extra_reports zero t b = pure (b, t)
  extra_reports (suc n) t b = if pos_buf_empty t.positions then pure (b, t) else do
    let (p, positions) = get_pos t.positions
    b ← put_str b (47 ∷ 35 ∷ [])
    b ← send_extra_report fl pr p pr.symbol pr.symbol_tab b
    extra_reports n (record t { positions = positions }) b

  -- The comment of every fifth report.
  unfoldable pub add_comment : List ℕ → Fbuf → Cmd Fbuf
  add_comment [] b = pure b
  add_comment (c ∷ comment) b = do b ← put_char b 32; put_str b (c ∷ comment)

  unfoldable pub comment_part : State fl.F → Fbuf → Cmd (Fbuf × State fl.F)
  comment_part t b =
      if t.ccount == 0
      then (do b ← add_comment (until_nul pr.report_comment) b; pure (b, record t { ccount = 4 }))
      else pure (b, record t { ccount = t.ccount - 1 })

  -- The packet goes on the radio, unless `no_tx` is set, and to the gate where one is set.
  unfoldable pub send_out : Bool → Fbuf → State fl.F → Cmd (State fl.F)
  send_out no_tx b t =
      if no_tx
      then pure t
      else (do r ← new_ref b; out ← put t.outframes r; pure (record t { outframes = out }))

  unfoldable pub send_gate : Option Fbq → Fbuf → State fl.F → Cmd (State fl.F)
  send_gate none b t = do _ ← release b; pure t
  send_gate (some gate) b t =
      if pr.igate_track_on == 0
      then (do _ ← release b; pure t)
      else (do gate ← put gate b; pure (record t { gate = some gate }))

  unfoldable pub no_gate : Option Fbq → Bool
  no_gate none = true
  no_gate (some gate) = false

  -- report_station_position
  unfoldable pub report_station_position : PosData fl.F → Bool → State fl.F → Cmd (State fl.F)
  report_station_position pos no_tx t = if no_tx && no_gate t.gate then pure t else do
    b ← new
    b ← station_head pos no_tx b
    (b, t) ← (if no_tx then pure (b, t) else extra_reports 4 t b)
    let repeat = not no_tx && not (pr.repeat_on == 0)
    let t = record t { positions = if repeat then put_pos pos t.positions else t.positions }
    (b, t) ← comment_part t b
    t ← send_out no_tx b t
    send_gate t.gate b t

  -- The packet of report_object_position, and the function
  unfoldable pub object_packet : PosData fl.F → List ℕ → Bool → Fbuf → Cmd Fbuf
  object_packet pos id add b = do
    b ← send_header pr false b
    b ← put_char b 59
    b ← put_str b id
    b ← put_char b (if add then 42 else 95)
    b ← send_timestamp pos.timestamp b
    send_pos_report fl pr pos pr.obj_symbol pr.obj_symbol_table (not (pr.compress_on == 0)) true b

  unfoldable pub report_object_position :
      PosData fl.F → List ℕ → Bool → State fl.F → Cmd (State fl.F)
  report_object_position pos id add t = do
    b ← new
    b ← object_packet pos id add b
    out ← put t.outframes b
    pure (record t { outframes = out })

  -- report_object
  unfoldable pub report_object : ℕ → Bool → State fl.F → Cmd (State fl.F)
  report_object pos add t =
      report_object_position (t.object_pos pos) (object_name pos (until_nul pr.obj_id)) add t

  -- The loop of report_objects from round `i`, with `n` rounds to go.
  unfoldable pub report_rest : ℕ → ℕ → Bool → State fl.F → Cmd (State fl.F)
  report_rest zero i keep t = pure t
  report_rest (suc n) i keep t = do
    t ← report_object (object_index t.next_obj i) keep t
    report_rest n (i + 1) keep t

  -- report_objects
  unfoldable pub report_objects : Bool → State fl.F → Cmd (State fl.F)
  report_objects keep t = report_rest t.n_objects 0 keep t

  module _ (dev : Device) where
    -- tracker_posReport
    unfoldable pub pos_report : Gps fl.F → State fl.F → Cmd (State fl.F)
    pos_report g t =
        if not (gps_is_fixed pr.tracker_on g)
        then pure t
        else do t ← report_station_position g.current_pos false t; activate_tx dev t

    -- The room for a new object: the oldest one is deleted where there are four.
    unfoldable pub make_room : State fl.F → Cmd (State fl.F)
    make_room t =
        if leb max_objects t.n_objects
        then report_object t.next_obj false t
        else pure (record t { n_objects = t.n_objects + 1 })

    -- tracker_addObject
    unfoldable pub add_object : Gps fl.F → State fl.F → Cmd (State fl.F)
    add_object g t = if not (gps_is_fixed pr.tracker_on g) then pure t else do
      t ← make_room t
      let t = record t { object_pos = update t.object_pos t.next_obj g.current_pos }
      t ← report_object t.next_obj true t
      activate_tx dev (record t { next_obj = (t.next_obj + 1) % max_objects })

    -- tracker_clearObjects
    unfoldable pub clear_objects : State fl.F → Cmd (State fl.F)
    clear_objects t = do
      t ← report_objects false t
      activate_tx dev (record t { n_objects = 0; next_obj = 0 })
