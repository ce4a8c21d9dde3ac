-- ===== src/Radio/Power.antt =====
-- The radio is on exactly while someone needs it, and never switched off while it is keyed.
use arctic_tracker_teensy.Base.{
  ◌+◌, ◌-◌, ◌≡◌, refl, ◌⊎◌, Bool, true, false, not, ◌&&◌, ◌||◌, Option, none, some, arith, ltb,
  ◌==◌, Bool-cases, inl, inr,
}
use arctic_tracker_teensy.Ui.Leds.{tx_led_on, tx_led_off}
use arctic_tracker_teensy.Radio.{
  Radio, Env, radio_require, radio_release, radio_ptt, radio_on, initialize, squelch_handler,
  set_group_parm, handshake, load_params,
}

pub record IsSwitched (r : Radio) : Type 0 where
  pub needed : r.on ≡ ltb 0 r.count
  pub ready : r.radio_rdy ≡ r.on
  pub powered : r.pd ≡ r.on
  pub idle : r.tx_off ≡ (r.on && not r.ptt)
  pub silent : r.on ≡ false → r.ptt ≡ false

-- What the users of the radio call, and the interrupt of its squelch.
pub data Op : Type 0 where
  need : Op
  release : Op
  key : Bool → Op
  squelch : Bool → Op

-- none where the call waits for another thread
unfoldable pub perform : Env → Op → Radio → Option Radio
perform env need r = radio_require env r
perform env release r = radio_release env r
perform env (key down) r = radio_ptt down r
perform env (squelch high) r = some (squelch_handler high r)

-- The call waits: the last user releases the radio while it is keyed or the encoder is busy, or
-- the transmitter is keyed twice.
unfoldable pub waits : Env → Op → Radio → Bool
waits env need r = false
waits env release r = r.count == 1 && (r.ptt || not env.hdlc_idle)
waits env (key down) r = down && r.ptt
waits env (squelch high) r = false

-- A call that does not wait keeps the switching right.
abbrev pub Switches : Env → Op → Radio → Type 0
Switches env op r = (t : Radio) × (perform env op r ≡ some t) × IsSwitched t

-- The commands to the module leave the switching as it is.
record SameSwitches (r t : Radio) : Type 0 where
  on : t.on ≡ r.on
  count : t.count ≡ r.count
  pd : t.pd ≡ r.pd
  tx_off : t.tx_off ≡ r.tx_off
  ptt : t.ptt ≡ r.ptt

set_group_parm_same : (env : Env) (r : Radio) → SameSwitches r (set_group_parm env r).0
unfolding set_group_parm
set_group_parm_same env r = ground arith

-- The state that _initialize leaves.
abbrev started : Env → Radio → Radio
started env r =
    let s = record r { tx_off = true; ptt = false; leds = tx_led_off r.leds } in
    (set_group_parm env (load_params env (handshake env s).0)).0

started_same :
    (env : Env) (r : Radio) → SameSwitches (record r { tx_off = true; ptt = false }) (started env r)
unfolding handshake load_params
started_same env r =
    let s = record r { tx_off = true; ptt = false; leds = tx_led_off r.leds } in
    let same = set_group_parm_same env (load_params env (handshake env s).0) in
    record { on = same.on; count = same.count; pd = same.pd; tx_off = same.tx_off; ptt = same.ptt }

turn_on :
    (env : Env) (r : Radio)
    → r.on ≡ false
    → radio_on env true r
      ≡ some (record (started env (record r { on = true; pd = true })) { radio_rdy = true })
unfolding radio_on initialize radio_ptt
turn_on env r off = rw off refl

require-Switches : (env : Env) (r : Radio) → IsSwitched r → Switches env need r
unfolding perform radio_require
require-Switches env r h = elim (Bool-cases (r.count == 0)) [
  | inl first ↦
      let s = record r { count = r.count + 1 } in
      let off : s.on ≡ false = ground (arith, h.needed) in
      let one : (r.count + 1 == 1) ≡ true = ground arith in
      let same = started_same env (record s { on = true; pd = true }) in
      let t = record (started env (record s { on = true; pd = true })) { radio_rdy = true } in
      (t, rw one (turn_on env s off), ground (arith, same, h))
  | inr more ↦
      let other : (r.count + 1 == 1) ≡ false = ground arith in
      (record r { count = r.count + 1 }, rw other refl, ground (arith, h))
]

release-Switches :
    (env : Env) (r : Radio) → IsSwitched r → waits env release r ≡ false → Switches env release r
unfolding perform radio_release radio_on waits
release-Switches env r h free = elim (Bool-cases (r.count == 1)) [
  | inl last ↦
      let on : r.on ≡ true = ground (arith, h.needed) in
      let ready : (env.hdlc_idle && r.tx_off) ≡ true = ground (arith, h.idle) in
      let t = record r { count = 0; tx_off = false; on = false; pd = false; radio_rdy = false } in
      (t, rw (last, ready, on) refl, ground (arith, h))
  | inr more ↦ (record r { count = r.count - 1 }, rw more refl, ground (arith, h))
]

key-Switches :
    (env : Env) (down : Bool) (r : Radio)
    → IsSwitched r
    → waits env (key down) r ≡ false
    → Switches env (key down) r
unfolding perform radio_ptt waits
key-Switches env true r h free = elim (Bool-cases r.on) [
  | inl on ↦
      let ready : r.tx_off ≡ true = ground (arith, h.idle) in
      (
        record r { tx_off = false; ptt = true; leds = tx_led_on r.leds },
        rw (on, ready) refl,
        ground (arith, h),
      )
  | inr off ↦ (r, rw off refl, h)
]
key-Switches env false r h free = elim (Bool-cases r.on) [
  | inl on ↦ (
    record r { tx_off = true; ptt = false; leds = tx_led_off r.leds },
    rw on refl,
    ground (arith, h),
  )
  | inr off ↦ (r, rw off refl, h)
]

squelch-Switches :
    (env : Env) (high : Bool) (r : Radio) → IsSwitched r → Switches env (squelch high) r
unfolding perform squelch_handler
squelch-Switches env high r h = (squelch_handler high r, refl, ground (arith, h))

waits_none :
    (env : Env) (op : Op) (r : Radio)
    → IsSwitched r
    → waits env op r ≡ true
    → perform env op r ≡ none
unfolding perform waits radio_release radio_ptt
waits_none env need r h w = cc
waits_none env release r h w = ground (arith, h)
waits_none env (key true) r h w = ground (arith, h)
waits_none env (key false) r h w = cc
waits_none env (squelch high) r h w = cc

call : (env : Env) (op : Op) (r : Radio) → IsSwitched r → waits env op r ≡ false → Switches env op r
call env need r h free = require-Switches env r h
call env release r h free = release-Switches env r h free
call env (key down) r h free = key-Switches env down r h free
call env (squelch high) r h free = squelch-Switches env high r h

-- Whenever the radio is switched right: it is on exactly while it is needed, with its power pin
-- and its readiness; the semaphore `tx_off` is free exactly where it is on and not keyed; and it is
-- not keyed where it is off. Every call leaves it so, or waits, and it waits exactly where the last
-- user releases it while it is keyed or the encoder is busy, or where it is keyed twice.
pub perform-Switches :
    (env : Env) (op : Op) (r : Radio)
    → IsSwitched r
    → ((waits env op r ≡ true) × (perform env op r ≡ none))
      ⊎ ((waits env op r ≡ false) × Switches env op r)
perform-Switches env op r h = elim (Bool-cases (waits env op r)) [
  | inl w ↦ inl (w, waits_none env op r h w)
  | inr free ↦ inr (free, call env op r h free)
]
