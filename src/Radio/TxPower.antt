-- ===== src/Radio/TxPower.antt =====
-- radio_setLowTxPower turns the flag over where it should clear it.
use arctic_tracker_teensy.Base.{
  ℕ, ◌<◌, ◌≡◌, refl, Bool, true, false, not, ◌&&◌, arith, ◌==◌, bit_and, bit_or, bit_xor,
  if◌then◌else◌,
}
use arctic_tracker_teensy.Base.Bytes.{all_below, all_below_sound}
use arctic_tracker_teensy.Radio.{
  Radio, Env, radio_set_low_tx_power, radio_is_low_tx_power, set_group_parm, flag_lo_power,
}

flag_law : ℕ → Bool
flag_law f =
    (if bit_and f 4 == 0 then not (bit_and (bit_xor f 4) 4 == 0) else bit_and (bit_xor f 4) 4 == 0)
    && not (bit_and (bit_or f 4) 4 == 0)

flag_table : all_below 256 flag_law ≡ true
unfolding all_below flag_law
flag_table = refl

flags_set : (env : Env) (r : Radio) → (set_group_parm env r).0.flags ≡ r.flags
unfolding set_group_parm
flags_set env r = ground arith

-- radio_setLowTxPower turns what radio_isLowTxPower returns into its opposite where low power is
-- asked for, so that to ask twice changes nothing; where high power is asked for it is high.
pub radio_is_low_tx_power-radio_set_low_tx_power :
    (env : Env) (low : Bool) (r : Radio)
    → r.flags < 256
    → radio_is_low_tx_power (radio_set_low_tx_power env low r).0
      ≡ (if low then not (radio_is_low_tx_power r) else false)
unfolding radio_is_low_tx_power radio_set_low_tx_power flag_law
radio_is_low_tx_power-radio_set_low_tx_power env true r lt =
    let law = all_below_sound 256 flag_law r.flags flag_table lt in
    let t = record r { flags = bit_xor r.flags flag_lo_power } in
    rw (flags_set env t) (ground (arith, law))
radio_is_low_tx_power-radio_set_low_tx_power env false r lt =
    let law = all_below_sound 256 flag_law r.flags flag_table lt in
    let t = record r { flags = bit_or r.flags flag_lo_power } in
    rw (flags_set env t) (ground (arith, law))
