-- ===== src/Radio.antt =====
-- sr_frs.c: the radio module, switched on for as long as someone needs it, keyed, and set up by
-- commands on a serial line. What the module replies and the parameters are given. One thread runs:
-- where it would wait for another there is no result.
pub mod Power
pub mod TxPower
mod Tests
use arctic_tracker_teensy.Base.{
  ℕ, ◌+◌, ◌-◌, ◌/◌, ◌%◌, Bool, true, false, not, ◌&&◌, Option, none, some, List, [], ◌∷◌, ◌++◌,
  codes, get_elem?, ltb, ◌==◌, bit_and, bit_or, bit_xor, if◌then◌else◌,
}
use arctic_tracker_teensy.Printf.{decimal, padded}
use arctic_tracker_teensy.Ui.Leds.{Leds, tx_led_on, tx_led_off, pri_rgb_led_on, pri_rgb_led_off}

-- FLAG_LO_POWER
abbrev pub flag_lo_power : ℕ
flag_lo_power = 0x04

-- TRX_BANDWIDTH
abbrev pub trx_bandwidth : ℕ
trx_bandwidth = 0

-- The static variables of sr_frs.c, whether the semaphore `tx_off` is signalled, whether the pins
-- key the transmitter and power the module, whether afsk_rx is enabled, the light, and the lines
-- sent to the module. `count` is never left below 0.
pub record Radio : Type 0 where
  pub on : Bool
  pub sq_on : Bool
  pub widebw : ℕ
  pub flags : ℕ
  pub txfreq : ℕ
  pub rxfreq : ℕ
  pub squelch : ℕ
  pub count : ℕ
  pub tx_off : Bool
  pub radio_rdy : Bool
  pub channel_rdy : Bool
  pub ptt : Bool
  pub pd : Bool
  pub rx_enabled : Bool
  pub leds : Leds
  pub sent : List (List ℕ)

-- TRX_TX_FREQ, TRX_RX_FREQ and TRX_SQUELCH, what the module replies to a line, and whether the
-- HDLC encoder is idle
pub record Env : Type 0 where
  pub trx_tx_freq : ℕ
  pub trx_rx_freq : ℕ
  pub trx_squelch : ℕ
  pub reply : List ℕ → List ℕ
  pub hdlc_idle : Bool

-- A line is sent, and one character of the reply is a zero.
unfoldable pub accepted : Env → List ℕ → ℕ → Bool
accepted env line at = elim (get_elem? (env.reply line) at) [ none ↦ false | some c ↦ c == 48 ]

unfoldable pub send_line : List ℕ → Radio → Radio
send_line line r = record r { sent = r.sent ++ (line ∷ []) }

-- `sprintf(txbuf, "%lu.%04lu", _txfreq/10000, _txfreq%10000)`
unfoldable pub freq_text : ℕ → List ℕ
freq_text freq = decimal (freq / 10000) ++ (46 ∷ padded 4 (freq % 10000))

-- The line of _setGroupParm
unfoldable pub group_line : Radio → List ℕ
unfolding freq_text
group_line r =
    codes "AT+DMOSETGROUP="
    ++ (decimal r.widebw
        ++ (44
            ∷ (freq_text r.txfreq
                ++ (44
                    ∷ (freq_text r.rxfreq
                        ++ (codes ",00,"
                            ++ (decimal r.squelch
                                ++ (codes ",00," ++ (decimal r.flags ++ (13 ∷ 10 ∷ []))))))))))

-- _setGroupParm
unfoldable pub set_group_parm : Env → Radio → Radio × Bool
unfolding send_line accepted
set_group_parm env r =
    if r.on then (send_line (group_line r) r, accepted env (group_line r) 15) else (r, true)

-- _handshake
unfoldable pub handshake : Env → Radio → Radio × Bool
unfolding send_line accepted
handshake env r =
    let line = codes "AT+DMOCONNECT" ++ (13 ∷ 10 ∷ []) in (send_line line r, accepted env line 14)

-- radio_PTT
unfoldable pub radio_ptt : Bool → Radio → Option Radio
radio_ptt key r =
    if r.on
    then (if key
        then (if r.tx_off
            then some (record r { tx_off = false; ptt = true; leds = tx_led_on r.leds })
            else none)
        else some (record r { tx_off = true; ptt = false; leds = tx_led_off r.leds }))
    else some r

-- What _initialize sets from the parameters.
unfoldable pub load_params : Env → Radio → Radio
load_params env r = record r {
  txfreq = env.trx_tx_freq;
  rxfreq = env.trx_rx_freq;
  squelch = env.trx_squelch;
  flags = 0;
  widebw = trx_bandwidth;
}

-- _initialize
unfoldable pub initialize : Env → Radio → Option Radio
unfolding handshake load_params set_group_parm
initialize env r = elim (radio_ptt false r) [
  | none ↦ none
  | some r ↦ some (set_group_parm env (load_params env (handshake env r).0)).0
]

-- radio_on
unfoldable pub radio_on : Env → Bool → Radio → Option Radio
radio_on env true r =
    if r.on then some r else elim (initialize env (record r { on = true; pd = true })) [
      | none ↦ none
      | some r ↦ some (record r { radio_rdy = true })
    ]
radio_on env false r =
    if r.on then some (record r { on = false; pd = false; radio_rdy = false }) else some r

-- radio_require
unfoldable pub radio_require : Env → Radio → Option Radio
radio_require env r =
    let s = record r { count = r.count + 1 } in if s.count == 1 then radio_on env true s else some s

-- radio_release
unfoldable pub radio_release : Env → Radio → Option Radio
radio_release env r =
    if r.count == 1
    then (if env.hdlc_idle && r.tx_off
        then radio_on env false (record r { count = 0; tx_off = false })
        else none)
    else some (record r { count = r.count - 1 })

-- radio_setFreq
unfoldable pub radio_set_freq : Env → ℕ → ℕ → Radio → Radio × Bool
unfolding set_group_parm
radio_set_freq env txfreq rxfreq r = set_group_parm env (record r {
  txfreq = if ltb 0 txfreq then txfreq else r.txfreq;
  rxfreq = if ltb 0 rxfreq then rxfreq else r.rxfreq;
})

-- radio_setSquelch
unfoldable pub radio_set_squelch : Env → ℕ → Radio → Radio × Bool
unfolding set_group_parm
radio_set_squelch env sq r = set_group_parm env (record r { squelch = if ltb 8 sq then 0 else sq })

-- radio_setLowTxPower
unfoldable pub radio_set_low_tx_power : Env → Bool → Radio → Radio × Bool
radio_set_low_tx_power env low r = set_group_parm env (record r {
  flags = if low then bit_xor r.flags flag_lo_power else bit_or r.flags flag_lo_power;
})

-- radio_isLowTxPower
unfoldable pub radio_is_low_tx_power : Radio → Bool
radio_is_low_tx_power r = bit_and r.flags flag_lo_power == 0

-- A command with one digit, for a module that is on.
unfoldable pub digit_command : Env → List ℕ → ℕ → List ℕ → Radio → Radio × Bool
unfolding send_line accepted
digit_command env name digit rest r =
    let line = name ++ (decimal digit ++ (rest ++ (13 ∷ 10 ∷ []))) in
    if r.on then (send_line line r, accepted env line 13) else (r, true)

-- radio_setVolume
unfoldable pub radio_set_volume : Env → ℕ → Radio → Radio × Bool
unfolding digit_command
radio_set_volume env vol r =
    digit_command env (codes "AT+DMOSETVOLUME=") (if ltb 8 vol then 8 else vol) [] r

-- radio_setMicLevel
unfoldable pub radio_set_mic_level : Env → ℕ → Radio → Radio × Bool
unfolding digit_command
radio_set_mic_level env level r =
    digit_command env (codes "AT+DMOSETMIC=") (if ltb 8 level then 8 else level) (codes ",0") r

-- radio_setPowerSave
unfoldable pub radio_set_power_save : Env → Bool → Radio → Radio × Bool
unfolding digit_command
radio_set_power_save env save r =
    digit_command env (codes "AT+DMOAUTOPOWCONTR=") (if save then 1 else 0) [] r

-- squelch_handler, where the pin is high or not
unfoldable pub squelch_handler : Bool → Radio → Radio
squelch_handler high r =
    if not r.sq_on && (r.radio_rdy && not high)
    then record r {
      sq_on = true;
      leds = pri_rgb_led_on true true false r.leds;
      rx_enabled = true;
      channel_rdy = false;
    }
    else if r.sq_on
    then record r {
      sq_on = false;
      leds = pri_rgb_led_off r.leds;
      rx_enabled = false;
      channel_rdy = true;
    }
    else r
