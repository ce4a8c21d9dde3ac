-- ===== src/Radio/Tests.antt =====
-- The theorems on the radio at concrete inputs.
use arctic_tracker_teensy.Base.{◌≡◌, refl, ◌⊎◌, true, false, not, none, [], arith}
use arctic_tracker_teensy.Ui.Leds.{Leds}
use arctic_tracker_teensy.Radio.{Radio, Env, radio_set_low_tx_power, radio_is_low_tx_power}
use arctic_tracker_teensy.Radio.Power.{
  release, waits, perform, IsSwitched, Switches, perform-Switches,
}
use arctic_tracker_teensy.Radio.TxPower.{radio_is_low_tx_power-radio_set_low_tx_power}

abbrev dark_light : Leds
dark_light = record {
  red = 0;
  green = 0;
  blue = 0;
  off = 0;
  cstate = none;
  mix = false;
  led_red = false;
  led_green = false;
  led_blue = false;
  on = false;
  pri_on = false;
  pin_red = false;
  pin_green = false;
  pin_blue = false;
  timer = none;
}

-- A module that is on, for one user.
abbrev pub one_user : Radio
one_user = record {
  on = true;
  sq_on = false;
  widebw = 0;
  flags = 0;
  txfreq = 1448000;
  rxfreq = 1448000;
  squelch = 4;
  count = 1;
  tx_off = true;
  radio_rdy = true;
  channel_rdy = true;
  ptt = false;
  pd = true;
  rx_enabled = false;
  leds = dark_light;
  sent = [];
}

abbrev pub no_reply : Env
no_reply = record {
  trx_tx_freq = 1448000;
  trx_rx_freq = 1448000;
  trx_squelch = 4;
  reply = λ line. [];
  hdlc_idle = true;
}

pub one_user-IsSwitched : IsSwitched one_user
one_user-IsSwitched = record {
  needed = refl;
  ready = refl;
  powered = refl;
  idle = refl;
  silent = λ e. refl;
}

perform-Switches_example :
    ((waits no_reply release one_user ≡ true) × (perform no_reply release one_user ≡ none))
    ⊎ ((waits no_reply release one_user ≡ false) × Switches no_reply release one_user)
perform-Switches_example = perform-Switches no_reply release one_user one_user-IsSwitched

radio_is_low_tx_power-radio_set_low_tx_power_example :
    radio_is_low_tx_power (radio_set_low_tx_power no_reply true one_user).0
    ≡ not (radio_is_low_tx_power one_user)
radio_is_low_tx_power-radio_set_low_tx_power_example =
    radio_is_low_tx_power-radio_set_low_tx_power no_reply true one_user (omega arith)
