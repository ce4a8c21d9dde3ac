-- ===== src/Config/Layout.antt =====
-- config.h: the parameters, where they lie in the EEPROM, and how long they are.
use arctic_tracker_teensy.Base.{ℕ, ◌+◌, ◌*◌}

-- The names, in the order of their addresses.
pub data Param : Type 0 where
  version_key : Param
  trx_tx_freq : Param
  trx_rx_freq : Param
  trx_squelch : Param
  trx_volume : Param
  trx_miclevel : Param
  txdelay : Param
  txtail : Param
  maxframe : Param
  mycall : Param
  dest : Param
  ndigis : Param
  digis : Param
  symbol : Param
  symbol_tab : Param
  tracker_on : Param
  tracker_turn_limit : Param
  tracker_maxpause : Param
  tracker_mindist : Param
  tracker_minpause : Param
  status_time : Param
  timestamp_on : Param
  compress_on : Param
  altitude_on : Param
  obj_symbol : Param
  obj_symbol_table : Param
  obj_id : Param
  report_comment : Param
  report_beep_on : Param
  repeat_on : Param
  extraturn_on : Param
  gps_powersave_on : Param
  txmon_on : Param
  digip_wide1_on : Param
  digip_sar_on : Param
  digipeater_on : Param
  igate_on : Param
  igate_host : Param
  igate_port : Param
  igate_username : Param
  igate_passcode : Param
  igate_filter : Param
  igate_track_on : Param
  wifi_on : Param
  http_on : Param
  http_user : Param
  http_passwd : Param
  softap_passwd : Param
  wifiap : Param

-- `name##_offset`
unfoldable pub offset : Param → ℕ
offset version_key = 0
offset trx_tx_freq = 3
offset trx_rx_freq = 8
offset trx_squelch = 13
offset trx_volume = 15
offset trx_miclevel = 17
offset txdelay = 19
offset txtail = 21
offset maxframe = 23
offset mycall = 25
offset dest = 35
offset ndigis = 45
offset digis = 47
offset symbol = 112
offset symbol_tab = 114
offset tracker_on = 116
offset tracker_turn_limit = 118
offset tracker_maxpause = 121
offset tracker_mindist = 123
offset tracker_minpause = 125
offset status_time = 127
offset timestamp_on = 129
offset compress_on = 131
offset altitude_on = 133
offset obj_symbol = 135
offset obj_symbol_table = 137
offset obj_id = 139
offset report_comment = 150
offset report_beep_on = 191
offset repeat_on = 193
offset extraturn_on = 195
offset gps_powersave_on = 197
offset txmon_on = 199
offset digip_wide1_on = 201
offset digip_sar_on = 203
offset digipeater_on = 205
offset igate_on = 207
offset igate_host = 209
offset igate_port = 250
offset igate_username = 253
offset igate_passcode = 286
offset igate_filter = 289
offset igate_track_on = 322
offset wifi_on = 324
offset http_on = 326
offset http_user = 328
offset http_passwd = 361
offset softap_passwd = 394
offset wifiap = 427

-- `sizeof(name##_type)`
unfoldable pub size_of : Param → ℕ
size_of version_key = 2
size_of trx_tx_freq = 4
size_of trx_rx_freq = 4
size_of trx_squelch = 1
size_of trx_volume = 1
size_of trx_miclevel = 1
size_of txdelay = 1
size_of txtail = 1
size_of maxframe = 1
size_of mycall = 9
size_of dest = 9
size_of ndigis = 1
size_of digis = 63
size_of symbol = 1
size_of symbol_tab = 1
size_of tracker_on = 1
size_of tracker_turn_limit = 2
size_of tracker_maxpause = 1
size_of tracker_mindist = 1
size_of tracker_minpause = 1
size_of status_time = 1
size_of timestamp_on = 1
size_of compress_on = 1
size_of altitude_on = 1
size_of obj_symbol = 1
size_of obj_symbol_table = 1
size_of obj_id = 10
size_of report_comment = 40
size_of report_beep_on = 1
size_of repeat_on = 1
size_of extraturn_on = 1
size_of gps_powersave_on = 1
size_of txmon_on = 1
size_of digip_wide1_on = 1
size_of digip_sar_on = 1
size_of digipeater_on = 1
size_of igate_on = 1
size_of igate_host = 40
size_of igate_port = 2
size_of igate_username = 32
size_of igate_passcode = 2
size_of igate_filter = 32
size_of igate_track_on = 1
size_of wifi_on = 1
size_of http_on = 1
size_of http_user = 32
size_of http_passwd = 32
size_of softap_passwd = 32
size_of wifiap = 64

-- The address of instance `i` of a parameter.
unfoldable pub offset_i : Param → ℕ → ℕ
unfolding offset size_of
offset_i x i = offset x + i * (size_of x + 1)
