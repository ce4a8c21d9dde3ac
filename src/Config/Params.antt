-- ===== src/Config/Params.antt =====
-- config.h: the defaults of the parameters, and the macros that read and write a parameter.
use arctic_tracker_teensy.Base.{ℕ, ◌-◌, ◌/◌, ◌%◌, List, [], ◌∷◌, ◌++◌, length, replicate, codes}
use arctic_tracker_teensy.Config.{Eeprom, set_param, get_param, set_byte_param, get_byte_param}
use arctic_tracker_teensy.Config.Layout.{Param, offset, size_of, offset_i}
use arctic_tracker_teensy.Config.Layout.Param.{
  version_key, trx_tx_freq, trx_rx_freq, trx_squelch, trx_volume, trx_miclevel, txdelay, txtail,
  maxframe, mycall, dest, ndigis, digis, symbol, symbol_tab, tracker_on, tracker_turn_limit,
  tracker_maxpause, tracker_mindist, tracker_minpause, status_time, timestamp_on, compress_on,
  altitude_on, obj_symbol, obj_symbol_table, obj_id, report_comment, report_beep_on, repeat_on,
  extraturn_on, gps_powersave_on, txmon_on, digip_wide1_on, digip_sar_on, digipeater_on, igate_on,
  igate_host, igate_port, igate_username, igate_passcode, igate_filter, igate_track_on, wifi_on,
  http_on, http_user, http_passwd, softap_passwd, wifiap,
}

-- The bytes of a 16-bit and of a 32-bit number in memory, of an array of characters that begins
-- with a text, and of an address.
unfoldable pub word_bytes : ℕ → List ℕ
word_bytes n = n % 256 ∷ n / 256 % 256 ∷ []

unfoldable pub dword_bytes : ℕ → List ℕ
dword_bytes n = n % 256 ∷ n / 256 % 256 ∷ n / 65536 % 256 ∷ n / 16777216 % 256 ∷ []

unfoldable pub padded_text : ℕ → List ℕ → List ℕ
padded_text size text = text ++ replicate (size - length text) 0

unfoldable pub address_of : List ℕ → ℕ → List ℕ
address_of callsign ssid = padded_text 7 callsign ++ (ssid ∷ 0 ∷ [])

-- `name##_default`
unfoldable pub default : Param → List ℕ
unfolding word_bytes dword_bytes padded_text address_of
default version_key = word_bytes 0
default trx_tx_freq = dword_bytes 1448000
default trx_rx_freq = dword_bytes 1448000
default trx_squelch = 4 ∷ []
default trx_volume = 4 ∷ []
default trx_miclevel = 8 ∷ []
default txdelay = 20 ∷ []
default txtail = 10 ∷ []
default maxframe = 2 ∷ []
default mycall = padded_text 9 (codes "NOCALL")
default dest = padded_text 9 (codes "APAT01")
default ndigis = 2 ∷ []
default digis = padded_text 63 (address_of (codes "WIDE1") 1 ++ address_of (codes "WIDE2") 2)
default symbol = 91 ∷ []
default symbol_tab = 47 ∷ []
default tracker_on = 0 ∷ []
default tracker_turn_limit = word_bytes 35
default tracker_maxpause = 18 ∷ []
default tracker_mindist = 100 ∷ []
default tracker_minpause = 3 ∷ []
default status_time = 30 ∷ []
default timestamp_on = 1 ∷ []
default compress_on = 0 ∷ []
default altitude_on = 0 ∷ []
default obj_symbol = 99 ∷ []
default obj_symbol_table = 47 ∷ []
default obj_id = padded_text 10 (codes "MARK-")
default report_comment = padded_text 40 (codes "Arctic Tracker")
default report_beep_on = 0 ∷ []
default repeat_on = 0 ∷ []
default extraturn_on = 0 ∷ []
default gps_powersave_on = 0 ∷ []
default txmon_on = 0 ∷ []
default digip_wide1_on = 0 ∷ []
default digip_sar_on = 0 ∷ []
default digipeater_on = 0 ∷ []
default igate_on = 0 ∷ []
default igate_host = padded_text 40 (codes "aprs.no")
default igate_port = word_bytes 14582
default igate_username = padded_text 32 (codes "nocall")
default igate_passcode = word_bytes 0
default igate_filter = padded_text 32 []
default igate_track_on = 0 ∷ []
default wifi_on = 1 ∷ []
default http_on = 1 ∷ []
default http_user = padded_text 32 (codes "user")
default http_passwd = padded_text 32 (codes "password")
default softap_passwd = padded_text 32 (codes "password")
default wifiap = padded_text 64 []

-- The first byte of a default, for GET_BYTE_PARAM.
unfoldable pub first_byte : List ℕ → ℕ
first_byte [] = 0
first_byte (b ∷ bs) = b

module _ (ee : Eeprom) where
  -- GET_PARAM and GET_PARAM_I: the bytes
  unfoldable pub get_param_i : Param → ℕ → ee.State → List ℕ
  get_param_i x i s = (get_param ee (offset_i x i) (size_of x) (default x) s).0

  -- SET_PARAM_I
  unfoldable pub set_param_i : Param → ℕ → List ℕ → ee.State → ee.State
  set_param_i x i val s = set_param ee (offset_i x i) val s

  -- GET_BYTE_PARAM
  unfoldable pub get_byte : Param → ee.State → ℕ
  get_byte x s = get_byte_param ee (offset x) (first_byte (default x)) s

  -- SET_BYTE_PARAM
  unfoldable pub set_byte : Param → ℕ → ee.State → ee.State
  set_byte x val s = set_byte_param ee (offset x) (val % 256) s

  -- GET_PARAM
  unfoldable pub get : Param → ee.State → List ℕ
  get x s = (get_param ee (offset x) (size_of x) (default x) s).0

  -- SET_PARAM
  unfoldable pub set : Param → List ℕ → ee.State → ee.State
  set x val s = set_param ee (offset x) val s
