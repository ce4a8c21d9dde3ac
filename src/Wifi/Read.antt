-- ===== src/Wifi/Read.antt =====
-- ui/wifi.c: cmd_getParm and cmd_checkAp. The chain of comparisons with names is a table, in which
-- the first name that fits counts.
use arctic_tracker_teensy.Base.{
  ℕ, zero, suc, ◌+◌, Bool, Option, none, some, List, [], ◌∷◌, ◌++◌, codes, drop, length, ltb, ◌==◌,
  if◌then◌else◌,
}
use arctic_tracker_teensy.Printf.{decimal, atoi}
use arctic_tracker_teensy.Config.{Eeprom}
use arctic_tracker_teensy.Config.Layout.{Param, offset}
use arctic_tracker_teensy.Config.Params.{default, first_byte, get, get_byte, get_param_i}
use arctic_tracker_teensy.Ax25.Text.{addr2str, digis2str, same_prefix}
use arctic_tracker_teensy.Text.{print_bool_setting}
use arctic_tracker_teensy.Wifi.{
  Answer, said, outside, find, c_text, say, number, addr_of, addrs_of, str_eq,
}

-- How a parameter is printed.
pub data Getter : Type 0 where
  address : Param → Getter
  path : Getter
  text : Param → Getter
  symbols : Getter
  switch : Param → Getter
  whole : Param → Getter
  byte : Param → Getter

-- The names of cmd_getParm
unfoldable pub getters : List (List ℕ × Getter)
getters =
    (codes "MYCALL", address Param.mycall)
    ∷ (codes "DEST", address Param.dest)
    ∷ (codes "DIGIS", path)
    ∷ (codes "REPORT_COMMENT", text Param.report_comment)
    ∷ (codes "SYMBOL", symbols)
    ∷ (codes "TIMESTAMP", switch Param.timestamp_on)
    ∷ (codes "COMPRESS", switch Param.compress_on)
    ∷ (codes "ALTITUDE", switch Param.altitude_on)
    ∷ (codes "TRX_TX_FREQ", whole Param.trx_tx_freq)
    ∷ (codes "TRX_RX_FREQ", whole Param.trx_rx_freq)
    ∷ (codes "TRACKER_TURN_LIMIT", whole Param.tracker_turn_limit)
    ∷ (codes "TRACKER_MAXPAUSE", byte Param.tracker_maxpause)
    ∷ (codes "TRACKER_MINPAUSE", byte Param.tracker_minpause)
    ∷ (codes "TRACKER_MINDIST", byte Param.tracker_mindist)
    ∷ (codes "HTTP_ON", switch Param.http_on)
    ∷ (codes "HTTP_USER", text Param.http_user)
    ∷ (codes "HTTP_PASSWD", text Param.http_passwd)
    ∷ (codes "IGATE_ON", switch Param.igate_on)
    ∷ (codes "IGATE_HOST", text Param.igate_host)
    ∷ (codes "IGATE_PORT", whole Param.igate_port)
    ∷ (codes "IGATE_PASSCODE", whole Param.igate_passcode)
    ∷ (codes "IGATE_USERNAME", text Param.igate_username)
    ∷ (codes "DIGIPEATER_ON", switch Param.digipeater_on)
    ∷ (codes "DIGIP_WIDE1_ON", switch Param.digip_wide1_on)
    ∷ (codes "DIGIP_SAR_ON", switch Param.digip_sar_on)
    ∷ []

-- The SSID and the password of an access point, with `sep` between them.
unfoldable pub two_texts : Option (List ℕ) → Option (List ℕ) → Answer
two_texts none b = outside
two_texts (some a) none = outside
two_texts (some a) (some b) = said (a ++ (44 ∷ b))

unfoldable pub is_empty : Option (List ℕ) → Bool
is_empty o = elim o [ none ↦ ltb 1 0 | some t ↦ length t == 0 ]

module _ (ee : Eeprom) where
  unfoldable pub answer : Getter → ee.State → Answer
  answer (address p) s = said (addr2str (addr_of (get ee p s)))
  answer path s = said (digis2str (addrs_of (get_byte ee Param.ndigis s) (get ee Param.digis s)))
  answer (text p) s = say (c_text (get ee p s))
  answer symbols s = said (get_byte ee Param.symbol_tab s ∷ get_byte ee Param.symbol s ∷ [])
  answer (switch p) s = said (print_bool_setting ee (offset p) (first_byte (default p)) s)
  answer (whole p) s = said (decimal (number (get ee p s)))
  answer (byte p) s = said (decimal (get_byte ee p s))

  -- The access point `i`
  unfoldable pub answer_ap : ℕ → ee.State → Answer
  answer_ap i s =
      let x = get_param_i ee Param.wifiap i s in
      if ltb 5 i
      then said (codes "ERROR. Index out of bounds")
      else if is_empty (c_text x)
      then said (codes "-,-")
      else two_texts (c_text x) (c_text (drop 32 x))

  -- With what was found of the name in the table.
  unfoldable pub answer_found : Option Getter → List ℕ → ee.State → Answer
  answer_found (some g) p s = answer g s
  answer_found none p s =
      if same_prefix 6 (codes "WIFIAP") p
      then answer_ap (atoi (drop 6 p)) s
      else said (codes "ERROR. Unknown setting")

  -- cmd_getParm
  unfoldable pub cmd_get_parm : List ℕ → ee.State → Answer
  unfolding answer_found
  cmd_get_parm p s = answer_found (find p getters) p s

  unfoldable pub has_ssid : List ℕ → Option (List ℕ) → Bool
  has_ssid ssid o = elim o [ none ↦ ltb 1 0 | some t ↦ str_eq ssid t ]

  -- The loop of cmd_checkAp, with `n` access points to go.
  unfoldable pub check_loop : ℕ → ℕ → List ℕ → ee.State → Answer
  unfolding has_ssid
  check_loop zero i ssid s = said (codes "999,_NO_")
  check_loop (suc n) i ssid s =
      let x = get_param_i ee Param.wifiap i s in
      let rest = check_loop n (i + 1) ssid s in
      if has_ssid ssid (c_text x) then two_texts (some (decimal i)) (c_text (drop 32 x)) else rest

  -- cmd_checkAp
  unfoldable pub cmd_check_ap : List ℕ → ee.State → Answer
  unfolding check_loop
  cmd_check_ap ssid s = check_loop 6 0 ssid s
