-- ===== src/Wifi/Write.antt =====
-- ui/wifi.c: cmd_setParm. The chain of comparisons with names is a table, in which the first name
-- that fits counts. A block of memory that begins with a string goes on with bytes that are given.
use arctic_tracker_teensy.Base.{
  ℕ, zero, suc, ◌+◌, Bool, true, false, Option, none, some, List, [], ◌∷◌, ◌++◌, codes, take, drop,
  length, ltb, ◌==◌, if◌then◌else◌,
}
use arctic_tracker_teensy.Printf.{atoi}
use arctic_tracker_teensy.Config.{Eeprom}
use arctic_tracker_teensy.Config.Layout.{Param, offset, size_of}
use arctic_tracker_teensy.Config.Params.{set, set_param_i}
use arctic_tracker_teensy.Ax25.{Addr}
use arctic_tracker_teensy.Ax25.Text.{str2addr, same_prefix}
use arctic_tracker_teensy.Text.{
  Reply, parse_bool_setting, parse_byte_setting, parse_word_setting, parse_turn_limit, parse_freq,
  parse_symbol, parse_digipath,
}
use arctic_tracker_teensy.Wifi.{Answer, said, message, outside, find}

-- How a parameter is parsed and stored.
pub data Setter : Type 0 where
  address : Param → Setter
  path : Setter
  symbols : Setter
  text : Param → Setter
  switch : Param → Setter
  freq : Bool → Setter
  turn_limit : Setter
  byte : Param → ℕ → Setter
  word : Param → Setter

-- The names of cmd_setParm
unfoldable pub setters : List (List ℕ × Setter)
setters =
    (codes "MYCALL", address Param.mycall)
    ∷ (codes "DEST", address Param.dest)
    ∷ (codes "DIGIS", path)
    ∷ (codes "SYMBOL", symbols)
    ∷ (codes "REPORT_COMMENT", text Param.report_comment)
    ∷ (codes "TIMESTAMP", switch Param.timestamp_on)
    ∷ (codes "COMPRESS", switch Param.compress_on)
    ∷ (codes "ALTITUDE", switch Param.altitude_on)
    ∷ (codes "TRX_TX_FREQ", freq true)
    ∷ (codes "TRX_RX_FREQ", freq false)
    ∷ (codes "TRACKER_TURN_LIMIT", turn_limit)
    ∷ (codes "TRACKER_MAXPAUSE", byte Param.tracker_maxpause 100)
    ∷ (codes "TRACKER_MINPAUSE", byte Param.tracker_minpause 100)
    ∷ (codes "TRACKER_MINDIST", byte Param.tracker_mindist 250)
    ∷ (codes "SOFTAP_PASSWD", text Param.softap_passwd)
    ∷ (codes "HTTP_USER", text Param.http_user)
    ∷ (codes "HTTP_PASSWD", text Param.http_passwd)
    ∷ (codes "IGATE_ON", switch Param.igate_on)
    ∷ (codes "IGATE_HOST", text Param.igate_host)
    ∷ (codes "IGATE_PORT", word Param.igate_port)
    ∷ (codes "IGATE_USERNAME", text Param.igate_username)
    ∷ (codes "IGATE_PASSCODE", word Param.igate_passcode)
    ∷ (codes "IGATE_FILTER", text Param.igate_filter)
    ∷ (codes "DIGIPEATER_ON", switch Param.digipeater_on)
    ∷ (codes "DIGIP_WIDE1_ON", switch Param.digip_wide1_on)
    ∷ (codes "DIGIP_SAR_ON", switch Param.digip_sar_on)
    ∷ []

-- `strchr(val, ',')`: the text in front of the first comma, and that behind it
unfoldable pub split_comma : List ℕ → Option (List ℕ × List ℕ)
split_comma [] = none
split_comma (c ∷ cs) =
    let rest = split_comma cs in
    if c == 44 then some ([], cs) else elim rest [ none ↦ none | some r ↦ some (c ∷ r.0, r.1) ]

-- `*t == '-'`
unfoldable pub is_dash : List ℕ → Bool
is_dash [] = false
is_dash (c ∷ cs) = c == 45

module _ (behind : List ℕ) where
  -- A block of `size` bytes that begins with a string.
  unfoldable pub block : ℕ → List ℕ → List ℕ
  block size val = take size (val ++ (0 ∷ behind))

  -- A text copied into a field of 32 bytes, empty for a dash.
  unfoldable pub ap_field : List ℕ → Option (List ℕ)
  unfolding is_dash block
  ap_field t =
      if is_dash t
      then some (block 32 [])
      else if ltb (length t) 32
      then some (block 32 t)
      else none

  unfoldable pub both : Option (List ℕ) → Option (List ℕ) → Option (List ℕ)
  both none b = none
  both (some a) none = none
  both (some a) (some b) = some (a ++ b)

  -- The bytes of an access point, where the text has a comma and its parts fit.
  unfoldable pub ap_config : List ℕ → Option (List ℕ)
  unfolding split_comma ap_field both
  ap_config val = elim (split_comma val) [
    | none ↦ none
    | some r ↦ both (ap_field r.0) (ap_field r.1)
  ]

  -- An address in memory, and several of them.
  unfoldable pub addr_bytes : Addr → List ℕ
  unfolding block
  addr_bytes a = block 7 a.callsign ++ (a.ssid ∷ a.flags ∷ [])

  unfoldable pub path_bytes : List Addr → List ℕ
  unfolding addr_bytes
  path_bytes [] = behind
  path_bytes (a ∷ ds) = addr_bytes a ++ path_bytes ds

module _ (ee : Eeprom) (behind : List ℕ) (strncasecmp : List ℕ → List ℕ → ℕ → ℕ)
    (scan : ℕ → List ℕ → Option ℕ) where
  abbrev pub kept_reply : Reply × ee.State → Answer × ee.State
  kept_reply r = (message r.0, r.1)

  unfoldable pub parsed : Option (Reply × ee.State) → ee.State → Answer × ee.State
  parsed none s = (outside, s)
  parsed (some r) s = (message r.0, r.1)

  unfoldable pub store : Setter → List ℕ → ee.State → Answer × ee.State
  store (address p) val s = (said (codes "OK"), set ee p (addr_bytes behind (str2addr val false)) s)
  store path val s =
      parsed (parse_digipath ee strncasecmp (λ ds. take 63 (path_bytes behind ds)) val s) s
  store symbols val s = kept_reply (parse_symbol ee val s)
  store (text p) val s = (said (codes "OK"), set ee p (block behind (size_of p) val) s)
  store (switch p) val s = kept_reply (parse_bool_setting ee strncasecmp (offset p) val s)
  store (freq tx) val s = let r = parse_freq ee scan val tx s in (message r.0, r.1.0)
  store turn_limit val s = kept_reply (parse_turn_limit ee scan val s)
  store (byte p most) val s = kept_reply (parse_byte_setting ee scan (offset p) val 0 most s)
  store (word p) val s = kept_reply (parse_word_setting ee scan (offset p) val 0 65535 s)

  -- All access points empty.
  unfoldable pub reset_aps : ℕ → ℕ → ee.State → ee.State
  unfolding block
  reset_aps zero i s = s
  reset_aps (suc n) i s =
      reset_aps n (i + 1)
        (set_param_i ee Param.wifiap i (block behind 32 [] ++ block behind 32 []) s)

  unfoldable pub store_ap : ℕ → Option (List ℕ) → ee.State → Answer × ee.State
  store_ap i config s =
      if ltb 5 i then (said (codes "ERROR. Index out of bounds"), s) else elim config [
        | none ↦ (outside, s)
        | some x ↦ (said (codes "OK"), set_param_i ee Param.wifiap i x s)
      ]

  -- With what was found of the name in the table.
  unfoldable pub store_found : Option Setter → List ℕ → List ℕ → ee.State → Answer × ee.State
  store_found (some x) p val s = store x val s
  store_found none p val s =
      if same_prefix 12 (codes "WIFIAP_RESET") p
      then (said (codes "OK"), reset_aps 6 0 s)
      else if same_prefix 6 (codes "WIFIAP") p
      then store_ap (atoi (drop 6 p)) (ap_config behind val) s
      else (said (codes "ERROR. Unknown setting"), s)

  -- cmd_setParm
  unfoldable pub cmd_set_parm : List ℕ → List ℕ → ee.State → Answer × ee.State
  unfolding store_found
  cmd_set_parm p val s = store_found (find p setters) p val s
