-- ===== src/Ui/Status.antt =====
-- ui/gui_status.c: the status screens. What is read from the other parts of the device is given,
-- and a voltage as text.
use arctic_tracker_teensy.Base.{
  ℕ, ◌+◌, ◌/◌, ◌%◌, Bool, List, [], ◌∷◌, ◌++◌, codes, ltb, ◌==◌, if◌then◌else◌,
}
use arctic_tracker_teensy.Printf.{padded}
use arctic_tracker_teensy.Ui.Screen.{drawn, Plot, ◌>>◌, clear}
use arctic_tracker_teensy.Ui.Shapes.{h_line}
use arctic_tracker_teensy.Ui.Figures.{write_text, label, flag, battery, welcome}

-- NSCREENS
abbrev pub nscreens : ℕ
nscreens = 6

-- What the screens show of the device: the parameters WIFI_ON, IGATE_ON, DIGIPEATER_ON, MYCALL and
-- TRX_TX_FREQ, the battery in mV and as text, the fix and its lines, and what the Wi-Fi module
-- says.
pub record Device : Type 0 where
  pub wifi_on : Bool
  pub igate_on : Bool
  pub digipeater_on : Bool
  pub mycall : List ℕ
  pub tx_freq : ℕ
  pub batt : ℕ
  pub batt_text : List ℕ
  pub is_fixed : Bool
  pub lat : List ℕ
  pub long : List ℕ
  pub date : List ℕ
  pub wifi_status : List ℕ
  pub conf : List ℕ
  pub ip : List ℕ
  pub wifi_enabled : Bool
  pub ap_ssid : List ℕ
  pub ap_ip : List ℕ

-- The level of the battery indicator
unfoldable pub battery_level : ℕ → ℕ
battery_level batt =
    if ltb 8000 batt
    then 4
    else if ltb 7800 batt
    then 3
    else if ltb 7400 batt
    then 2
    else if ltb 7200 batt
    then 1
    else 0

-- status_heading
unfoldable pub status_heading : Device → List ℕ → Plot
unfolding battery_level
status_heading d text = do
  label 0 0 text
  flag 32 0 (codes "i") d.wifi_on
  flag 41 0 (codes "g") d.igate_on
  flag 50 0 (codes "d") d.digipeater_on
  battery 70 3 (battery_level d.batt)
  h_line 0 10 66

-- LINE1, LINE2 and LINE3
unfoldable pub line1 : List ℕ → Plot
line1 text = write_text 0 15 text

unfoldable pub line2 : List ℕ → Plot
line2 text = write_text 0 26 text

unfoldable pub line3 : List ℕ → Plot
line3 text = write_text 0 37 text

-- status_screen1
unfoldable pub status_screen1 : Device → Plot
unfolding line1 line2 line3
status_screen1 d = do
  clear
  status_heading d (codes "APRS")
  line1 d.mycall
  line2 (padded 3 (d.tx_freq / 10000) ++ (46 ∷ (padded 3 (d.tx_freq / 10 % 1000) ++ codes " MHz")))
  line3 (codes "W1,W2-1,SAR")

-- status_screen2
unfoldable pub status_screen2 : Device → Plot
unfolding line1 line2 line3
status_screen2 d = do
  clear
  status_heading d (codes "GPS")
  (if d.is_fixed
      then (do line1 d.lat; line2 d.long; line3 d.date)
      else line1 (codes "Searching..."))

-- `index(buf, '(')`: the text in front of a parenthesis
unfoldable pub cut_paren : List ℕ → List ℕ
cut_paren [] = []
cut_paren (c ∷ cs) = let rest = cut_paren cs in if c == 40 then [] else c ∷ rest

-- status_screen3
unfoldable pub status_screen3 : Device → Plot
unfolding line1 line2 line3 cut_paren
status_screen3 d = do
  clear
  status_heading d (codes "WIFI")
  line1 d.wifi_status
  line2 (cut_paren d.conf)
  line3 d.ip

-- status_screen4
unfoldable pub status_screen4 : Device → Plot
unfolding line1 line2 line3
status_screen4 d = do
  clear
  status_heading d (codes "W-AP")
  line1 (if d.wifi_enabled then codes "Enabled" else codes "Disabled")
  line2 d.ap_ssid
  line3 d.ap_ip

-- The lines about the battery.
unfoldable pub battery_lines : ℕ → Plot
unfolding line2 line3
battery_lines batt =
    if ltb 8500 batt
    then (do line2 (codes "Ext power"); line3 (codes "Not charging."))
    else if ltb 8350 batt
    then line2 (codes "Max/Charging..")
    else if ltb 7800 batt
    then line2 (codes "Full.")
    else if ltb 7400 batt
    then line2 (codes "Ok.")
    else if ltb 7200 batt
    then (do line2 (codes "Low."); line3 (codes "Need charging."))
    else (do line2 (codes "Empty."); line3 (codes "Charge ASAP!"))

-- status_screen5
unfoldable pub status_screen5 : Device → Plot
unfolding line1 battery_lines
status_screen5 d = do
  clear
  status_heading d (codes "BATT")
  line1 d.batt_text
  battery_lines d.batt

-- status_show
unfoldable pub status_show : ℕ → Device → Plot
status_show current d =
    if current == 0
    then welcome
    else if current == 1
    then status_screen1 d
    else if current == 2
    then status_screen2 d
    else if current == 3
    then status_screen3 d
    else if current == 4
    then status_screen4 d
    else if current == 5
    then status_screen5 d
    else drawn

-- status_next
unfoldable pub status_next : ℕ → ℕ
status_next current = (current + 1) % nscreens
