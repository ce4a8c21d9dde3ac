-- ===== src/Config/Apart.antt =====
-- Parameters lie apart in the EEPROM: to set one leaves what is read of another as it was.
use arctic_tracker_teensy.Base.{
  ℕ, zero, suc, ◌+◌, ◌*◌, ◌<◌, ◌≡◌, ◌≢◌, refl, sym, ap, ◌∙◌, ◌⊎◌, inl, inr, Bool, true, Bool-cases,
  ltb→ge, List, [], ◌∷◌, length, arith, ltb, ltb→lt, if◌then◌else◌,
}
use arctic_tracker_teensy.Base.Bytes.{all_below, all_below_sound}
use arctic_tracker_teensy.Config.{Eeprom, eeprom_size}
use arctic_tracker_teensy.Config.Regions.{IsApart, region_kept}
use arctic_tracker_teensy.Config.Layout.{Param, offset, size_of, offset_i}
use arctic_tracker_teensy.Config.Params.{default, get_param_i, set_param_i}
use arctic_tracker_teensy.Config.Layout.Param.{
  version_key, trx_tx_freq, trx_rx_freq, trx_squelch, trx_volume, trx_miclevel, txdelay, txtail,
  maxframe, mycall, dest, ndigis, digis, symbol, symbol_tab, tracker_on, tracker_turn_limit,
  tracker_maxpause, tracker_mindist, tracker_minpause, status_time, timestamp_on, compress_on,
  altitude_on, obj_symbol, obj_symbol_table, obj_id, report_comment, report_beep_on, repeat_on,
  extraturn_on, gps_powersave_on, txmon_on, digip_wide1_on, digip_sar_on, digipeater_on, igate_on,
  igate_host, igate_port, igate_username, igate_passcode, igate_filter, igate_track_on, wifi_on,
  http_on, http_user, http_passwd, softap_passwd, wifiap,
}

-- The place of a parameter in the table, and the parameter at a place.
index : Param → ℕ
index version_key = 0
index trx_tx_freq = 1
index trx_rx_freq = 2
index trx_squelch = 3
index trx_volume = 4
index trx_miclevel = 5
index txdelay = 6
index txtail = 7
index maxframe = 8
index mycall = 9
index dest = 10
index ndigis = 11
index digis = 12
index symbol = 13
index symbol_tab = 14
index tracker_on = 15
index tracker_turn_limit = 16
index tracker_maxpause = 17
index tracker_mindist = 18
index tracker_minpause = 19
index status_time = 20
index timestamp_on = 21
index compress_on = 22
index altitude_on = 23
index obj_symbol = 24
index obj_symbol_table = 25
index obj_id = 26
index report_comment = 27
index report_beep_on = 28
index repeat_on = 29
index extraturn_on = 30
index gps_powersave_on = 31
index txmon_on = 32
index digip_wide1_on = 33
index digip_sar_on = 34
index digipeater_on = 35
index igate_on = 36
index igate_host = 37
index igate_port = 38
index igate_username = 39
index igate_passcode = 40
index igate_filter = 41
index igate_track_on = 42
index wifi_on = 43
index http_on = 44
index http_user = 45
index http_passwd = 46
index softap_passwd = 47
index wifiap = 48

nth : ℕ → List Param → Param
nth i [] = wifiap
nth zero (x ∷ xs) = x
nth (suc i) (x ∷ xs) = nth i xs

param_at : ℕ → Param
unfolding nth
param_at i = nth i (
    version_key ∷ trx_tx_freq ∷ trx_rx_freq ∷ trx_squelch ∷ trx_volume ∷ trx_miclevel ∷ txdelay
    ∷ txtail ∷ maxframe ∷ mycall ∷ dest ∷ ndigis ∷ digis ∷ symbol ∷ symbol_tab ∷ tracker_on
    ∷ tracker_turn_limit ∷ tracker_maxpause ∷ tracker_mindist ∷ tracker_minpause ∷ status_time
    ∷ timestamp_on ∷ compress_on ∷ altitude_on ∷ obj_symbol ∷ obj_symbol_table ∷ obj_id
    ∷ report_comment ∷ report_beep_on ∷ repeat_on ∷ extraturn_on ∷ gps_powersave_on ∷ txmon_on
    ∷ digip_wide1_on ∷ digip_sar_on ∷ digipeater_on ∷ igate_on ∷ igate_host ∷ igate_port
    ∷ igate_username ∷ igate_passcode ∷ igate_filter ∷ igate_track_on ∷ wifi_on ∷ http_on
    ∷ http_user ∷ http_passwd ∷ softap_passwd ∷ wifiap ∷ [])

param_at-index : (x : Param) → param_at (index x) ≡ x
unfolding param_at index
param_at-index version_key = refl
param_at-index x = refl

index-lt : (x : Param) → index x < 49
unfolding index
index-lt version_key = omega arith
index-lt x = omega arith

-- Each parameter and its checksum end before the next one begins.
ordered : ℕ → ℕ → Bool
ordered i j =
    if ltb i j then ltb (offset (param_at i) + size_of (param_at i)) (offset (param_at j)) else true

ordered_table : all_below 49 (λ i. all_below 49 (ordered i)) ≡ true
unfolding ordered all_below param_at offset size_of
ordered_table = refl

ordered-lt :
    (i j : ℕ)
    → ordered i j ≡ true
    → i < j
    → offset (param_at i) + size_of (param_at i) < offset (param_at j)
unfolding ordered
ordered-lt i j h lt = ground arith

end_before : (x y : Param) → index x < index y → offset x + size_of x < offset y
end_before x y lt =
    let row =
      all_below_sound 49 (λ i. all_below 49 (ordered i)) (index x) ordered_table (index-lt x) in
    let entry = all_below_sound 49 (ordered (index x)) (index y) row (index-lt y) in
    let named = ordered-lt (index x) (index y) entry lt in
    let first = rw (param_at-index x) at named in rw (param_at-index y) at first

-- An instance that exists: the six of WIFIAP, and one of any other.
abbrev pub IsPlace : Param → ℕ → Type 0
IsPlace x i = (i ≡ 0) ⊎ ((x ≡ wifiap) × (i < 6))

index-injective : (x y : Param) → index x ≡ index y → x ≡ y
index-injective x y e = sym (param_at-index x) ∙ ap param_at e ∙ param_at-index y

offset_wifiap : (i : ℕ) → offset_i wifiap i ≡ 427 + i * 65
unfolding offset_i
offset_wifiap i = refl

offset_first : (x : Param) → offset_i x 0 ≡ offset x
unfolding offset_i
offset_first x = omega arith

-- Each parameter and its checksum lie inside the EEPROM.
inside_table :
    all_below 49 (λ i. ltb (offset (param_at i) + size_of (param_at i)) eeprom_size) ≡ true
unfolding all_below param_at offset size_of
inside_table = refl

pub offset_i-inside : (x : Param) (i : ℕ) → IsPlace x i → offset_i x i + size_of x < eeprom_size
unfolding size_of
offset_i-inside x i (inl e) =
    let row = all_below_sound 49 _ (index x) inside_table (index-lt x) in
    let named = rw (param_at-index x) at row in rw (e, offset_first x) (ltb→lt _ _ named)
offset_i-inside x i (inr (e, lt)) = rw (e, offset_wifiap i) (omega arith)

pub param_inside : (x : Param) → offset x + size_of x < eeprom_size
param_inside x = rw (offset_first x) at (offset_i-inside x 0 (inl refl))

-- Only the last parameter has more instances than one.
place_first : (x y : Param) (i : ℕ) → IsPlace x i → index x < index y → i ≡ 0
unfolding index
place_first x y i (inl e) lt = e
place_first x y i (inr (e, _)) lt = absurd (omega (arith, ap index e, index-lt y))

places_before :
    (x y : Param) (i j : ℕ)
    → IsPlace x i
    → index x < index y
    → offset_i x i + size_of x < offset_i y j
unfolding offset_i
places_before x y i j place lt = rw (place_first x y i place lt) (omega (arith, end_before x y lt))

instances-IsApart : (i j : ℕ) → i ≢ j → IsApart (offset_i wifiap i) 64 (offset_i wifiap j) 64
instances-IsApart i j ne = rw (offset_wifiap i, offset_wifiap j) (ground arith)

module _ (x y : Param) (i j : ℕ) (xi : IsPlace x i) (yj : IsPlace y j) where
  same-IsApart : x ≡ y → i ≢ j → IsApart (offset_i x i) (size_of x) (offset_i y j) (size_of y)
  unfolding size_of
  same-IsApart e ne = elim xi [
    | inl first ↦ elim yj [
      | inl also ↦ absurd (ne (first ∙ sym also))
      | inr (last, _) ↦ rw (e ∙ last, last) (instances-IsApart i j ne)
    ]
    | inr (last, _) ↦ rw (last, sym e ∙ last) (instances-IsApart i j ne)
  ]

  places-IsApart : (x ≢ y) ⊎ (i ≢ j) → IsApart (offset_i x i) (size_of x) (offset_i y j) (size_of y)
  places-IsApart other = elim (Bool-cases (ltb (index x) (index y))) [
    | inl lt ↦ inl (places_before x y i j xi (ltb→lt _ _ lt))
    | inr ge ↦ elim (Bool-cases (ltb (index y) (index x))) [
      | inl lt ↦ inr (places_before y x j i yj (ltb→lt _ _ lt))
      | inr le ↦
          let e = index-injective x y (omega (arith, ltb→ge _ _ ge, ltb→ge _ _ le)) in
          elim other [ inl ne ↦ absurd (ne e) | inr ne ↦ same-IsApart e ne ]
    ]
  ]

  -- To set a parameter, or an instance of one, leaves what is read of any other as it was.
  pub get_param_i-set_param_i :
      (ee : Eeprom) (val : List ℕ) (s : ee.State)
      → (x ≢ y) ⊎ (i ≢ j)
      → length val ≡ size_of x
      → get_param_i ee y j (set_param_i ee x i val s) ≡ get_param_i ee y j s
  unfolding get_param_i set_param_i
  get_param_i-set_param_i ee val s other long =
      let apart = places-IsApart other in
      ap (λ (r : List ℕ × ℕ). r.0)
        (region_kept ee val s (offset_i x i) (offset_i y j) (size_of y) (default y) (rw long apart)
          (rw long (offset_i-inside x i xi)) (offset_i-inside y j yj))
