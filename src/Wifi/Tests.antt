-- ===== src/Wifi/Tests.antt =====
-- Parameters that the Wi-Fi module sets and reads.
use arctic_tracker_teensy.Base.{
  ℕ, zero, suc, ◌≡◌, refl, Option, none, List, codes, arith, replicate,
}
use arctic_tracker_teensy.Config.Blocks.{AllBytes}
use arctic_tracker_teensy.Config.Layout.{Param, size_of}
use arctic_tracker_teensy.Config.Tests.{array, erased}
use arctic_tracker_teensy.Printf.{is_digit, is_space, read_digits, atoi}
use arctic_tracker_teensy.Ax25.Text.{same_prefix}
use arctic_tracker_teensy.Tracker.ObjectName.{NoNul}
use arctic_tracker_teensy.Wifi.{said, outside, find, str_eq}
use arctic_tracker_teensy.Wifi.Read.{getters, cmd_get_parm}
use arctic_tracker_teensy.Wifi.Write.{setters, store_ap, ap_config, cmd_set_parm}
use arctic_tracker_teensy.Wifi.Stored.{cmd_get_parm-cmd_set_parm}

abbrev never : List ℕ → List ℕ → ℕ → ℕ
never = λ _ _ _. 1

abbrev unread : ℕ → List ℕ → Option ℕ
unread = λ _ _. none

abbrev behind : List ℕ
behind = replicate 64 7

abbrev after_set : List ℕ → List ℕ → ℕ → ℕ
after_set = λ p val. (cmd_set_parm array behind never unread p val erased).1

-- No comma
no_comma :
    (cmd_set_parm array behind never unread (codes "WIFIAP2") (codes "home") erased).0 ≡ outside
unfolding cmd_set_parm find setters same_prefix store_ap atoi is_space read_digits is_digit
    ap_config
no_comma = refl

replicate-AllBytes : (n : ℕ) → AllBytes (replicate n 7)
unfolding AllBytes
replicate-AllBytes zero = tt
replicate-AllBytes (suc n) = (omega arith, replicate-AllBytes n)

admin-NoNul : NoNul (codes "admin")
unfolding NoNul
admin-NoNul = (omega arith, (omega arith, (omega arith, (omega arith, (omega arith, tt)))))

admin-AllBytes : AllBytes (codes "admin")
unfolding AllBytes
admin-AllBytes = (omega arith, (omega arith, (omega arith, (omega arith, (omega arith, tt)))))

cmd_get_parm-cmd_set_parm_example :
    cmd_get_parm array (codes "HTTP_USER") (after_set (codes "HTTP_USER") (codes "admin"))
    ≡ said (codes "admin")
unfolding find str_eq getters setters size_of
cmd_get_parm-cmd_set_parm_example =
    cmd_get_parm-cmd_set_parm array behind never unread Param.http_user (codes "admin") erased
      (codes "HTTP_USER") refl refl admin-NoNul admin-AllBytes (replicate-AllBytes 64) (omega arith)
      (omega arith)
