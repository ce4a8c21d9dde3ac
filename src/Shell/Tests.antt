-- ===== src/Shell/Tests.antt =====
-- Lines that are read, and a text that a command stores.
use arctic_tracker_teensy.Base.{◌≡◌, refl, some, none, ◌∷◌, ◌++◌, codes, arith, replicate}
use arctic_tracker_teensy.Config.Layout.{Param}
use arctic_tracker_teensy.Config.Params.{default}
use arctic_tracker_teensy.Config.Tests.{array, erased}
use arctic_tracker_teensy.Config.{get_param, set_param, xor_all}
use arctic_tracker_teensy.Run.{update}
use arctic_tracker_teensy.Wifi.{said, c_text}
use arctic_tracker_teensy.Wifi.Write.{block}
use arctic_tracker_teensy.Shell.{line, interrupted, readline, parameter_setting_string}
use arctic_tracker_teensy.Shell.Lines.{IsPlain, readline-line}

-- Ctrl-C
interrupt : readline 10 (codes "ab" ++ (3 ∷ codes "cd")) ≡ interrupted (codes "ab") (codes "cd")
unfolding readline
interrupt = refl

hello-IsPlain : IsPlain (codes "hello")
unfolding IsPlain
hello-IsPlain = ground arith

-- A line of five characters, with room for four.
readline-line_example :
    readline 4 (codes "hello" ++ (13 ∷ 10 ∷ codes "next"))
    ≡ line (codes "hell") (codes "o" ++ (13 ∷ 10 ∷ codes "next"))
readline-line_example = readline-line (codes "hello") 4 10 (codes "next") hello-IsPlain

-- A text that is stored is shown.
stored_host :
    (parameter_setting_string array 209
      (default Param.igate_host)
      (codes "IGATE_HOST")
      (replicate 40 7)
      8
      none
      (parameter_setting_string array 209
        (default Param.igate_host)
        (codes "IGATE_HOST")
        (replicate 40 7)
        8
        (some (codes "a.b"))
        erased).1).0
    ≡ said (codes "IGATE_HOST a.b")
unfolding parameter_setting_string block get_param set_param xor_all c_text update
stored_host = refl
