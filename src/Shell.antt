-- ===== src/Shell.antt =====
-- ui/commands.c: readline, and the commands that show or store one parameter. What is written is
-- a text, without the end of the line. The characters that the stream will give are a list.
pub mod Lines
mod Tests
use arctic_tracker_teensy.Base.{
  ℕ, zero, suc, ◌+◌, ◌*◌, ◌/◌, ◌%◌, Bool, ◌||◌, Option, none, some, List, [], ◌∷◌, ◌++◌, ltb, ◌==◌,
  codes, if◌then◌else◌, get_elem?,
}
use arctic_tracker_teensy.Printf.{decimal}
use arctic_tracker_teensy.Config.{Eeprom, set_param, get_param, get_byte_param}
use arctic_tracker_teensy.Config.Params.{first_byte, word_bytes}
use arctic_tracker_teensy.Text.{Reply, print_bool_setting, parse_bool_setting, parse_byte_setting}
use arctic_tracker_teensy.Wifi.{Answer, said, message, outside, c_text, number}
use arctic_tracker_teensy.Wifi.Write.{block}

-- What readline comes to: a line in the buffer, with its NUL; an interrupt, with what is in the
-- buffer; or it waits for more. Behind it stands what is left in the stream.
pub data Input : Type 0 where
  line : List ℕ → List ℕ → Input
  interrupted : List ℕ → List ℕ → Input
  waits : Input

unfoldable pub stored_first : ℕ → Input → Input
stored_first x (line cs left) = line (x ∷ cs) left
stored_first x (interrupted cs left) = interrupted (x ∷ cs) left
stored_first x waits = waits

-- The character behind a carriage return is dropped.
unfoldable pub after_return : List ℕ → Input
after_return [] = waits
after_return (c ∷ stream) = line [] stream

-- readline, with room for `max` characters and the NUL
unfoldable pub readline : ℕ → List ℕ → Input
unfolding stored_first after_return
readline zero stream = line [] stream
readline (suc max) [] = waits
readline (suc max) (x ∷ stream) =
    let rest = stored_first x (readline max stream) in
    if x == 3
    then interrupted [] stream
    else if x == 13
    then after_return stream
    else if x == 10
    then line [] stream
    else rest

-- A name, a blank and a value
unfoldable pub shown : List ℕ → Option (List ℕ) → Answer
shown name none = outside
shown name (some t) = said (name ++ (32 ∷ t))

module _ (ee : Eeprom) (ee_addr : ℕ) (default_val name : List ℕ) where
  -- _parameter_setting_bool, with `argv[start]` where there is one
  unfoldable pub parameter_setting_bool :
      (List ℕ → List ℕ → ℕ → ℕ) → Option (List ℕ) → ee.State → Answer × ee.State
  unfolding shown
  parameter_setting_bool strncasecmp none s =
      (shown name (some (print_bool_setting ee ee_addr (first_byte default_val) s)), s)
  parameter_setting_bool strncasecmp (some val) s =
      let r = parse_bool_setting ee strncasecmp ee_addr val s in (message r.0, r.1)

  -- _parameter_setting_byte
  unfoldable pub parameter_setting_byte :
      (ℕ → List ℕ → Option ℕ) → ℕ → ℕ → Option (List ℕ) → ee.State → Answer × ee.State
  unfolding shown
  parameter_setting_byte scan llimit ulimit none s =
      (shown name (some (decimal (get_byte_param ee ee_addr (first_byte default_val) s))), s)
  parameter_setting_byte scan llimit ulimit (some val) s =
      let r = parse_byte_setting ee scan ee_addr val llimit ulimit s in (message r.0, r.1)

  -- _parameter_setting_string, where memory goes on with `behind` after the argument
  unfoldable pub parameter_setting_string :
      List ℕ → ℕ → Option (List ℕ) → ee.State → Answer × ee.State
  unfolding shown
  parameter_setting_string behind size none s =
      (shown name (c_text (get_param ee ee_addr size default_val s).0), s)
  parameter_setting_string behind size (some val) s =
      (said (codes "OK"), set_param ee ee_addr (block behind size val) s)

  -- `data` of _parameter_setting_uint, which keeps `before` where there is no number.
  unfoldable pub scanned : ℕ → Option ℕ → ℕ
  scanned before none = before
  scanned before (some n) = n

  -- _parameter_setting_uint
  unfoldable pub parameter_setting_uint :
      (ℕ → List ℕ → Option ℕ) → ℕ → ℕ → ℕ → Option (List ℕ) → ee.State → Answer × ee.State
  unfolding shown scanned
  parameter_setting_uint scan before llimit ulimit none s =
      (shown name (some (decimal (number (get_param ee ee_addr 2 default_val s).0))), s)
  parameter_setting_uint scan before llimit ulimit (some val) s =
      let n = scanned before (scan 16 val) in
      if ltb n llimit || ltb ulimit n
      then (said (codes "ERROR: out of bounds"), s)
      else (said (codes "OK"), set_param ee ee_addr (word_bytes n) s)
