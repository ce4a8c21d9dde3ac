-- ===== src/Text.antt =====
-- ui/text.c: settings parsed into the EEPROM, and strings split into tokens. sscanf of a number,
-- strncasecmp and the image of an address list in memory are parameters.
pub mod Limits
pub mod Tokens
mod Tests
use arctic_tracker_teensy.Base.{
  ℕ, zero, suc, ◌+◌, ◌/◌, ◌%◌, Bool, true, false, ◌||◌, ◌&&◌, Option, none, some, List, [], ◌∷◌,
  ltb, ◌==◌, length, if◌then◌else◌,
}
use arctic_tracker_teensy.Config.{Eeprom, set_param, set_byte_param, get_byte_param}
use arctic_tracker_teensy.Ax25.{Addr}
use arctic_tracker_teensy.Ax25.Text.{args2digis}

-- The result messages.
pub data Reply : Type 0 where
  done : Reply
  not_bool : Reply
  below : ℕ → Reply
  above : ℕ → Reply
  malformed : Reply
  not_two : Reply

-- Offsets of parameters in config.h
abbrev pub trx_tx_freq : ℕ
trx_tx_freq = 3

abbrev pub trx_rx_freq : ℕ
trx_rx_freq = 8

abbrev pub ndigis_offset : ℕ
ndigis_offset = 45

abbrev pub digis_offset : ℕ
digis_offset = 47

abbrev pub symbol : ℕ
symbol = 112

abbrev pub symbol_tab : ℕ
symbol_tab = 114

abbrev pub tracker_turn_limit : ℕ
tracker_turn_limit = 118

-- The bytes of a 16-bit and of a 32-bit number in memory.
abbrev pub word : ℕ → List ℕ
word n = n % 256 ∷ n / 256 % 256 ∷ []

abbrev pub dword : ℕ → List ℕ
dword n = n % 256 ∷ n / 256 % 256 ∷ n / 65536 % 256 ∷ n / 16777216 % 256 ∷ []

-- The tests on a number that was read, and what is done with one that passes.
unfoldable pub limited : {S : Type 0} → Option ℕ → ℕ → ℕ → (ℕ → S) → S → Reply × S
limited none llimit ulimit set s = (malformed, s)
limited (some n) llimit ulimit set s =
    if ltb n llimit
    then (below llimit, s)
    else if ltb ulimit n
    then (above ulimit, s)
    else (done, set n)

module _ (ee : Eeprom) where
  module _ (strncasecmp : List ℕ → List ℕ → ℕ → ℕ) where
    -- parseBoolSetting
    unfoldable pub parse_bool_setting : ℕ → List ℕ → ee.State → Reply × ee.State
    parse_bool_setting ee_addr val s =
        if strncasecmp (111 ∷ 110 ∷ []) val 2 == 0
          || strncasecmp (116 ∷ 114 ∷ 117 ∷ 101 ∷ []) val 1 == 0
        then (done, set_byte_param ee ee_addr 1 s)
        else if strncasecmp (111 ∷ 102 ∷ 102 ∷ []) val 2 == 0
            || strncasecmp (102 ∷ 97 ∷ 108 ∷ 115 ∷ 101 ∷ []) val 1 == 0
        then (done, set_byte_param ee ee_addr 0 s)
        else (not_bool, s)

  -- printBoolSetting
  unfoldable pub print_bool_setting : ℕ → ℕ → ee.State → List ℕ
  print_bool_setting ee_addr default_val s =
      if get_byte_param ee ee_addr default_val s == 0 then 79 ∷ 70 ∷ 70 ∷ [] else 79 ∷ 78 ∷ []

  -- `sscanf` of an unsigned number of `w` bits
  module _ (scan : ℕ → List ℕ → Option ℕ) where
    -- parseByteSetting
    unfoldable pub parse_byte_setting : ℕ → List ℕ → ℕ → ℕ → ee.State → Reply × ee.State
    parse_byte_setting ee_addr val llimit ulimit s =
        limited (scan 8 val) llimit ulimit (λ n. set_byte_param ee ee_addr n s) s

    -- parseWordSetting
    unfoldable pub parse_word_setting : ℕ → List ℕ → ℕ → ℕ → ee.State → Reply × ee.State
    parse_word_setting ee_addr val llimit ulimit s =
        limited (scan 16 val) llimit ulimit (λ n. set_param ee ee_addr (word n) s) s

    -- parseTurnLimit
    unfoldable pub parse_turn_limit : List ℕ → ee.State → Reply × ee.State
    parse_turn_limit val s =
        limited (scan 16 val) 0 360 (λ n. set_param ee tracker_turn_limit (word n) s) s

    -- parseFreq, with the arguments of the calls of radio_setFreq
    unfoldable pub parse_freq : List ℕ → Bool → ee.State → Reply × (ee.State × List (ℕ × ℕ))
    parse_freq val tx s =
        limited (scan 32 val) 1440000 1460000
          (λ f.
            if tx
            then (set_param ee trx_tx_freq (dword f) s, (f, 0) ∷ [])
            else (set_param ee trx_rx_freq (dword f) s, (0, f) ∷ []))
          (s, [])

  -- parseSymbol
  unfoldable pub parse_symbol : List ℕ → ee.State → Reply × ee.State
  parse_symbol (tab ∷ sym ∷ []) s =
      (done, set_byte_param ee symbol sym (set_byte_param ee symbol_tab tab s))
  parse_symbol val s = (not_two, s)

  module _ (strncasecmp : List ℕ → List ℕ → ℕ → ℕ) (image : List Addr → List ℕ) where
    -- `argc == 1 && strncasecmp("off", argv[0], 3) == 0`
    unfoldable pub is_off : ℕ → List (List ℕ) → Bool
    is_off argc [] = false
    is_off argc (arg ∷ args) = argc == 1 && strncasecmp (111 ∷ 102 ∷ 102 ∷ []) arg 3 == 0

    -- parseDigipathTokens
    unfoldable pub parse_digipath_tokens : ℕ → List (List ℕ) → ee.State → Reply × ee.State
    parse_digipath_tokens argc argv s =
        let r = args2digis argc argv in
        if is_off argc argv
        then (done, set_byte_param ee ndigis_offset 0 s)
        else (done, set_byte_param ee ndigis_offset r.1 (set_param ee digis_offset (image r.0) s))

-- Whether a character is among the delimiters.
unfoldable pub is_delim : List ℕ → ℕ → Bool
is_delim [] c = false
is_delim (d ∷ delim) c = let rest = is_delim delim c in if c == d then true else rest

-- strsep: the token, and what is left unless the string has ended
unfoldable pub strsep : List ℕ → List ℕ → List ℕ × Option (List ℕ)
strsep delim [] = ([], none)
strsep delim (c ∷ buf) =
    let rest = strsep delim buf in if is_delim delim c then ([], some buf) else (c ∷ rest.0, rest.1)

-- The text up to a quote, and what is left; none where there is no quote, so that the code goes on
-- behind the end of the string.
unfoldable pub quoted : List ℕ → Option (List ℕ × List ℕ)
quoted [] = none
quoted (c ∷ buf) =
    let rest = quoted buf in
    if c == 34 then some ([], buf) else elim rest [ none ↦ none | some r ↦ some (c ∷ r.0, r.1) ]

-- What tokenize does: it comes to the end with these tokens, or there is no more room behind them, or
-- it reads outside its buffers.
pub data Scan : Type 0 where
  counted : List (List ℕ) → Scan
  overfull : List (List ℕ) → Scan
  outside : Scan

-- What tokenize returns, a byte.
unfoldable pub returned : Scan → Option ℕ
returned (counted ts) = some (length ts % 256)
returned (overfull ts) = some (suc (length ts) % 256)
returned outside = none

unfoldable pub with_token : List ℕ → Scan → Scan
with_token token (counted ts) = counted (token ∷ ts)
with_token token (overfull ts) = overfull (token ∷ ts)
with_token token outside = outside

-- `!merge || *token != '\0'`
unfoldable pub kept : Bool → List ℕ → Bool
kept true [] = false
kept merge token = true

-- One round of the loop of tokenize: it stores a token, skips an empty one, ends with the last
-- token, or goes on behind the end of the string.
pub data Round : Type 0 where
  stored : List ℕ → List ℕ → Round
  skipped : List ℕ → Round
  last : List ℕ → Round
  lost : Round

unfoldable pub quoted_token : Option (List ℕ × List ℕ) → Round
quoted_token none = lost
quoted_token (some (token, buf)) = stored token buf

unfoldable pub plain_token : Bool → List ℕ × Option (List ℕ) → Round
plain_token merge (token, none) = last token
plain_token merge (token, some buf) = if kept merge token then stored token buf else skipped buf

unfoldable pub next_token : List ℕ → Bool → List ℕ → Round
next_token delim merge [] = last []
next_token delim merge (c ∷ buf) =
    if c == 34 then quoted_token (quoted buf) else plain_token merge (strsep delim (c ∷ buf))

-- What follows a round, where `loop` is the rest of the loop.
unfoldable pub follow : Bool → ℕ → Round → (ℕ → List ℕ → Scan) → Scan
follow merge left (stored token buf) loop = with_token token (loop left buf)
follow merge left (skipped buf) loop = loop (suc left) buf
follow merge left (last token) loop = counted (if kept merge token then token ∷ [] else [])
follow merge left lost loop = outside

-- The loop of tokenize, with `left` tokens to go at most.
unfoldable pub tokenize_loop : List ℕ → Bool → ℕ → ℕ → List ℕ → Scan
tokenize_loop delim merge zero left buf = outside
tokenize_loop delim merge (suc fuel) zero buf = if merge then outside else overfull []
tokenize_loop delim merge (suc fuel) (suc left) buf =
    follow merge left (next_token delim merge buf) (tokenize_loop delim merge fuel)

-- tokenize: every round but the last takes a character off the string.
unfoldable pub tokenize : List ℕ → ℕ → List ℕ → Bool → Scan
tokenize buf maxtokens delim merge = tokenize_loop delim merge (2 + length buf) maxtokens buf

-- parseDigipath, where the tokens can be read
module _ (ee : Eeprom) where
  module _ (strncasecmp : List ℕ → List ℕ → ℕ → ℕ) (image : List Addr → List ℕ) where
    unfoldable pub parse_digipath : List ℕ → ee.State → Option (Reply × ee.State)
    parse_digipath line s = elim (tokenize line 7 (32 ∷ 9 ∷ 44 ∷ []) false) [
      | counted ts ↦ some (parse_digipath_tokens ee strncasecmp image (length ts % 256) ts s)
      | overfull ts ↦ some (parse_digipath_tokens ee strncasecmp image (suc (length ts) % 256) ts s)
      | outside ↦ none
    ]
