-- ===== src/Text/Tests.antt =====
-- Settings in an EEPROM that is a function, and a sentence split at its commas.
use arctic_tracker_teensy.Base.{
  ℕ, ◌≡◌, refl, Option, none, some, List, [], ◌∷◌, arith, ◌%◌, ◌^◌, true, false,
}
use arctic_tracker_teensy.Config.{get_byte_param}
use arctic_tracker_teensy.Config.Tests.{array, erased}
use arctic_tracker_teensy.Printf.{read_digits, is_digit}
use arctic_tracker_teensy.Text.{parse_byte_setting, tokenize, overfull, returned, is_delim}
use arctic_tracker_teensy.Text.Limits.{Stored, parse_byte_setting-Stored}
use arctic_tracker_teensy.Text.Tokens.{IsToken, AllTokens, joined, tokenize-joined}

-- Reads the digits at the start of the text.
abbrev scan : ℕ → List ℕ → Option ℕ
scan w [] = none
scan w (c ∷ cs) = some (read_digits 0 (c ∷ cs) % 2 ^ w)

parse_byte_setting-Stored_example :
    Stored
      (some 25)
      10
      50
      (λ n s'. get_byte_param array 19 7 s' ≡ n)
      erased
      (parse_byte_setting array scan 19 (50 ∷ 53 ∷ []) 10 50 erased)
unfolding read_digits is_digit
parse_byte_setting-Stored_example =
    parse_byte_setting-Stored array scan 19 (50 ∷ 53 ∷ []) 10 50 erased 7 (omega arith)
      (omega arith)

-- "7,,89", with room for two tokens
abbrev line : List ℕ
line = 55 ∷ 44 ∷ 44 ∷ 56 ∷ 57 ∷ []

comma : is_delim (44 ∷ []) 44 ≡ true
unfolding is_delim
comma = refl

one-IsToken : IsToken (44 ∷ []) (55 ∷ [])
unfolding IsToken is_delim
one-IsToken = ((λ e. omega arith), (refl, tt))

more-AllTokens : AllTokens (44 ∷ []) ([] ∷ (56 ∷ 57 ∷ []) ∷ [])
unfolding AllTokens IsToken is_delim
more-AllTokens = (tt, (((λ e. omega arith), (refl, ((λ e. omega arith), (refl, tt)))), tt))

tokenize-joined_example :
    (tokenize line 2 (44 ∷ []) false ≡ overfull ((55 ∷ []) ∷ [] ∷ []))
    × (returned (tokenize line 2 (44 ∷ []) false) ≡ some 3)
unfolding joined
tokenize-joined_example =
    tokenize-joined (44 ∷ []) 44 comma (λ e. omega arith) (55 ∷ []) ([] ∷ (56 ∷ 57 ∷ []) ∷ []) 2
      one-IsToken more-AllTokens (omega arith)
