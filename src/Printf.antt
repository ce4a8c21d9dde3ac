-- ===== src/Printf.antt =====
-- The conversions of sprintf, and of atoi and toupper, that the sources use, on unsigned numbers
-- of at most 32 bits. A string is the list of its characters without the NUL.
pub mod Digits
use arctic_tracker_teensy.Base.{
  ℕ, zero, suc, ◌+◌, ◌-◌, ◌*◌, ◌/◌, ◌%◌, Bool, ◌&&◌, ◌||◌, List, [], ◌∷◌, ◌++◌, ltb, leb, ◌==◌,
  length, replicate, if◌then◌else◌,
}

-- The decimal digits of `n` in front of `acc`, with `fuel` digits at most.
unfoldable pub decimal_loop : ℕ → ℕ → List ℕ → List ℕ
decimal_loop zero n acc = acc
decimal_loop (suc fuel) n acc =
    let rest = decimal_loop fuel (n / 10) ((48 + n % 10) ∷ acc) in
    if ltb n 10 then (48 + n) ∷ acc else rest

-- `%u`, and `%d` of a number that is not negative
unfoldable pub decimal : ℕ → List ℕ
decimal n = decimal_loop 10 n []

-- `%0wu`
unfoldable pub padded : ℕ → ℕ → List ℕ
padded w n = replicate (w - length (decimal n)) 48 ++ decimal n

unfoldable pub is_digit : ℕ → Bool
is_digit c = leb 48 c && leb c 57

unfoldable pub read_digits : ℕ → List ℕ → ℕ
read_digits acc [] = acc
read_digits acc (c ∷ cs) =
    let rest = read_digits (acc * 10 + (c - 48)) cs in if is_digit c then rest else acc

unfoldable pub is_space : ℕ → Bool
is_space c = c == 32 || (leb 9 c && leb c 13)

-- atoi, as a 32-bit number in two's complement
unfoldable pub atoi : List ℕ → ℕ
atoi [] = 0
atoi (c ∷ cs) =
    let rest = atoi cs in
    if is_space c
    then rest
    else if c == 45
    then (4294967296 - read_digits 0 cs % 4294967296) % 4294967296
    else if c == 43
    then read_digits 0 cs
    else read_digits 0 (c ∷ cs)

unfoldable pub toupper : ℕ → ℕ
toupper c = if leb 97 c && leb c 122 then c - 32 else c

-- `sscanf` with `%2u` at two digits: the number and what is left
unfoldable pub scan_two : List ℕ → ℕ × List ℕ
scan_two [] = (0, [])
scan_two (c ∷ []) = (c - 48, [])
scan_two (c ∷ d ∷ cs) = ((c - 48) * 10 + (d - 48), cs)
