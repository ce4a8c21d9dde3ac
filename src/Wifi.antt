-- ===== src/Wifi.antt =====
-- ui/wifi.c: strings in memory, and what is sent to the Wi-Fi module in answer to its commands.
pub mod Read
pub mod Write
pub mod Stored
mod Tests
use arctic_tracker_teensy.Base.{
  ℕ, zero, suc, ◌+◌, ◌*◌, Bool, true, false, Option, none, some, List, [], ◌∷◌, ◌++◌, take, drop,
  ◌==◌, if◌then◌else◌,
}
use arctic_tracker_teensy.Ax25.{Addr}
use arctic_tracker_teensy.Text.{Reply}

-- A line that is sent, a message of ui/text.c, or an access outside an array.
pub data Answer : Type 0 where
  said : List ℕ → Answer
  message : Reply → Answer
  outside : Answer

-- `strcmp(a, b) == 0`
unfoldable pub str_eq : List ℕ → List ℕ → Bool
str_eq [] [] = true
str_eq [] (y ∷ ys) = false
str_eq (x ∷ xs) [] = false
str_eq (x ∷ xs) (y ∷ ys) = let rest = str_eq xs ys in if x == y then rest else false

-- The first entry of a table with a name.
unfoldable pub find {ℓ} : {A : Type ℓ} → List ℕ → List (List ℕ × A) → Option A
unfolding str_eq
find p [] = none
find p ((name, a) ∷ table) = let rest = find p table in if str_eq name p then some a else rest

-- The text at the start of an array, where it ends inside.
unfoldable pub c_text : List ℕ → Option (List ℕ)
c_text [] = none
c_text (c ∷ cs) =
    let rest = c_text cs in
    if c == 0 then some [] else elim rest [ none ↦ none | some t ↦ some (c ∷ t) ]

unfoldable pub say : Option (List ℕ) → Answer
say none = outside
say (some t) = said t

-- A number in memory, the low byte first.
unfoldable pub number : List ℕ → ℕ
number [] = 0
number (b ∷ bs) = b + 256 * number bs

unfoldable pub text_or_empty : Option (List ℕ) → List ℕ
text_or_empty none = []
text_or_empty (some t) = t

unfoldable pub nth : ℕ → List ℕ → ℕ
nth i [] = 0
nth zero (b ∷ bs) = b
nth (suc i) (b ∷ bs) = nth i bs

-- An address in memory, and `n` of them.
unfoldable pub addr_of : List ℕ → Addr
unfolding c_text text_or_empty nth
addr_of bytes = record {
  callsign = text_or_empty (c_text (take 7 bytes));
  ssid = nth 7 bytes;
  flags = nth 8 bytes;
}

unfoldable pub addrs_of : ℕ → List ℕ → List Addr
unfolding addr_of
addrs_of zero bytes = []
addrs_of (suc n) bytes = addr_of (take 9 bytes) ∷ addrs_of n (drop 9 bytes)
