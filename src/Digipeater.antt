-- ===== src/Digipeater.antt =====
-- digipeater.c, check_frame: whether a frame is to be repeated, and the path that it gets.
pub mod Path
pub mod Repeat
mod Tests
use arctic_tracker_teensy.Base.{
  ℕ, ◌+◌, Bool, true, false, ◌&&◌, not, Option, none, some, List, [], ◌∷◌, ◌++◌, bit_and, ◌==◌, ltb,
  length, if◌then◌else◌,
}
use arctic_tracker_teensy.Ax25.{Addr}

-- FLAG_DIGI
abbrev pub flag_digi : ℕ
flag_digi = 0x80

-- "WIDE1" and "SAR"
abbrev pub wide1 : List ℕ
wide1 = 87 ∷ 73 ∷ 68 ∷ 69 ∷ 49 ∷ []

abbrev pub sar : List ℕ
sar = 83 ∷ 65 ∷ 82 ∷ []

-- What str2addr makes of an alias without an SSID.
abbrev pub alias : List ℕ → Addr
alias name = record { callsign = name; ssid = 0; flags = flag_digi }

abbrev pub is_used : Addr → Bool
is_used d = not (bit_and d.flags flag_digi == 0)

-- The digipeaters that the packet has been through already, and the others.
unfoldable pub used : List Addr → List Addr
used [] = []
used (d ∷ ds) = let rest = used ds in if is_used d then d ∷ rest else []

unfoldable pub unused : List Addr → List Addr
unused [] = []
unused (d ∷ ds) = let rest = unused ds in if is_used d then rest else d ∷ ds

abbrev pub in_front : Addr → Option (List Addr) → Option (List Addr)
in_front d none = none
in_front d (some ds) = some (d ∷ ds)

-- What check_frame makes of a path: nothing, a new path, or a write behind its array.
pub data NewPath : Type 0 where
  silent : NewPath
  renewed : List Addr → NewPath
  overrun : NewPath

abbrev pub in_array : Option (List Addr) → NewPath
in_array none = silent
in_array (some path) = if ltb 7 (length path) then overrun else renewed path

module _ (strncasecmp : List ℕ → List ℕ → ℕ → ℕ) where
  -- `strncasecmp("SAR", digis[j].callsign, 3) == 0`
  abbrev pub is_sar : Addr → Bool
  is_sar d = strncasecmp sar d.callsign 3 == 0

  -- `strncasecmp("WIDE1", digis[i].callsign, 5) == 0 && digis[i].ssid == 1`
  abbrev pub is_wide1 : Addr → Bool
  is_wide1 d = strncasecmp wide1 d.callsign 5 == 0 && d.ssid == 1

  -- The path without the first SAR alias, where it has one.
  unfoldable pub without_sar : List Addr → Option (List Addr)
  without_sar [] = none
  without_sar (d ∷ ds) =
      let rest = in_front d (without_sar ds) in if is_sar d then some ds else rest

  -- SAR preemption: only where no one has repeated the packet before.
  abbrev pub preempted : Bool → List Addr → Option (List Addr)
  preempted sar_on [] = none
  preempted sar_on (d ∷ ds) = if sar_on && not (is_used d) then without_sar (d ∷ ds) else none

  -- The path from the first unused digipeater on, once it is known whether SAR is preempted.
  abbrev pub repeated : Bool → List Addr → List Addr → Option (List Addr) → Option (List Addr)
  repeated wide1_on front [] taken = none
  repeated wide1_on front (d ∷ ds) (some rest) = some (front ++ (alias sar ∷ rest))
  repeated wide1_on front (d ∷ ds) none =
      if wide1_on && is_wide1 d then some (front ++ (alias wide1 ∷ ds)) else none

  -- The addresses that check_frame writes into its array, or none where it does not repeat a frame.
  unfoldable pub written : Bool → Bool → Addr → List Addr → Option (List Addr)
  written wide1_on sar_on mycall digis =
      repeated wide1_on (used digis ++ (record mycall { flags = flag_digi } ∷ [])) (unused digis)
        (preempted sar_on digis)

  -- The new path of a frame with these digipeaters: the array has seven places.
  unfoldable pub new_path : Bool → Bool → Addr → List Addr → NewPath
  unfolding written
  new_path wide1_on sar_on mycall digis = in_array (written wide1_on sar_on mycall digis)
