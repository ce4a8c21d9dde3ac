-- ===== src/Ax25/Parse.antt =====
-- An address printed by addr2str is read back by str2addr, and a path from its arguments.
use arctic_tracker_teensy.Base.{
  ℕ, zero, suc, ◌%◌, ◌≤◌, ◌<◌, ◌≡◌, ◌≢◌, refl, ap, ap₂, inl, inr, Bool, false, List, [], ◌∷◌, ◌++◌,
  arith, length, take, map, ◌==◌, ne→==, ==→eq, ge→ltb, Bool-cases, if◌then◌else◌,
}
use arctic_tracker_teensy.Base.Bits.{and_nibble}
use arctic_tracker_teensy.Printf.{decimal, toupper}
use arctic_tracker_teensy.Printf.Digits.{atoi-decimal}
use arctic_tracker_teensy.Ax25.{Addr}
use arctic_tracker_teensy.Ax25.Text.{
  flag_digi, str2addr_loop, str2addr, addr2str, convert, args2digis,
}

-- Characters that str2addr keeps as they are.
unfoldable pub IsCall : List ℕ → Type 0
IsCall [] = Unit
IsCall (c ∷ cs) = (c ≢ 0) × ((c ≢ 45) × ((toupper c ≡ c) × IsCall cs))

-- A callsign that fits, with an SSID.
pub record IsPlain (a : Addr) : Type 0 where
  pub call : IsCall a.callsign
  pub short : length a.callsign ≤ 6
  pub four_bits : a.ssid < 16

loop_alone : (n : ℕ) (cs : List ℕ) → IsCall cs → length cs ≤ n → str2addr_loop n cs ≡ (cs, 0)
unfolding str2addr_loop IsCall
loop_alone zero [] ok short = refl
loop_alone zero (c ∷ cs) ok short = absurd (omega arith)
loop_alone (suc n) [] ok short = refl
loop_alone (suc n) (c ∷ cs) (nul, (dash, (upper, ok))) short =
    rw (ne→== c 0 nul, ne→== c 45 dash, loop_alone n cs ok (omega arith), upper) refl

loop_ssid :
    (n : ℕ) (cs : List ℕ) (ssid : ℕ)
    → IsCall cs
    → length cs < n
    → ssid < 16
    → str2addr_loop n (cs ++ (45 ∷ decimal ssid)) ≡ (cs, ssid)
unfolding str2addr_loop IsCall
loop_ssid zero cs ssid ok short lt = absurd (omega arith)
loop_ssid (suc n) [] ssid ok short lt =
    let byte : ssid % 256 ≡ ssid = omega arith in rw (atoi-decimal ssid (omega arith), byte) refl
loop_ssid (suc n) (c ∷ cs) ssid (nul, (dash, (upper, ok))) short lt =
    rw (ne→== c 0 nul, ne→== c 45 dash, loop_ssid n cs ssid ok (omega arith) lt, upper) refl

-- What str2addr makes of a printed address: the flags are not printed.
abbrev pub reread : Bool → Addr → Addr
reread digi a = record {
  callsign = a.callsign;
  ssid = a.ssid;
  flags = if digi then flag_digi else 0;
}

-- str2addr reads back the callsign and the SSID that addr2str printed, for a callsign of at most
-- six characters without a dash or lower case letters, and an SSID below 16.
pub str2addr-addr2str :
    (a : Addr) (digi : Bool) → IsPlain a → str2addr (addr2str a) digi ≡ reread digi a
unfolding str2addr addr2str
str2addr-addr2str a digi v =
    let short = v.short in
    let four = v.four_bits in
    elim (Bool-cases (a.ssid == 0)) [
      | inl e ↦ rw (e, loop_alone 7 a.callsign v.call (omega arith), ==→eq a.ssid 0 e) refl
      | inr e ↦
          let nibble : a.ssid % 16 ≡ a.ssid = omega arith in
          rw (e, loop_ssid 7 a.callsign a.ssid v.call (omega arith) four, and_nibble a.ssid, nibble)
            refl
    ]

unfoldable pub AllPlain : List Addr → Type 0
AllPlain [] = Unit
AllPlain (d ∷ ds) = IsPlain d × AllPlain ds

convert-printed :
    (ds : List Addr)
    → AllPlain ds
    → convert (take (length ds) (map addr2str ds)) ≡ map (reread false) ds
unfolding convert AllPlain
convert-printed [] all = refl
convert-printed (d ∷ ds) (v, all) = ap₂ ◌∷◌ (str2addr-addr2str d false v) (convert-printed ds all)

-- args2digis reads back a path of at most seven addresses from their printed forms, and returns
-- how many they are.
pub args2digis-addr2str :
    (ds : List Addr)
    → AllPlain ds
    → length ds ≤ 7
    → args2digis (length ds) (map addr2str ds) ≡ (map (reread false) ds, length ds)
unfolding args2digis
args2digis-addr2str ds all short =
    rw (ge→ltb 7 (length ds) short) (ap (λ xs. (xs, length ds)) (convert-printed ds all))
