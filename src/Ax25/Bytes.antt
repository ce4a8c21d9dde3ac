-- ===== src/Ax25/Bytes.antt =====
-- The bytes of address fields and headers.
use arctic_tracker_teensy.Base.{
  ℕ, zero, suc, ◌*◌, ◌/◌, ◌%◌, ◌≤◌, ◌<◌, ◌≡◌, ◌≢◌, refl, ap, true, ◌&&◌, List, [], ◌∷◌, ◌++◌, ◌==◌,
  bit_and, bit_or, length, arith, ne→==, if◌then◌else◌,
}
use arctic_tracker_teensy.Base.Bytes.{all_below, all_below_sound}
use arctic_tracker_teensy.Ax25.{Addr, ascii_spc, flag_last, ssid_byte, allowed, has_pid, keep}

-- The shifted characters of a callsign, filled up with spaces.
unfoldable pub callsign_bytes : ℕ → List ℕ → List ℕ
callsign_bytes zero c = []
callsign_bytes (suc n) [] = (ascii_spc * 2) ∷ callsign_bytes n []
callsign_bytes (suc n) (x ∷ c) =
    if x == 0
    then (ascii_spc * 2) ∷ callsign_bytes n (x ∷ c)
    else (x * 2 % 256) ∷ callsign_bytes n c

abbrev pub addr_bytes : Addr → ℕ → List ℕ
addr_bytes a flags = callsign_bytes 6 a.callsign ++ (ssid_byte a.ssid flags ∷ [])

unfoldable pub digis_bytes : List Addr → List ℕ
digis_bytes [] = []
digis_bytes (d ∷ []) = addr_bytes d (bit_or d.flags flag_last)
digis_bytes (d ∷ e ∷ ds) = addr_bytes d (bit_or d.flags 0) ++ digis_bytes (e ∷ ds)

abbrev pub ctrl_bytes : ℕ → ℕ → List ℕ
ctrl_bytes ctrl pid = ctrl ∷ (if has_pid ctrl then pid ∷ [] else [])

-- The bytes of a header: destination, source, path, control field and PID.
abbrev pub header_bytes : Addr → Addr → List Addr → ℕ → ℕ → List ℕ
header_bytes from to digis ctrl pid =
    addr_bytes to 0
    ++ (addr_bytes from (if length (allowed digis) == 0 then flag_last else 0)
        ++ (digis_bytes (allowed digis) ++ ctrl_bytes ctrl pid))

-- The characters that decode_addr keeps of shifted ones.
unfoldable pub kept : List ℕ → List ℕ
kept [] = []
kept (x ∷ xs) = keep (x / 2) (kept xs)

-- A character of a callsign: a 7-bit one, neither NUL nor a space.
pub record IsChar (x : ℕ) : Type 0 where
  pub ascii : x < 128
  pub used : x ≢ 0
  pub no_space : x ≢ ascii_spc

unfoldable pub AllChars : List ℕ → Type 0
AllChars [] = Unit
AllChars (x ∷ c) = IsChar x × AllChars c

-- An address that survives its encoding.
pub record IsAddr (a : Addr) : Type 0 where
  pub short : length a.callsign ≤ 6
  pub chars : AllChars a.callsign
  pub four_bits : a.ssid < 16
  pub byte : a.flags < 256

kept-spaces : (n : ℕ) → kept (callsign_bytes n []) ≡ []
unfolding kept callsign_bytes
kept-spaces zero = refl
kept-spaces (suc n) = kept-spaces n

pub kept-callsign_bytes :
    (n : ℕ) (c : List ℕ) → AllChars c → length c ≤ n → kept (callsign_bytes n c) ≡ c
unfolding kept callsign_bytes AllChars
kept-callsign_bytes n [] ok le = kept-spaces n
kept-callsign_bytes zero (x ∷ c) ok le = absurd (omega arith)
kept-callsign_bytes (suc n) (x ∷ c) ok le =
    let used = ok.0.used in
    let other = ok.0.no_space in
    let ascii = ok.0.ascii in
    let same : x * 2 % 256 / 2 ≡ x = omega arith in
    rw (ne→== x 0 used, same, ne→== x ascii_spc other)
      (ap (λ ys. x ∷ ys) (kept-callsign_bytes n c ok.1 (omega arith)))

pub length-callsign_bytes : (n : ℕ) (c : List ℕ) → length (callsign_bytes n c) ≡ n
unfolding callsign_bytes
length-callsign_bytes zero c = refl
length-callsign_bytes (suc n) [] = ap suc (length-callsign_bytes n [])
length-callsign_bytes (suc n) (x ∷ c) =
    ground (arith, length-callsign_bytes n (x ∷ c), length-callsign_bytes n c)

ssid_table :
    all_below 16 (λ s. all_below 256 (λ f.
      bit_and (ssid_byte s f) 0x1E / 2 == s && bit_and (ssid_byte s f) 0x81 == bit_and f 0x81))
    ≡ true
unfolding all_below
ssid_table = refl

-- The last byte of an address field holds the SSID and two of the flags.
pub ssid_byte-parts :
    (s f : ℕ)
    → s < 16
    → f < 256
    → (bit_and (ssid_byte s f) 0x1E / 2 ≡ s) × (bit_and (ssid_byte s f) 0x81 ≡ bit_and f 0x81)
ssid_byte-parts s f p q =
    let t = all_below_sound 256 _ f (all_below_sound 16 _ s ssid_table p) q in ground (arith, t)
