-- ===== src/Ax25/Wire.antt =====
-- The bytes of a header as AX.25 lays them out, by arithmetic, and that ax25_encode_header writes them.
use arctic_tracker_teensy.Base.{
  ℕ, ◌+◌, ◌*◌, ◌/◌, ◌%◌, ◌<◌, ◌≡◌, refl, ap, ap₂, ◌∙◌, inl, inr, true, ◌||◌, ◌&&◌, List, [], ◌∷◌,
  ◌++◌, arith, length, ltb, ltb→ge, ge→ltb, ◌==◌, ==→eq, bit_or, Bool-cases, if◌then◌else◌,
}
use arctic_tracker_teensy.Base.Bytes.{all_below, all_below_sound}
use arctic_tracker_teensy.Base.Bits.{bit_and_one}
use arctic_tracker_teensy.Fbuf.{Fbuf, write}
use arctic_tracker_teensy.Ax25.{Addr, flag_last, ssid_byte, allowed, encode_header}
use arctic_tracker_teensy.Ax25.Bytes.{callsign_bytes, digis_bytes, ctrl_bytes, header_bytes}
use arctic_tracker_teensy.Ax25.Encode.{encode_header-write}

-- An SSID of four bits, and flags of a byte.
abbrev pub IsShort : Addr → Type 0
IsShort a = (a.ssid < 16) × (a.flags < 256)

unfoldable pub AllShort : List Addr → Type 0
AllShort [] = Unit
AllShort (d ∷ ds) = IsShort d × AllShort ds

-- Six shifted characters, then a byte: bit 7 is the given one, bits 6 and 5 are ones, bits 4 to 1 the
-- SSID, and bit 0 is the given one.
abbrev pub wire_addr : Addr → ℕ → ℕ → List ℕ
wire_addr a top last = callsign_bytes 6 a.callsign ++ ((128 * top + 96 + 2 * a.ssid + last) ∷ [])

-- The path: bit 7 of the flags goes along, and bit 0 marks the last address.
unfoldable pub wire_path : List Addr → List ℕ
wire_path [] = []
wire_path (d ∷ []) = wire_addr d (d.flags / 128) 1
wire_path (d ∷ e ∷ ds) = wire_addr d (d.flags / 128) (d.flags % 2) ++ wire_path (e ∷ ds)

-- Destination, source, path, control field, and the PID of an I frame, whose control field is even,
-- or of a UI frame, where it is 3.
unfoldable pub wire_header : Addr → Addr → List Addr → ℕ → ℕ → List ℕ
wire_header from to digis ctrl pid =
    wire_addr to 0 0
    ++ (wire_addr from 0 (if length digis == 0 then 1 else 0)
        ++ (wire_path digis ++ (ctrl ∷ (if ctrl % 2 == 0 || ctrl == 3 then pid ∷ [] else []))))

ssid_table :
    all_below 16 (λ s. all_below 256 (λ f. ssid_byte s f == 128 * (f / 128) + 96 + 2 * s + f % 2))
    ≡ true
unfolding all_below
ssid_table = refl

ssid_byte-eq : (s f : ℕ) → s < 16 → f < 256 → ssid_byte s f ≡ 128 * (f / 128) + 96 + 2 * s + f % 2
ssid_byte-eq s f low byte =
    ==→eq _ _ (all_below_sound 256 _ f (all_below_sound 16 _ s ssid_table low) byte)

last_table :
    all_below 256
      (λ f. (bit_or f 1 / 128 == f / 128) && (bit_or f 1 % 2 == 1) && ltb (bit_or f 1) 256)
    ≡ true
unfolding all_below
last_table = refl

none_table : all_below 256 (λ f. bit_or f 0 == f) ≡ true
unfolding all_below
none_table = refl

marked :
    (f : ℕ)
    → ((bit_or f 1 / 128 == f / 128) && (bit_or f 1 % 2 == 1) && ltb (bit_or f 1) 256) ≡ true
    → (bit_or f 1 / 128 ≡ f / 128) × (bit_or f 1 % 2 ≡ 1) × (bit_or f 1 < 256)
marked f e = ground arith

digis_bytes-wire : (ds : List Addr) → AllShort ds → digis_bytes ds ≡ wire_path ds
unfolding digis_bytes wire_path AllShort
digis_bytes-wire [] v = refl
digis_bytes-wire (d ∷ []) v =
    let t = all_below_sound 256 _ d.flags last_table v.0.1 in
    let (top, low, byte) = marked d.flags t in
    ap (λ x. callsign_bytes 6 d.callsign ++ (x ∷ []))
      (ssid_byte-eq d.ssid (bit_or d.flags 1) v.0.0 byte ∙ omega (arith, top, low))
digis_bytes-wire (d ∷ e ∷ ds) v =
    let same : bit_or d.flags 0 ≡ d.flags =
      ==→eq _ _ (all_below_sound 256 _ d.flags none_table v.0.1) in
    let one = ap (ssid_byte d.ssid) same ∙ ssid_byte-eq d.ssid d.flags v.0.0 v.0.1 in
    ap₂ (λ x (ys : List ℕ). (callsign_bytes 6 d.callsign ++ (x ∷ [])) ++ ys) one
      (digis_bytes-wire (e ∷ ds) v.1)

-- The bytes of a header with this path.
abbrev written_with : Addr → Addr → ℕ → ℕ → List Addr → List ℕ
written_with from to ctrl pid digis =
    (callsign_bytes 6 to.callsign ++ (ssid_byte to.ssid 0 ∷ []))
    ++ ((callsign_bytes 6 from.callsign
          ++ (ssid_byte from.ssid (if length digis == 0 then flag_last else 0) ∷ []))
        ++ (digis_bytes digis ++ ctrl_bytes ctrl pid))

header_bytes-wire :
    (from to : Addr) (digis : List Addr) (ctrl pid : ℕ)
    → from.ssid < 16
    → to.ssid < 16
    → AllShort digis
    → length digis < 8
    → header_bytes from to digis ctrl pid ≡ wire_header from to digis ctrl pid
unfolding wire_header
header_bytes-wire from to digis ctrl pid from_short to_short digis_short few =
    let fits : allowed digis ≡ digis = rw (ge→ltb 7 (length digis) (omega arith)) refl in
    let to_byte : ssid_byte to.ssid 0 ≡ 128 * 0 + 96 + 2 * to.ssid + 0 =
      ssid_byte-eq to.ssid 0 to_short (omega arith) ∙ omega arith in
    let from_byte : ssid_byte from.ssid (if length digis == 0 then flag_last else 0)
        ≡ 128 * 0 + 96 + 2 * from.ssid + (if length digis == 0 then 1 else 0) =
      elim (Bool-cases (length digis == 0)) [
        | inl e ↦ rw e (ssid_byte-eq from.ssid 1 from_short (omega arith) ∙ omega arith)
        | inr e ↦ rw e (ssid_byte-eq from.ssid 0 from_short (omega arith) ∙ omega arith)
      ] in
    let path = digis_bytes-wire digis digis_short in
    ap (written_with from to ctrl pid) fits
    ∙ ap₂
        (λ x (y : ℕ).
          (callsign_bytes 6 to.callsign ++ (x ∷ []))
          ++ ((callsign_bytes 6 from.callsign ++ (y ∷ []))
              ++ (digis_bytes digis ++ ctrl_bytes ctrl pid)))
        to_byte from_byte
    ∙ ap₂
        (λ (ys : List ℕ) (bit : ℕ).
          wire_addr to 0 0
          ++ (wire_addr from 0 (if length digis == 0 then 1 else 0)
              ++ (ys ++ (ctrl ∷ (if bit == 0 || ctrl == 3 then pid ∷ [] else [])))))
        path (bit_and_one ctrl)

-- For SSIDs below 16 and flags of a byte, ax25_encode_header is fbuf_write of these bytes: destination,
-- source, path, each address in six characters and a byte with bit 7, the SSID and the mark of the
-- last address; then the control field and, where that is even or 3, the PID. A path of more than
-- seven addresses is left out.
pub encode_header-wire :
    (from to : Addr) (digis : List Addr) (ctrl pid : ℕ) (b : Fbuf)
    → from.ssid < 16
    → to.ssid < 16
    → AllShort digis
    → encode_header from to digis ctrl pid b
      ≡ write b (wire_header from to (if ltb 7 (length digis) then [] else digis) ctrl pid)
unfolding AllShort
encode_header-wire from to digis ctrl pid b from_short to_short digis_short =
    encode_header-write from to digis ctrl pid b
    ∙ ap (write b) (elim (Bool-cases (ltb 7 (length digis))) [
      | inl e ↦ rw e (header_bytes-wire from to [] ctrl pid from_short to_short tt (omega arith))
      | inr e ↦
          let few = ltb→ge 7 (length digis) e in
          let kept : digis ≡ (if ltb 7 (length digis) then [] else digis) = rw e refl in
          header_bytes-wire from to digis ctrl pid from_short to_short digis_short (omega arith)
          ∙ ap (λ (ds : List Addr). wire_header from to ds ctrl pid) kept
    ])
