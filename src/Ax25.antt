-- ===== src/Ax25.antt =====
-- ax25.c and ax25.h: address fields and frame headers, written to and read from buffer chains.
-- A callsign is the list of its characters, which ends where the list or a NUL does.
pub mod Bytes
pub mod Encode
pub mod Wire
pub mod Decode
pub mod RoundTrip
pub mod Frame
pub mod Overrun
pub mod Text
pub mod Parse
mod Tests
mod TextTests
use arctic_tracker_teensy.Base.{
  ℕ, zero, suc, ◌+◌, ◌*◌, ◌/◌, ◌%◌, Bool, true, false, ◌||◌, List, [], ◌∷◌, ltb, ◌==◌, bit_and,
  bit_or, length, if◌then◌else◌,
}
use arctic_tracker_teensy.Run.{Cmd, pure, ◌>>=◌}
use arctic_tracker_teensy.Fbuf.{Fbuf, put_char, get_char}

abbrev pub ascii_spc : ℕ
ascii_spc = 0x20

-- FLAG_LAST
abbrev pub flag_last : ℕ
flag_last = 0x01

-- FTYPE_UI
abbrev pub ftype_ui : ℕ
ftype_ui = 0x03

-- `addr_t`
pub record Addr : Type 0 where
  pub callsign : List ℕ
  pub ssid : ℕ
  pub flags : ℕ

-- The loop of encode_addr, with `n` characters to go.
unfoldable pub encode_addr_loop : ℕ → List ℕ → Fbuf → Cmd Fbuf
encode_addr_loop zero c b = pure b
encode_addr_loop (suc n) [] b = put_char b (ascii_spc * 2) >>= encode_addr_loop n []
encode_addr_loop (suc n) (x ∷ c) b =
    if x == 0
    then put_char b (ascii_spc * 2) >>= encode_addr_loop n (x ∷ c)
    else put_char b (x * 2 % 256) >>= encode_addr_loop n c

-- `((ssid & 0x0F) << 1) | (flags & 0x81) | 0x60`
abbrev pub ssid_byte : ℕ → ℕ → ℕ
ssid_byte ssid flags = bit_or (bit_or (bit_and ssid 0x0F * 2) (bit_and flags 0x81)) 0x60

-- encode_addr
unfoldable pub encode_addr : Addr → ℕ → Fbuf → Cmd Fbuf
encode_addr a flags b = do b ← encode_addr_loop 6 a.callsign b; put_char b (ssid_byte a.ssid flags)

-- The digipeater field: the last of the `ndigis` addresses is marked.
unfoldable pub encode_digis : List Addr → Fbuf → Cmd Fbuf
encode_digis [] b = pure b
encode_digis (d ∷ []) b = encode_addr d (bit_or d.flags flag_last) b
encode_digis (d ∷ e ∷ ds) b = encode_addr d (bit_or d.flags 0) b >>= encode_digis (e ∷ ds)

-- `if (ndigis > 7) ndigis = 0;`
abbrev pub allowed : List Addr → List Addr
allowed digis = if ltb 7 (length digis) then [] else digis

-- `(ctrl & 0x01) == 0 || ctrl == FTYPE_UI`
abbrev pub has_pid : ℕ → Bool
has_pid ctrl = bit_and ctrl 0x01 == 0 || ctrl == ftype_ui

-- The control field, and the PID where the frame has one.
unfoldable pub encode_ctrl : ℕ → ℕ → Fbuf → Cmd Fbuf
encode_ctrl ctrl pid b = do b ← put_char b ctrl; if has_pid ctrl then put_char b pid else pure b

-- ax25_encode_header; `digis` holds the `ndigis` addresses.
unfoldable pub encode_header : Addr → Addr → List Addr → ℕ → ℕ → Fbuf → Cmd Fbuf
encode_header from to digis ctrl pid b = do
  b ← encode_addr to 0 b
  b ← encode_addr from (if length (allowed digis) == 0 then flag_last else 0) b
  b ← encode_digis (allowed digis) b
  encode_ctrl ctrl pid b

-- A character of decode_addr: a space is skipped.
abbrev pub keep : ℕ → List ℕ → List ℕ
keep x c = if x == ascii_spc then c else x ∷ c

-- The loop of decode_addr, with `n` characters to go.
unfoldable pub decode_addr_loop : ℕ → Fbuf → Cmd (List ℕ × Fbuf)
decode_addr_loop zero b = pure ([], b)
decode_addr_loop (suc n) b = do
  (x, b) ← get_char b
  (c, b) ← decode_addr_loop n b
  pure (keep (x / 2) c, b)

-- decode_addr: what it returns is the flags that it stores.
unfoldable pub decode_addr : Fbuf → Cmd (Addr × Fbuf)
decode_addr b = do
  (c, b) ← decode_addr_loop 6 b
  (x, b) ← get_char b
  pure (record { callsign = c; ssid = bit_and x 0x1E / 2; flags = bit_and x 0x81 }, b)

abbrev pub is_last : Addr → Bool
is_last a = bit_and a.flags flag_last == 1

-- The loop over the digipeaters from index `i`, with `n` to go at most: the addresses read, and
-- the index that it stops at.
unfoldable pub decode_digis : ℕ → ℕ → Fbuf → Cmd ((List Addr × ℕ) × Fbuf)
decode_digis zero i b = pure (([], i), b)
decode_digis (suc n) i b = do
  (a, b) ← decode_addr b
  if is_last a
      then pure ((a ∷ [], i), b)
      else do ((ds, j), b) ← decode_digis n (i + 1) b; pure ((a ∷ ds, j), b)

-- What ax25_decode_header stores and returns.
pub record Header : Type 0 where
  pub from : Addr
  pub to : Addr
  pub digis : List Addr
  pub ndigis : ℕ
  pub ctrl : ℕ
  pub pid : ℕ

-- The digipeater field, with the count that ax25_decode_header returns.
unfoldable pub decode_path : Addr → Fbuf → Cmd ((List Addr × ℕ) × Fbuf)
decode_path from b =
    if is_last from
    then pure (([], 0), b)
    else do ((ds, i), b) ← decode_digis 7 0 b; pure ((ds, i + 1), b)

-- ax25_decode_header
unfoldable pub decode_header : Fbuf → Cmd (Header × Fbuf)
decode_header b = do
  (to, b) ← decode_addr b
  (from, b) ← decode_addr b
  ((digis, ndigis), b) ← decode_path from b
  (ctrl, b) ← get_char b
  (pid, b) ← get_char b
  pure (record { from = from; to = to; digis = digis; ndigis = ndigis; ctrl = ctrl; pid = pid }, b)
