-- ===== src/Igate.antt =====
-- igate.c: frames from the radio to the internet. The writer to the server is a parameter: it gets
-- the buffer chain, and gives back the handle.
use arctic_tracker_teensy.Base.{
  ℕ, ◌+◌, ◌%◌, Bool, not, ◌&&◌, ◌||◌, List, [], ◌∷◌, ◌++◌, ltb, ◌==◌, length, if◌then◌else◌,
}
use arctic_tracker_teensy.Run.{fault, Cmd, pure, ◌>>=◌}
use arctic_tracker_teensy.Ax25.{Addr, Header, decode_header}
use arctic_tracker_teensy.Ax25.Text.{addr_cmp, addr2str, digis2str, search_digis, same_prefix}
use arctic_tracker_teensy.Heard.{HeardList, duplicate, ax25_hdr_len}
use arctic_tracker_teensy.Fbuf.{Fbuf, new, release, reset, get_char, put_str}
use arctic_tracker_teensy.Fbuf.Join.{connect}
use arctic_tracker_teensy.Fbuf.Queue.{Fbq, get}
use arctic_tracker_teensy.Printf.{decimal}

-- The counters of igate.c, of 32 bits.
pub record Counts : Type 0 where
  pub icount : ℕ
  pub rcvd : ℕ
  pub tracker_icount : ℕ

-- "TCP", "NOGATE" and "RFONLY"
abbrev nogate : List (List ℕ)
nogate =
    (84 ∷ 67 ∷ 80 ∷ [])
    ∷ (78 ∷ 79 ∷ 71 ∷ 65 ∷ 84 ∷ 69 ∷ [])
    ∷ (82 ∷ 70 ∷ 79 ∷ 78 ∷ 76 ∷ 89 ∷ [])
    ∷ []

-- Whether rf2inet keeps the frame to itself, by its type and its path.
unfoldable pub is_kept : Bool → ℕ → List Addr → Bool
is_kept own type digis = type == 63 || (not own && search_digis digis nogate)

-- What the variable `buf` holds after the header's addresses: the path, or the destination.
unfoldable pub last_text : Header → List ℕ
last_text h = if h.ndigis == 0 then addr2str h.to else digis2str h.digis

-- The path in the text header
unfoldable pub put_path : Header → Fbuf → Cmd Fbuf
put_path h b =
    if ltb 0 h.ndigis then (do b ← put_str b (44 ∷ []); put_str b (digis2str h.digis)) else pure b

-- The end of the text header: an own frame with ",TCPIP" at the start of `buf`, or another
unfoldable pub put_gate : Addr → Bool → Header → Fbuf → Cmd Fbuf
put_gate mycall own h b =
    if own && same_prefix 5 (last_text h) (44 ∷ 84 ∷ 67 ∷ 80 ∷ 73 ∷ 80 ∷ [])
    then put_str b (42 ∷ [])
    else (do b ← put_str b (44 ∷ 113 ∷ 65 ∷ 82 ∷ 44 ∷ []); put_str b (addr2str mycall))

-- The header in plain text.
unfoldable pub text_header : Addr → Bool → Header → Fbuf → Cmd Fbuf
text_header mycall own h b = do
  b ← put_str b (addr2str h.from)
  b ← put_str b (62 ∷ [])
  b ← put_str b (addr2str h.to)
  b ← put_path h b
  b ← put_gate mycall own h b
  put_str b (58 ∷ [])

unfoldable pub count_gated : Bool → Counts → Counts
count_gated own c =
    if own
    then record c { tracker_icount = (c.tracker_icount + 1) % 4294967296 }
    else record c { icount = (c.icount + 1) % 4294967296 }

module _ (mycall : Addr) (inet_write_fb : Fbuf → Cmd Fbuf) where
  -- The part of rf2inet below its tests.
  unfoldable pub gate_frame : Bool → Header → Fbuf → Counts → Cmd (Fbuf × Counts)
  gate_frame own h f c = do
    b ← new
    b ← text_header mycall own h b
    (b, f) ← connect b f (ax25_hdr_len h.ndigis)
    b ← inet_write_fb b
    _ ← release b
    pure (f, count_gated own c)

  unfoldable pub gate_if : Bool → Bool → ℕ → Header → Fbuf → Counts → Cmd (Fbuf × Counts)
  gate_if heard own type h f c =
      if heard || is_kept own type h.digis then pure (f, c) else gate_frame own h f c

  -- rf2inet. With a count above seven it reads outside its array of addresses.
  unfoldable pub rf2inet : Fbuf → HeardList → Counts → Cmd (Fbuf × (HeardList × Counts))
  rf2inet frame l c = do
    (h, f) ← decode_header (reset frame)
    (type, f) ← get_char f
    let own = addr_cmp mycall h.from
    (f, (heard, l)) ← duplicate h.from h.to f h.ndigis l
    (f, c) ← (if ltb 7 h.ndigis then (λ _. fault) else gate_if heard own type h f c)
    pure (f, (l, c))

  unfoldable pub gate_frame_if : Fbuf → HeardList → Counts → Cmd (Fbuf × (HeardList × Counts))
  gate_frame_if f l c =
      if ltb 2 f.length
      then rf2inet f l (record c { rcvd = (c.rcvd + 1) % 4294967296 })
      else pure (f, (l, c))

  -- A round of igate_radio.
  unfoldable pub igate_radio : Fbq → HeardList → Counts → Cmd (Fbq × (HeardList × Counts))
  igate_radio rxqueue l c = do
    (f, rxqueue) ← get rxqueue
    (f, (l, c)) ← gate_frame_if f l c
    _ ← release f
    pure (rxqueue, (l, c))

-- igate_login: the lines written to the server
unfoldable pub igate_login : List ℕ → ℕ → List ℕ → List (List ℕ)
igate_login user pass filter =
    let login =
      (117 ∷ 115 ∷ 101 ∷ 114 ∷ 32 ∷ [])
      ++ (user
          ++ ((32 ∷ 112 ∷ 97 ∷ 115 ∷ 115 ∷ 32 ∷ [])
              ++ (decimal pass
                  ++ (32 ∷ 118 ∷ 101 ∷ 114 ∷ 115 ∷ 32 ∷ 65 ∷ 114 ∷ 99 ∷ 116 ∷ 105 ∷ 99 ∷ 45 ∷ 84
                      ∷ 114 ∷ 97 ∷ 99 ∷ 107 ∷ 101 ∷ 114 ∷ 32 ∷ 48 ∷ 46 ∷ 49 ∷ 13 ∷ 10 ∷ [])))) in
    let line = (102 ∷ 105 ∷ 108 ∷ 116 ∷ 101 ∷ 114 ∷ 32 ∷ []) ++ (filter ++ (13 ∷ 10 ∷ [])) in
    if ltb 1 (length filter) then login ∷ line ∷ [] else login ∷ []
