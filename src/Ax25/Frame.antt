-- ===== src/Ax25/Frame.antt =====
-- A frame with its header and information field, written to a buffer chain and read back.
use arctic_tracker_teensy.Base.{
  ℕ, ◌≤◌, ◌<◌, ◌≡◌, refl, sym, ap, ◌∙◌, true, List, [], ◌++◌, length, length-append, arith,
}
use arctic_tracker_teensy.Run.{Pool, Cmd, ◌>>=◌}
use arctic_tracker_teensy.Run.Returns
use arctic_tracker_teensy.Run.Returns.{Returns}
use arctic_tracker_teensy.Fbuf.{Fbuf, reset, write}
use arctic_tracker_teensy.Fbuf.Chain.{contents}
use arctic_tracker_teensy.Fbuf.Count.{IsPool}
use arctic_tracker_teensy.Fbuf.Buffer.{slots_of, IsBuffer, room}
use arctic_tracker_teensy.Fbuf.Write.{write-append}
use arctic_tracker_teensy.Fbuf.Print.{IsBuffer-Filled}
use arctic_tracker_teensy.Fbuf.Read.{ToRead, reset-ToRead}
use arctic_tracker_teensy.Ax25.{Addr, has_pid, Header, encode_header, decode_header}
use arctic_tracker_teensy.Ax25.Bytes.{callsign_bytes, header_bytes, IsAddr, length-callsign_bytes}
use arctic_tracker_teensy.Ax25.Encode.{write_then, encode_header-write}
use arctic_tracker_teensy.Ax25.RoundTrip.{IsPath, received_header, decode_header-Decodes}
use mathlib.Core.Path.{subst}

some_bytes :
    (from to : Addr) (digis : List Addr) (ctrl pid : ℕ)
    → 0 < length (header_bytes from to digis ctrl pid)
some_bytes from to digis ctrl pid =
    let cs = callsign_bytes 6 to.callsign in
    let e = length-callsign_bytes 6 to.callsign in
    omega (arith, e, length-append (cs ++ _) _, length-append cs _)

-- A frame.
abbrev pub frame_bytes : Addr → Addr → List Addr → ℕ → ℕ → List ℕ → List ℕ
frame_bytes from to digis ctrl pid info = header_bytes from to digis ctrl pid ++ info

-- The header and then the information field are written to `b`.
abbrev pub write_frame : Addr → Addr → List Addr → ℕ → ℕ → List ℕ → Fbuf → Cmd Fbuf
write_frame from to digis ctrl pid info b =
    encode_header from to digis ctrl pid b >>= λ b'. write b' info

module _ (from to : Addr) (digis : List Addr) (ctrl pid : ℕ) (from_v : IsAddr from)
    (to_v : IsAddr to) (path : IsPath digis) (few : length digis ≤ 7)
    (with_pid : has_pid ctrl ≡ true) (info : List ℕ) (p : Pool) (b : Fbuf) (front : List ℕ)
    (v : IsBuffer p.slot b front) (empty : contents p.slot (slots_of b front) ≡ []) (inv : IsPool p)
    (fits : length (frame_bytes from to digis ctrl pid info) ≤ room p b)
    (short : length (frame_bytes from to digis ctrl pid info) < 65536) where
  -- A frame whose addresses are proper, at most seven of them digipeaters, and which has a PID:
  -- when it fits into the free slots, it is written to an empty chain, and ax25_decode_header then
  -- returns its addresses, with the flags that a header has room for, the number of digipeaters,
  -- the control field and the PID, and leaves the information field to be read.
  pub decode_header-encode_header :
      Returns
        (λ out q. (out.0 ≡ received_header from to digis ctrl pid) × ToRead q.slot out.1 info)
        ((write_frame from to digis ctrl pid info b >>= λ b'. decode_header (reset b')) p)
  decode_header-encode_header =
      let cs = header_bytes from to digis ctrl pid in
      let e = write_then cs info b (encode_header-write from to digis ctrl pid b) (λ b'. refl) in
      let no_length : b.length ≡ 0 = v.counted ∙ ap length empty in
      subst
        (λ (m : Cmd Fbuf).
          Returns
            (λ (out : Header × Fbuf) q.
              (out.0 ≡ received_header from to digis ctrl pid) × ToRead q.slot out.1 info)
            ((m >>= λ b'. decode_header (reset b')) p))
        (sym e)
        (Returns.chain (write-append (cs ++ info) v inv fits (omega arith)) λ b' q w.
          let stored = w.stored ∙ ap (λ ys. ys ++ (cs ++ info)) empty in
          let counted = w.buffer.counted ∙ ap length stored in
          let some : 0 < b'.length =
            let n = some_bytes from to digis ctrl pid in
            omega (arith, counted, n, length-append cs info) in
          let filled = IsBuffer-Filled q.slot b' w.front' w.buffer some in
          let start = reset-ToRead q.slot b' (slots_of b' w.front') w.buffer.links filled in
          let ready = rw stored at start in
          let decodes =
            decode_header-Decodes from to digis ctrl pid from_v to_v path few with_pid in
          Returns.weaken (decodes.run q (reset b') info ready)
            λ out r d. (d.value, rw (d.same_pool) d.left))
