-- ===== src/Ax25/Decode.antt =====
-- What decode_addr and the loop over the digipeaters read.
use arctic_tracker_teensy.Base.{
  ℕ, ◌/◌, ◌<◌, ◌≡◌, refl, ap, List, [], ◌∷◌, ◌++◌, bit_and, length, append_assoc,
}
use arctic_tracker_teensy.Run.{Pool, Cmd, pure, ◌>>=◌}
use arctic_tracker_teensy.Run.Returns
use arctic_tracker_teensy.Run.Returns.{Returns, returns}
use arctic_tracker_teensy.Fbuf.{Fbuf, get_char}
use arctic_tracker_teensy.Fbuf.Read.{ToRead, get_char-Got}
use arctic_tracker_teensy.Ax25.{Addr, keep, ssid_byte, decode_addr_loop, decode_addr}
use arctic_tracker_teensy.Ax25.Bytes.{
  callsign_bytes, addr_bytes, kept, IsAddr, kept-callsign_bytes, length-callsign_bytes,
  ssid_byte-parts,
}

-- A value has been read, and `ds` is left.
pub record Decoded {A : Type 0} (p : Pool) (ds : List ℕ) (a : A) (out : A × Fbuf) (q : Pool)
    : Type 0 where
  pub value : out.0 ≡ a
  pub same_pool : q ≡ p
  pub left : ToRead p.slot out.1 ds

-- The command `d` reads the bytes `cs`, whatever follows them, and returns `a`.
pub record Decodes {A : Type 0} (d : Fbuf → Cmd (A × Fbuf)) (cs : List ℕ) (a : A) : Type 0 where
  pub run :
      (p : Pool) (b : Fbuf) (ds : List ℕ)
      → ToRead p.slot b (cs ++ ds)
      → Returns (Decoded p ds a) (d b p)

module _ {A C : Type 0} {d : Fbuf → Cmd (A × Fbuf)} {cs : List ℕ} {a : A} where
  pub Decodes-then :
      (next : A × Fbuf → Cmd (C × Fbuf)) {cs' : List ℕ} {c : C}
      → Decodes d cs a
      → Decodes (λ b. next (a, b)) cs' c
      → Decodes (λ b. d b >>= next) (cs ++ cs') c
  Decodes-then next {cs'} {c} first second = record {
    run = λ p b ds t.
        let t' = rw (append_assoc cs cs' ds) at t in
        Returns.chain (first.run p b (cs' ++ ds) t')
          λ (x, b') q r. rw (r.value, r.same_pool) (second.run p b' ds r.left);
  }

  pub Decodes-end :
      (next : A × Fbuf → Cmd (C × Fbuf)) {c : C}
      → Decodes d cs a
      → Decodes (λ b. next (a, b)) [] c
      → Decodes (λ b. d b >>= next) cs c
  Decodes-end next first second = record {
    run = λ p b ds t.
        Returns.chain (first.run p b ds t)
          λ (x, b') q r. rw (r.value, r.same_pool) (second.run p b' ds r.left);
  }

  pub Decodes-map :
      (g : A → C) → Decodes d cs a → Decodes (λ b. d b >>= λ out. pure (g out.0, out.1)) cs (g a)
  Decodes-map g first = record {
    run = λ p b ds t. Returns.chain (first.run p b ds t) λ (x, b') q r.
        returns (record { value = ap g r.value; same_pool = r.same_pool; left = r.left });
  }

pub Decodes-pure : {A : Type 0} (a : A) → Decodes (λ b. pure (a, b)) [] a
Decodes-pure a = record {
  run = λ p b ds t. returns (record { value = refl; same_pool = refl; left = t });
}

pub get_char-Decodes : (c : ℕ) → Decodes get_char (c ∷ []) c
get_char-Decodes c = record {
  run = λ p b ds t.
      Returns.weaken (get_char-Got p b c ds t)
        λ out q g. record { value = g.char; same_pool = g.same_pool; left = g.left };
}

decode_addr_loop-Decodes : (cs : List ℕ) → Decodes (decode_addr_loop (length cs)) cs (kept cs)
unfolding decode_addr_loop kept
decode_addr_loop-Decodes [] = Decodes-pure []
decode_addr_loop-Decodes (x ∷ cs) =
    Decodes-then _ (get_char-Decodes x) (Decodes-map (keep (x / 2)) (decode_addr_loop-Decodes cs))

-- What the receiver has of an address that was sent with these flags.
abbrev pub received : Addr → ℕ → Addr
received a flags = record { callsign = a.callsign; ssid = a.ssid; flags = bit_and flags 0x81 }

abbrev addr_of : List ℕ → ℕ → Addr
addr_of c x = record { callsign = c; ssid = bit_and x 0x1E / 2; flags = bit_and x 0x81 }

pub decode_addr-Decodes :
    (a : Addr) (flags : ℕ)
    → IsAddr a
    → flags < 256
    → Decodes decode_addr (addr_bytes a flags) (received a flags)
unfolding decode_addr
decode_addr-Decodes a flags v byte =
    let cs = callsign_bytes 6 a.callsign in
    let loop : Decodes (decode_addr_loop 6) cs a.callsign =
      rw (length-callsign_bytes 6 a.callsign, kept-callsign_bytes 6 a.callsign v.chars v.short) at
        (decode_addr_loop-Decodes cs) in
    let (s, f) = ssid_byte-parts a.ssid flags v.four_bits byte in
    let ends : Decodes (λ b. get_char b >>= λ (x, b'). pure (addr_of a.callsign x, b'))
        (ssid_byte a.ssid flags ∷ []) (addr_of a.callsign (ssid_byte a.ssid flags)) =
      Decodes-map (addr_of a.callsign) (get_char-Decodes (ssid_byte a.ssid flags)) in
    let ends' = rw (s, f) at ends in Decodes-then _ loop ends'
