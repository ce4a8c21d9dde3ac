-- ===== src/Ax25/RoundTrip.antt =====
-- ax25_decode_header reads what ax25_encode_header has written.
use arctic_tracker_teensy.Base.{
  ℕ, zero, suc, ◌+◌, ◌≤◌, ◌<◌, ◌≡◌, refl, true, false, not, ◌&&◌, List, [], ◌∷◌, ◌==◌, bit_and,
  bit_or, length, arith, if◌then◌else◌, ltb, ltb→lt, ne→==, eq→==, ge→ltb,
}
use arctic_tracker_teensy.Base.Bytes.{all_below, all_below_sound}
use arctic_tracker_teensy.Ax25.{
  Addr, flag_last, allowed, has_pid, is_last, decode_digis, decode_path, Header, decode_header,
}
use mathlib.Core.Path.{subst}
use arctic_tracker_teensy.Ax25.Bytes.{digis_bytes, header_bytes, IsAddr}
use arctic_tracker_teensy.Ax25.Decode.{
  Decodes, Decodes-then, Decodes-end, Decodes-map, Decodes-pure, get_char-Decodes, received,
  decode_addr-Decodes,
}

-- An address of a path: it is not marked as the last.
pub record IsDigi (a : Addr) : Type 0 where
  pub addr : IsAddr a
  pub unmarked : bit_and a.flags flag_last ≡ 0

unfoldable pub IsPath : List Addr → Type 0
IsPath [] = Unit
IsPath (d ∷ ds) = IsDigi d × IsPath ds

-- The path as the receiver has it, its last address marked.
unfoldable pub received_path : List Addr → List Addr
received_path [] = []
received_path (d ∷ []) = received d (bit_or d.flags flag_last) ∷ []
received_path (d ∷ e ∷ ds) = received d (bit_or d.flags 0) ∷ received_path (e ∷ ds)

flags_table :
    all_below 256 (λ f.
      bit_and (bit_and (bit_or f 1) 0x81) 1 == 1
      && (ltb (bit_or f 1) 256
          && (ltb (bit_or f 0) 256
              && (if bit_and f 1 == 0
                  then not (bit_and (bit_and (bit_or f 0) 0x81) 1 == 1)
                  else true))))
    ≡ true
unfolding all_below
flags_table = refl

module _ (d : Addr) (v : IsDigi d) where
  marked : is_last (received d (bit_or d.flags flag_last)) ≡ true
  marked = let t = all_below_sound 256 _ d.flags flags_table v.addr.byte in ground (arith, t)

  marked-byte : bit_or d.flags flag_last < 256
  marked-byte =
      let t = all_below_sound 256 _ d.flags flags_table v.addr.byte in
      ltb→lt _ _ (ground (arith, t))

  pub unmarked_still : is_last (received d (bit_or d.flags 0)) ≡ false
  unmarked_still =
      let t = all_below_sound 256 _ d.flags flags_table v.addr.byte in
      let e = eq→== _ _ v.unmarked in let t' = rw e at t in ground (arith, t')

  pub unmarked-byte : bit_or d.flags 0 < 256
  unmarked-byte =
      let t = all_below_sound 256 _ d.flags flags_table v.addr.byte in
      ltb→lt _ _ (ground (arith, t))

decode_digis-Decodes :
    (n i : ℕ) (d : Addr) (ds : List Addr)
    → IsDigi d
    → IsPath ds
    → length ds < n
    → Decodes (decode_digis n i) (digis_bytes (d ∷ ds)) (received_path (d ∷ ds), i + length ds)
unfolding decode_digis digis_bytes received_path IsPath
decode_digis-Decodes zero i d ds v path lt = absurd (omega arith)
decode_digis-Decodes (suc n) i d [] v path lt =
    let same : i + 0 ≡ i = omega arith in
    let ends = Decodes-pure ((received d (bit_or d.flags flag_last) ∷ [], i)) in
    rw same
      (Decodes-end _ (decode_addr-Decodes d _ v.addr (marked-byte d v)) (rw (marked d v) ends))
decode_digis-Decodes (suc n) i d (e ∷ ds) v path lt =
    let same : i + suc (length ds) ≡ i + 1 + length ds = omega arith in
    let rest = decode_digis-Decodes n (i + 1) e ds path.0 path.1 (omega arith) in
    rw same (
      Decodes-then _ (decode_addr-Decodes d _ v.addr (unmarked-byte d v)) (
        rw (unmarked_still d v) (
          Decodes-map (λ (out : List Addr × ℕ). (received d (bit_or d.flags 0) ∷ out.0, out.1))
            rest)))

-- The flags of the source address: it is marked as the last where there is no path.
abbrev pub source_flags : List Addr → ℕ
source_flags digis = if length digis == 0 then flag_last else 0

source_flags-path : (d : Addr) (ds : List Addr) → source_flags (d ∷ ds) ≡ 0
source_flags-path d ds = rw (ne→== (suc (length ds)) 0 (omega arith)) refl

source_flags-byte : (digis : List Addr) → source_flags digis < 256
source_flags-byte [] = omega arith
source_flags-byte (d ∷ ds) = let e = source_flags-path d ds in omega (arith, e)

decode_path-Decodes :
    (from : Addr) (digis : List Addr)
    → IsPath digis
    → length digis ≤ 7
    → Decodes
        (decode_path (received from (source_flags digis)))
        (digis_bytes digis)
        (received_path digis, length digis)
unfolding decode_path digis_bytes received_path IsPath
decode_path-Decodes from [] path le = Decodes-pure ([], 0)
decode_path-Decodes from (d ∷ ds) path le =
    let same : 0 + length ds + 1 ≡ suc (length ds) = omega arith in
    let rest = decode_digis-Decodes 7 0 d ds path.0 path.1 (omega arith) in
    subst
      (λ n.
        Decodes (decode_path (received from (source_flags (d ∷ ds)))) (digis_bytes (d ∷ ds))
          (received_path (d ∷ ds), n))
      same
      (rw (source_flags-path d ds) (Decodes-map (λ (out : List Addr × ℕ). (out.0, out.1 + 1)) rest))

-- The header as the receiver has it.
abbrev pub received_header : Addr → Addr → List Addr → ℕ → ℕ → Header
received_header from to digis ctrl pid = record {
  from = received from (source_flags digis);
  to = received to 0;
  digis = received_path digis;
  ndigis = length digis;
  ctrl = ctrl;
  pid = pid;
}

module _ (from to : Addr) (digis : List Addr) (ctrl pid : ℕ) (from_v : IsAddr from)
    (to_v : IsAddr to) (path : IsPath digis) (few : length digis ≤ 7)
    (with_pid : has_pid ctrl ≡ true) where
  all_allowed : allowed digis ≡ digis
  all_allowed = rw (ge→ltb 7 (length digis) few) refl

  -- ax25_decode_header returns the header from the bytes that ax25_encode_header writes.
  pub decode_header-Decodes :
      Decodes decode_header
        (header_bytes from to digis ctrl pid)
        (received_header from to digis ctrl pid)
  unfolding decode_header
  decode_header-Decodes =
      rw (all_allowed, with_pid)
        (Decodes-then _ (decode_addr-Decodes to 0 to_v (omega arith)) (
          Decodes-then _
            (decode_addr-Decodes from (source_flags digis) from_v (source_flags-byte digis))
            (Decodes-then _ (decode_path-Decodes from digis path few) (
              Decodes-then _ (get_char-Decodes ctrl) (
                Decodes-map (λ pid'. record (received_header from to digis ctrl pid) { pid = pid' })
                  (get_char-Decodes pid))))))
