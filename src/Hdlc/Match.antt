-- ===== src/Hdlc/Match.antt =====
-- The checksum of a received frame.
use arctic_tracker_teensy.Base.{
  ℕ, ◌+◌, ◌-◌, ◌%◌, ◌<◌, ◌≡◌, ◌≢◌, refl, ap, ◌∙◌, inl, Bool, List, [], ◌∷◌, ◌++◌, arith, length,
  length-append, drop, drop-append_length, ◌==◌,
}
use arctic_tracker_teensy.Run.{Slot, Pool, slot_size, pure, ◌>>=◌}
use arctic_tracker_teensy.Run.Returns
use arctic_tracker_teensy.Run.Returns.{Returns, returns}
use arctic_tracker_teensy.Crc.{crc_bytes}
use arctic_tracker_teensy.Fbuf.{Fbuf, reset, get_char}
use arctic_tracker_teensy.Fbuf.Buffer.{slots_of, all_bytes, IsBuffer}
use arctic_tracker_teensy.Fbuf.Read.{ToRead, reset-ToRead, get_char-Got, get_chars-GotAll}
use arctic_tracker_teensy.Fbuf.Print.{IsBuffer-Filled}
use arctic_tracker_teensy.Fbuf.Seek.{rseek-ToRead}
use arctic_tracker_teensy.Hdlc.Delivery.{received_crc, crc_match}
use mathlib.Core.Path.{subst}

-- A handle of the same chain.
IsBuffer-same :
    {h : ℕ → Slot} {b b' : Fbuf} {front : List ℕ}
    → b'.head ≡ b.head
    → b'.length ≡ b.length
    → b'.wslot ≡ b.wslot
    → IsBuffer h b front
    → IsBuffer h b' front
IsBuffer-same e f g v = record {
  links = rw (e, g) v.links;
  distinct = rw g v.distinct;
  in_use = rw g v.in_use;
  counted = rw (f, g) v.counted;
  full = v.full;
  last_used = rw g v.last_used;
}

module _ (p : Pool) (b : Fbuf) (front xs : List ℕ) (lo hi : ℕ) (v : IsBuffer p.slot b front)
    (start : reset b ≡ b) (split : all_bytes p.slot b front ≡ xs ++ (lo ∷ hi ∷ [])) where
  size : b.length ≡ length xs + 2
  size = v.counted ∙ ap length split ∙ length-append xs (lo ∷ hi ∷ [])

  ready : ToRead p.slot b (xs ++ (lo ∷ hi ∷ []))
  ready =
      let all =
        reset-ToRead p.slot b (slots_of b front) v.links
          (IsBuffer-Filled p.slot b front v (omega (arith, size))) in
      subst (λ cs. ToRead p.slot b cs) split
        (subst (λ x. ToRead p.slot x (all_bytes p.slot b front)) start all)

  -- The rest of crc_match, where the two last bytes are left to be read.
  last_two :
      (cs : List ℕ) (b₂ : Fbuf)
      → cs ≡ xs
      → ToRead p.slot b₂ (lo ∷ hi ∷ [])
      → Returns
          (λ (out : Bool × Fbuf) q. (out.0 ≡ (crc_bytes 0xFFFF xs == received_crc lo hi)) × (q ≡ p))
          ((get_char b₂ >>= λ (x, b₃).
              get_char b₃ >>= λ (y, b₄). pure (crc_bytes 0xFFFF cs == received_crc x y, b₄))
            p)
  last_two cs b₂ same r = Returns.chain (get_char-Got p b₂ lo (hi ∷ []) r) λ (x, b₃) q g.
      rw (g.same_pool) (
        Returns.chain (get_char-Got p b₃ hi [] g.left)
          λ (y, b₄) q₂ g₂. returns (rw (g.char, g₂.char, same) (refl, g₂.same_pool)))

  left_of :
      (b₁ : Fbuf) → b₁.wslot ≡ b.wslot → drop (length xs) (all_bytes p.slot b₁ front) ≡ lo ∷ hi ∷ []
  left_of b₁ g =
      let zero_more : length xs ≡ length xs + 0 = omega arith in
      rw (g, split)
        (ap (λ n. drop n (xs ++ (lo ∷ hi ∷ []))) zero_more ∙ drop-append_length 0 xs (lo ∷ hi ∷ []))

  -- crc_match tells whether the CRC of all bytes but the last two is the complement of those, the
  -- low byte first, for a chain of less than 256 bytes that is at its start, where the checksum does
  -- not begin at a multiple of the slot size. It leaves the pool as it was.
  pub crc_match-crc :
      b.length < 256
      → (length xs % slot_size ≢ 0)
      → Returns
          (λ out q. (out.0 ≡ (crc_bytes 0xFFFF xs == received_crc lo hi)) × (q ≡ p))
          (crc_match b b.length p)
  unfolding crc_match
  crc_match-crc short off =
      let count : b.length - 2 ≡ length xs = omega (arith, size) in
      let place : (b.length + 65534) % 65536 ≡ length xs = omega (arith, size) in
      rw (count, place)
        (Returns.chain (get_chars-GotAll p b xs (lo ∷ hi ∷ []) ready) λ (cs, b₁) q a.
          let (e, f, g) = a.same_chain in
          let v₁ = IsBuffer-same e f g v in
          let inside : length xs < b₁.length = omega (arith, size, f) in
          rw (a.same_pool) (
            Returns.chain (rseek-ToRead p b₁ front v₁ (length xs) inside (inl off))
              λ b₂ q₂ (same, r).
                rw same
                  (last_two cs b₂ a.chars (subst (λ ds. ToRead p.slot b₂ ds) (left_of b₁ g) r))))
