-- ===== src/Hdlc/Accept.antt =====
-- The receiver accepts the check sequence that the encoder sends, and no other.
use arctic_tracker_teensy.Base.{
  ℕ, ◌+◌, ◌-◌, ◌*◌, ◌/◌, ◌%◌, ◌<◌, ◌≡◌, ◌≢◌, sym, ap₂, ◌∙◌, true, List, [], ◌∷◌, ◌++◌, arith,
  length, ◌==◌, ==→eq, eq→==,
}
use arctic_tracker_teensy.Base.Bits.{bit_or_byte}
use arctic_tracker_teensy.Base.Flip.{bit_or_comm, bit_xor_flip, bit_xor_flip_low}
use arctic_tracker_teensy.Run.{Pool, slot_size}
use arctic_tracker_teensy.Run.Returns
use arctic_tracker_teensy.Run.Returns.{Returns}
use arctic_tracker_teensy.Crc.{crc_bytes, crc_ccitt_update}
use arctic_tracker_teensy.Fbuf.{Fbuf, reset}
use arctic_tracker_teensy.Fbuf.Buffer.{all_bytes, IsBuffer}
use arctic_tracker_teensy.Hdlc.Encoder.{fcs}
use arctic_tracker_teensy.Hdlc.Delivery.{received_crc, crc_match}
use arctic_tracker_teensy.Hdlc.Match.{crc_match-crc}

crc_ccitt_update-lt : (crc x : ℕ) → crc_ccitt_update crc x < 65536
unfolding crc_ccitt_update
crc_ccitt_update-lt crc x = omega arith

crc_bytes-lt : (xs : List ℕ) (crc : ℕ) → crc < 65536 → crc_bytes crc xs < 65536
unfolding crc_bytes
crc_bytes-lt [] crc lt = lt
crc_bytes-lt (x ∷ xs) crc lt = crc_bytes-lt xs (crc_ccitt_update crc x) (crc_ccitt_update-lt crc x)

received_crc-eq :
    (lo hi : ℕ) → lo < 256 → hi < 256 → received_crc lo hi ≡ (255 - hi) * 256 + (255 - lo)
unfolding received_crc
received_crc-eq lo hi low high =
    rw (bit_xor_flip lo low, bit_xor_flip hi high)
      (bit_or_comm (255 - lo) ((255 - hi) * 256) ∙ bit_or_byte (255 - hi) (255 - lo) (omega arith))

fcs-eq : (crc : ℕ) → fcs crc ≡ (255 - crc % 256) ∷ (255 - crc / 256 % 256) ∷ []
fcs-eq crc = ap₂ (λ x y. x ∷ y ∷ []) (bit_xor_flip_low crc) (bit_xor_flip_low (crc / 256))

two_same : (a b c d : ℕ) → a ∷ b ∷ [] ≡ c ∷ d ∷ [] → (a ≡ c) × (b ≡ d)
two_same a b c d e = (cc e, cc e)

-- The two bytes are those of the encoder exactly where the complements give the sum.
accepted :
    (crc lo hi : ℕ)
    → crc < 65536
    → lo < 256
    → hi < 256
    → ((lo ∷ hi ∷ [] ≡ fcs crc) → (crc == received_crc lo hi) ≡ true)
      × ((crc == received_crc lo hi) ≡ true → lo ∷ hi ∷ [] ≡ fcs crc)
accepted crc lo hi small low high =
    let r = received_crc-eq lo hi low high in
    let f = fcs-eq crc in
    (
      (λ e.
          let (a, b) = two_same lo hi _ _ (e ∙ f) in
          eq→== crc (received_crc lo hi) (omega (arith, r, a, b))),
      λ e.
          let same = ==→eq crc (received_crc lo hi) e ∙ r in
          ap₂ (λ x y. x ∷ y ∷ []) (omega (arith, same)) (omega (arith, same)) ∙ sym f,
    )

-- For a frame of less than 256 bytes that stands in a buffer at its start, where the check sequence
-- does not begin at a multiple of the slot size: crc_match is true if and only if the last two bytes
-- are the check sequence that hdlc_encode_frames sends behind the others. It leaves the pool as it
-- was.
pub crc_match-fcs :
    (p : Pool) (b : Fbuf) (front xs : List ℕ) (lo hi : ℕ)
    → IsBuffer p.slot b front
    → reset b ≡ b
    → all_bytes p.slot b front ≡ xs ++ (lo ∷ hi ∷ [])
    → b.length < 256
    → (length xs % slot_size ≢ 0)
    → lo < 256
    → hi < 256
    → Returns
        (λ out q.
          (((lo ∷ hi ∷ [] ≡ fcs (crc_bytes 0xFFFF xs)) → out.0 ≡ true)
            × (out.0 ≡ true → lo ∷ hi ∷ [] ≡ fcs (crc_bytes 0xFFFF xs)))
          × (q ≡ p))
        (crc_match b b.length p)
crc_match-fcs p b front xs lo hi v start split short off low high =
    let (to, from) =
      accepted (crc_bytes 0xFFFF xs) lo hi (crc_bytes-lt xs 0xFFFF (omega arith)) low high in
    Returns.weaken (crc_match-crc p b front xs lo hi v start split short off)
      λ out q (same, kept). (((λ e. same ∙ to e), λ e. from (sym same ∙ e)), kept)
