-- ===== src/Config/Blocks.antt =====
-- Blocks of bytes in the EEPROM, and the checksum of a block.
use arctic_tracker_teensy.Base.{
  ℕ, zero, suc, ◌+◌, ◌/◌, ◌≤◌, ◌<◌, ◌≡◌, refl, sym, ap, ap₂, ◌∙◌, List, [], ◌∷◌, length, bit_xor,
  arith,
}
use arctic_tracker_teensy.Base.Bits.{bit_xor_step, bit_xor_assoc, bit_xor_zero, bit_xor-lt_byte}
use arctic_tracker_teensy.Config.{Eeprom, eeprom_size, xor_all}

self_below : (n a : ℕ) → a ≤ n → bit_xor a a ≡ 0
self_below zero zero le = refl
self_below zero (suc a) le = absurd (omega arith)
self_below (suc n) a le = omega (arith, bit_xor_step a a, self_below n (a / 2) (omega arith))

bit_xor_self : (a : ℕ) → bit_xor a a ≡ 0
bit_xor_self a = self_below a a (omega arith)

-- The second operand of an exclusive or can be taken out again.
bit_xor_undo : (a x : ℕ) → bit_xor (bit_xor a x) x ≡ a
bit_xor_undo a x = bit_xor_assoc a x x ∙ ap (bit_xor a) (bit_xor_self x) ∙ bit_xor_zero a

pub bit_xor_same : (a b x : ℕ) → bit_xor a x ≡ bit_xor b x → a ≡ b
bit_xor_same a b x e = sym (bit_xor_undo a x) ∙ ap (λ n. bit_xor n x) e ∙ bit_xor_undo b x

-- The checksums of two blocks that differ in the first byte differ.
pub xor_all_same : (bs : List ℕ) (c d : ℕ) → xor_all c bs ≡ xor_all d bs → c ≡ d
unfolding xor_all
xor_all_same [] c d e = e
xor_all_same (b ∷ bs) c d e = bit_xor_same c d b (xor_all_same bs (bit_xor c b) (bit_xor d b) e)

-- All bytes are below 256.
unfoldable pub AllBytes : List ℕ → Type 0
AllBytes [] = Unit
AllBytes (b ∷ bs) = (b < 256) × AllBytes bs

pub xor_all-lt : (bs : List ℕ) (c : ℕ) → AllBytes bs → c < 256 → xor_all c bs < 256
unfolding xor_all AllBytes
xor_all-lt [] c all lt = lt
xor_all-lt (b ∷ bs) c all lt = xor_all-lt bs (bit_xor c b) all.1 (bit_xor-lt_byte c b lt all.0)

module _ (ee : Eeprom) where
  -- A block written leaves the bytes before it alone.
  read_byte-write_block :
      (vs : List ℕ) (s : ee.State) (a j : ℕ)
      → j < a
      → a + length vs ≤ eeprom_size
      → ee.read_byte (ee.write_block s a vs) j ≡ ee.read_byte s j
  read_byte-write_block [] s a j lt fits = rw (ee.write_block-nil s a) refl
  read_byte-write_block (v ∷ vs) s a j lt fits = rw (ee.write_block-cons s a v vs (omega arith)) (
      read_byte-write_block vs (ee.write_byte s a v) (a + 1) j (omega arith) (omega arith)
      ∙ ee.read-write_other s a j v (λ e. omega arith))

  pub read_block-write_block :
      (vs : List ℕ) (s : ee.State) (a : ℕ)
      → AllBytes vs
      → a + length vs ≤ eeprom_size
      → ee.read_block (ee.write_block s a vs) a (length vs) ≡ vs
  unfolding AllBytes
  read_block-write_block [] s a all fits = ee.read_block-zero _ a
  read_block-write_block (v ∷ vs) s a all fits = rw (ee.write_block-cons s a v vs (omega arith)) (
      ee.read_block-suc (ee.write_block (ee.write_byte s a v) (a + 1) vs) a (length vs)
        (omega arith)
      ∙ ap₂ ◌∷◌
          (read_byte-write_block vs (ee.write_byte s a v) (a + 1) a (omega arith) (omega arith)
            ∙ ee.read-write s a v (omega arith) all.0)
          (read_block-write_block vs (ee.write_byte s a v) (a + 1) all.1 (omega arith)))

  -- A byte written behind a block, or before it, leaves the block alone.
  pub read_block-behind :
      (n : ℕ) (s : ee.State) (a j v : ℕ)
      → a + n ≤ j
      → a + n ≤ eeprom_size
      → ee.read_block (ee.write_byte s j v) a n ≡ ee.read_block s a n
  read_block-behind zero s a j v le fits = ee.read_block-zero _ a ∙ sym (ee.read_block-zero s a)
  read_block-behind (suc n) s a j v le fits =
      ee.read_block-suc _ a n (omega arith)
      ∙ ap₂ ◌∷◌ (ee.read-write_other s j a v (λ e. omega arith))
          (read_block-behind n s (a + 1) j v (omega arith) (omega arith))
      ∙ sym (ee.read_block-suc s a n (omega arith))

  pub read_block-before :
      (n : ℕ) (s : ee.State) (a j v : ℕ)
      → j < a
      → a + n ≤ eeprom_size
      → ee.read_block (ee.write_byte s j v) a n ≡ ee.read_block s a n
  read_block-before zero s a j v lt fits = ee.read_block-zero _ a ∙ sym (ee.read_block-zero s a)
  read_block-before (suc n) s a j v lt fits =
      ee.read_block-suc _ a n (omega arith)
      ∙ ap₂ ◌∷◌ (ee.read-write_other s j a v (λ e. omega arith))
          (read_block-before n s (a + 1) j v (omega arith) (omega arith))
      ∙ sym (ee.read_block-suc s a n (omega arith))
