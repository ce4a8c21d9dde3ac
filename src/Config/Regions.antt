-- ===== src/Config/Regions.antt =====
-- Regions of the EEPROM that do not meet: to set one leaves what is read of another as it was.
use arctic_tracker_teensy.Base.{
  ℕ, zero, suc, ◌+◌, ◌≤◌, ◌<◌, ◌≡◌, refl, sym, ap₂, ◌∙◌, ◌⊎◌, List, [], ◌∷◌, length, arith,
}
use arctic_tracker_teensy.Config.{Eeprom, eeprom_size, set_param, get_param}

-- Regions of `m` and `n` bytes, each with a byte behind it, that do not meet.
abbrev pub IsApart : ℕ → ℕ → ℕ → ℕ → Type 0
IsApart a m b n = (a + m < b) ⊎ (b + n < a)

module _ (ee : Eeprom) where
  byte_kept :
      (vs : List ℕ) (s : ee.State) (a j : ℕ)
      → (j < a) ⊎ (a + length vs ≤ j)
      → a + length vs ≤ eeprom_size
      → ee.read_byte (ee.write_block s a vs) j ≡ ee.read_byte s j
  byte_kept [] s a j away fits = rw (ee.write_block-nil s a) refl
  byte_kept (v ∷ vs) s a j away fits = rw (ee.write_block-cons s a v vs (omega arith)) (
      byte_kept vs (ee.write_byte s a v) (a + 1) j (ground arith) (omega arith)
      ∙ ee.read-write_other s a j v (λ e. ground arith))

  block_kept :
      (n : ℕ) (s t : ee.State) (b : ℕ)
      → ((j : ℕ) → b ≤ j → j < b + n → ee.read_byte t j ≡ ee.read_byte s j)
      → b + n ≤ eeprom_size
      → ee.read_block t b n ≡ ee.read_block s b n
  block_kept zero s t b same fits = ee.read_block-zero t b ∙ sym (ee.read_block-zero s b)
  block_kept (suc n) s t b same fits =
      ee.read_block-suc t b n (omega arith)
      ∙ ap₂ ◌∷◌ (same b (omega arith) (omega arith)) (
          block_kept n s t (b + 1) (λ j low high. same j (omega arith) (omega arith)) (omega arith))
      ∙ sym (ee.read_block-suc s b n (omega arith))

  byte_set :
      (bytes : List ℕ) (s : ee.State) (a j : ℕ)
      → (j < a) ⊎ (a + length bytes < j)
      → a + length bytes < eeprom_size
      → ee.read_byte (set_param ee a bytes s) j ≡ ee.read_byte s j
  unfolding set_param
  byte_set bytes s a j away fits =
      ee.read-write_other _ (a + length bytes) j _ (λ e. ground arith)
      ∙ byte_kept bytes s a j (ground arith) (omega arith)

  -- To set a region leaves what is read of another as it was.
  pub region_kept :
      (bytes : List ℕ) (s : ee.State) (a b n : ℕ) (d : List ℕ)
      → IsApart a (length bytes) b n
      → a + length bytes < eeprom_size
      → b + n < eeprom_size
      → get_param ee b n d (set_param ee a bytes s) ≡ get_param ee b n d s
  unfolding get_param
  region_kept bytes s a b n d apart a_fits b_fits =
      let block =
        block_kept n s (set_param ee a bytes s) b
          (λ j low high. byte_set bytes s a j (ground arith) a_fits) (omega arith) in
      rw (block, byte_set bytes s a (b + n) (ground arith) a_fits) refl
