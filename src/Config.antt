-- ===== src/Config.antt =====
-- config.c: parameters in EEPROM, each followed by a checksum. The driver of the EEPROM is an
-- interface: what it stores and how a byte or a block of bytes is read and written.
pub mod Blocks
pub mod Layout
pub mod Params
mod Regions
pub mod Apart
pub mod Store
pub mod Tests
use arctic_tracker_teensy.Base.{
  ℕ, zero, suc, ◌+◌, ◌<◌, ◌≡◌, ◌≢◌, Bool, List, [], ◌∷◌, length, bit_xor, ◌==◌, if◌then◌else◌,
}

-- EEPROM_SIZE of the driver
abbrev pub eeprom_size : ℕ
eeprom_size = 1024

-- eeprom_read_byte, eeprom_write_byte, eeprom_read_block and eeprom_write_block: bytes are kept
-- apart by their addresses, and a block is its bytes at successive addresses. At addresses from
-- EEPROM_SIZE on nothing is stored.
pub record Eeprom : Type 1 where
  pub State : Type 0
  pub read_byte : State → ℕ → ℕ
  pub write_byte : State → ℕ → ℕ → State
  pub read_block : State → ℕ → ℕ → List ℕ
  pub write_block : State → ℕ → List ℕ → State
  pub read-write :
      (s : State) (a v : ℕ) → a < eeprom_size → v < 256 → read_byte (write_byte s a v) a ≡ v
  pub read-write_other :
      (s : State) (a b v : ℕ) → a ≢ b → read_byte (write_byte s a v) b ≡ read_byte s b
  pub read_block-zero : (s : State) (a : ℕ) → read_block s a 0 ≡ []
  pub read_block-suc :
      (s : State) (a n : ℕ)
      → a + n < eeprom_size
      → read_block s a (suc n) ≡ read_byte s a ∷ read_block s (a + 1) n
  pub write_block-nil : (s : State) (a : ℕ) → write_block s a [] ≡ s
  pub write_block-cons :
      (s : State) (a v : ℕ) (vs : List ℕ)
      → a + length vs < eeprom_size
      → write_block s a (v ∷ vs) ≡ write_block (write_byte s a v) (a + 1) vs

-- `checksum ^= byte` for each byte
unfoldable pub xor_all : ℕ → List ℕ → ℕ
xor_all c [] = c
xor_all c (b ∷ bs) = xor_all (bit_xor c b) bs

module _ (ee : Eeprom) where
  -- reset_param
  unfoldable pub reset_param : ℕ → ee.State → ee.State
  reset_param ee_addr s = ee.write_byte s ee_addr 0xff

  -- set_param
  unfoldable pub set_param : ℕ → List ℕ → ee.State → ee.State
  set_param ee_addr bytes s =
      ee.write_byte (ee.write_block s ee_addr bytes) (ee_addr + length bytes) (xor_all 0x0f bytes)

  -- get_param: the bytes, and 1 where they are the default.
  unfoldable pub get_param : ℕ → ℕ → List ℕ → ee.State → List ℕ × ℕ
  get_param ee_addr size default_val s =
      let bytes = ee.read_block s ee_addr size in
      if ee.read_byte s (ee_addr + size) == xor_all 0x0f bytes then (bytes, 0) else (default_val, 1)

  -- set_byte_param
  unfoldable pub set_byte_param : ℕ → ℕ → ee.State → ee.State
  set_byte_param ee_addr byte s =
      ee.write_byte (ee.write_byte s ee_addr byte) (ee_addr + 1) (bit_xor 0x0f byte)

  -- get_byte_param
  unfoldable pub get_byte_param : ℕ → ℕ → ee.State → ℕ
  get_byte_param ee_addr default_val s =
      let b1 = ee.read_byte s ee_addr in
      let b2 = ee.read_byte s (ee_addr + 1) in if bit_xor 0x0f b1 == b2 then b1 else default_val
