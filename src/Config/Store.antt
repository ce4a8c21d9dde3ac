-- ===== src/Config/Store.antt =====
-- What get_param and get_byte_param return after a parameter was set, and after it was reset.
use arctic_tracker_teensy.Base.{
  ℕ, suc, ◌+◌, ◌<◌, ◌≡◌, ◌≢◌, refl, sym, ap₂, ◌∙◌, inl, inr, List, ◌∷◌, length, bit_xor, arith,
  ◌==◌, eq→==, ne→==, ==→eq, ==→ne, Bool-cases, if◌then◌else◌,
}
use arctic_tracker_teensy.Base.Bits.{bit_xor_comm, bit_xor-lt_byte}
use arctic_tracker_teensy.Config.{
  Eeprom, eeprom_size, xor_all, reset_param, set_param, get_param, set_byte_param, get_byte_param,
}
use arctic_tracker_teensy.Config.Blocks.{
  bit_xor_same, xor_all_same, AllBytes, xor_all-lt, read_block-write_block, read_block-behind,
  read_block-before,
}

bit_xor_left : (c a b : ℕ) → bit_xor c a ≡ bit_xor c b → a ≡ b
bit_xor_left c a b e = bit_xor_same a b c (bit_xor_comm a c ∙ e ∙ bit_xor_comm c b)

tail_same : (x y : ℕ) (xs ys : List ℕ) → x ∷ xs ≡ y ∷ ys → xs ≡ ys
tail_same x y xs ys e = cc e

module _ (ee : Eeprom) (ee_addr : ℕ) (s : ee.State) where
  -- The block and its checksum once the parameter is set.
  block_set :
      (bytes : List ℕ)
      → AllBytes bytes
      → ee_addr + length bytes < eeprom_size
      → ee.read_block (set_param ee ee_addr bytes s) ee_addr (length bytes) ≡ bytes
  unfolding set_param
  block_set bytes all fits =
      read_block-behind ee (length bytes) (ee.write_block s ee_addr bytes) ee_addr _ _ (omega arith)
        (omega arith)
      ∙ read_block-write_block ee bytes s ee_addr all (omega arith)

  sum_set :
      (bytes : List ℕ)
      → AllBytes bytes
      → ee_addr + length bytes < eeprom_size
      → ee.read_byte (set_param ee ee_addr bytes s) (ee_addr + length bytes) ≡ xor_all 0x0f bytes
  unfolding set_param
  sum_set bytes all fits = ee.read-write _ _ _ fits (xor_all-lt bytes 0x0f all (omega arith))

  -- get_param returns the bytes that set_param stored, and 0, where they and the checksum lie inside
  -- the EEPROM.
  pub get_param-set_param :
      (bytes default_val : List ℕ)
      → AllBytes bytes
      → ee_addr + length bytes < eeprom_size
      → get_param ee ee_addr (length bytes) default_val (set_param ee ee_addr bytes s) ≡ (bytes, 0)
  unfolding get_param
  get_param-set_param bytes default_val all fits =
      rw (block_set bytes all fits, sum_set bytes all fits, eq→== (xor_all 0x0f bytes) _ refl) refl

  -- The block of a parameter of which the first byte was overwritten.
  block_reset :
      (x : ℕ) (bs : List ℕ)
      → AllBytes (x ∷ bs)
      → ee_addr + suc (length bs) < eeprom_size
      → ee.read_block
          (reset_param ee ee_addr (set_param ee ee_addr (x ∷ bs) s))
          ee_addr
          (suc (length bs))
        ≡ 0xff ∷ bs
  unfolding reset_param
  block_reset x bs all fits =
      let t = set_param ee ee_addr (x ∷ bs) s in
      let behind : ee.read_block t (ee_addr + 1) (length bs) ≡ bs = tail_same _ x _ bs (
        sym (ee.read_block-suc t ee_addr (length bs) (omega arith))
        ∙ block_set (x ∷ bs) all fits) in
      ee.read_block-suc _ ee_addr (length bs) (omega arith)
      ∙ ap₂ ◌∷◌ (ee.read-write t ee_addr 0xff (omega arith) (omega arith)) (
          read_block-before ee (length bs) t (ee_addr + 1) ee_addr 0xff (omega arith) (omega arith)
          ∙ behind)

  sum_reset :
      (x : ℕ) (bs : List ℕ)
      → AllBytes (x ∷ bs)
      → ee_addr + suc (length bs) < eeprom_size
      → ee.read_byte
          (reset_param ee ee_addr (set_param ee ee_addr (x ∷ bs) s))
          (ee_addr + suc (length bs))
        ≡ xor_all 0x0f (x ∷ bs)
  unfolding reset_param
  sum_reset x bs all fits =
      ee.read-write_other _ ee_addr _ 0xff (λ e. omega arith) ∙ sum_set (x ∷ bs) all fits

  -- After reset_param, get_param returns the default and 1, unless the parameter began with 0xff:
  -- then it is still there.
  pub get_param-reset_param :
      (x : ℕ) (bs default_val : List ℕ)
      → AllBytes (x ∷ bs)
      → ee_addr + suc (length bs) < eeprom_size
      → get_param ee ee_addr
          (suc (length bs))
          default_val
          (reset_param ee ee_addr (set_param ee ee_addr (x ∷ bs) s))
        ≡ (if x == 0xff then (x ∷ bs, 0) else (default_val, 1))
  unfolding get_param xor_all
  get_param-reset_param x bs default_val all fits = elim (Bool-cases (x == 0xff)) [
    | inl e ↦
        let same = ==→eq x 0xff e in
        rw
          (
            block_reset x bs all fits,
            sum_reset x bs all fits,
            same,
            eq→== (xor_all 0x0f (0xff ∷ bs)) _ refl,
          )
          refl
    | inr e ↦
        let other : xor_all 0x0f (x ∷ bs) ≢ xor_all 0x0f (0xff ∷ bs) = λ same.
          ==→ne x 0xff e (
            bit_xor_left 0x0f x 0xff (xor_all_same bs (bit_xor 0x0f x) (bit_xor 0x0f 0xff) same)) in
        rw (block_reset x bs all fits, sum_reset x bs all fits, ne→== _ _ other, e) refl
  ]

  -- get_byte_param returns the byte that set_byte_param stored. After reset_param it returns the
  -- default, unless the byte was 0xff.
  pub get_byte_param-set_byte_param :
      (byte default_val : ℕ)
      → byte < 256
      → ee_addr + 1 < eeprom_size
      → (get_byte_param ee ee_addr default_val (set_byte_param ee ee_addr byte s) ≡ byte)
        × (get_byte_param ee ee_addr default_val
              (reset_param ee ee_addr (set_byte_param ee ee_addr byte s))
            ≡ (if byte == 0xff then 0xff else default_val))
  unfolding get_byte_param set_byte_param reset_param
  get_byte_param-set_byte_param byte default_val lt fits =
      let first = ee.write_byte s ee_addr byte in
      let both = ee.write_byte first (ee_addr + 1) (bit_xor 0x0f byte) in
      let b1 : ee.read_byte both ee_addr ≡ byte =
        ee.read-write_other first (ee_addr + 1) ee_addr (bit_xor 0x0f byte) (λ e. omega arith)
        ∙ ee.read-write s ee_addr byte (omega arith) lt in
      let b2 : ee.read_byte both (ee_addr + 1) ≡ bit_xor 0x0f byte =
        ee.read-write first (ee_addr + 1) (bit_xor 0x0f byte) fits
          (bit_xor-lt_byte 0x0f byte (omega arith) lt) in
      let r1 = ee.read-write both ee_addr 0xff (omega arith) (omega arith) in
      let r2 = ee.read-write_other both ee_addr (ee_addr + 1) 0xff (λ e. omega arith) ∙ b2 in
      (
        rw (b1, b2, eq→== (bit_xor 0x0f byte) _ refl) refl,
        elim (Bool-cases (byte == 0xff)) [
          | inl e ↦ rw (r1, r2, ==→eq byte 0xff e) refl
          | inr e ↦
              let other : bit_xor 0x0f 0xff ≢ bit_xor 0x0f byte =
                λ same. ==→ne byte 0xff e (sym (bit_xor_left 0x0f 0xff byte same)) in
              rw (r1, r2, ne→== (bit_xor 0x0f 0xff) (bit_xor 0x0f byte) other, e) refl
        ],
      )
