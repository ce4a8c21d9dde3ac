-- ===== src/Text/Limits.antt =====
-- A setting is stored exactly where its number lies within the limits.
use arctic_tracker_teensy.Base.{
  ℕ, ◌+◌, ◌≤◌, ◌<◌, ◌≡◌, ◌≢◌, refl, ◌⊎◌, inl, inr, Option, none, some, List, arith, ltb, ltb→lt,
  ltb→ge, Bool-cases,
}
use arctic_tracker_teensy.Config.{
  Eeprom, eeprom_size, get_param, get_byte_param, set_byte_param, set_param,
}
use arctic_tracker_teensy.Config.Blocks.{AllBytes}
use arctic_tracker_teensy.Config.Store.{get_param-set_param, get_byte_param-set_byte_param}
use arctic_tracker_teensy.Text.{Reply, done, limited, word, parse_byte_setting, parse_word_setting}

-- Either a number within the limits was read and stored, with the reply "OK", or there was none,
-- or one outside the limits, and nothing was stored, with another reply.
abbrev pub Stored : {S : Type 0} → Option ℕ → ℕ → ℕ → (ℕ → S → Type 0) → S → Reply × S → Type 0
Stored {S} o llimit ulimit Holds s r =
    ((n : ℕ) × (o ≡ some n × (llimit ≤ n × (n ≤ ulimit × (r.0 ≡ done × Holds n r.1)))))
    ⊎ ((((n : ℕ) → o ≡ some n → (n < llimit) ⊎ (ulimit < n)) × (r.0 ≢ done)) × (r.1 ≡ s))

some_same : (n m : ℕ) → some n ≡ some m → n ≡ m
some_same n m e = cc e

limited-Stored :
    {S : Type 0} (o : Option ℕ) (llimit ulimit : ℕ) (set : ℕ → S) (s : S) (Holds : ℕ → S → Type 0)
    → ((n : ℕ) → n ≤ ulimit → Holds n (set n))
    → Stored o llimit ulimit Holds s (limited o llimit ulimit set s)
unfolding limited
limited-Stored none llimit ulimit set s Holds holds = inr (((λ n e. cc e), (λ e. cc e)), refl)
limited-Stored (some n) llimit ulimit set s Holds holds = elim (Bool-cases (ltb n llimit)) [
  | inl e ↦
      rw e (
        inr (((λ m same. inl (rw (some_same n m same) at (ltb→lt n llimit e))), (λ e. cc e)), refl))
  | inr e ↦ elim (Bool-cases (ltb ulimit n)) [
    | inl f ↦
        rw (e, f)
          (inr
            (((λ m same. inr (rw (some_same n m same) at (ltb→lt ulimit n f))), (λ e. cc e)), refl))
    | inr f ↦
        let fits = ltb→ge ulimit n f in
        rw (e, f) (inl (n, (refl, (ltb→ge n llimit e, (fits, (refl, holds n fits))))))
  ]
]

module _ (ee : Eeprom) (scan : ℕ → List ℕ → Option ℕ) (ee_addr : ℕ) (val : List ℕ)
    (llimit ulimit : ℕ) (s : ee.State) where
  -- parseByteSetting replies "OK" exactly where it read a number within the limits, which
  -- get_byte_param then returns. Otherwise, where there is no number or one outside the limits, the
  -- EEPROM stays as it was. The upper limit is a byte, and the
  -- address inside the EEPROM.
  pub parse_byte_setting-Stored :
      (default_val : ℕ)
      → ulimit < 256
      → ee_addr + 1 < eeprom_size
      → Stored
          (scan 8 val)
          llimit
          ulimit
          (λ n s'. get_byte_param ee ee_addr default_val s' ≡ n)
          s
          (parse_byte_setting ee scan ee_addr val llimit ulimit s)
  unfolding parse_byte_setting
  parse_byte_setting-Stored default_val small fits =
      limited-Stored (scan 8 val) llimit ulimit (λ n. set_byte_param ee ee_addr n s) s
        (λ n s'. get_byte_param ee ee_addr default_val s' ≡ n)
        λ n low. (get_byte_param-set_byte_param ee ee_addr s n default_val (omega arith) fits).0

  -- parseWordSetting replies "OK" exactly where it read a number within the limits, of which
  -- get_param then returns the two bytes; otherwise the EEPROM stays as it was.
  pub parse_word_setting-Stored :
      (default_val : List ℕ)
      → ee_addr + 2 < eeprom_size
      → Stored
          (scan 16 val)
          llimit
          ulimit
          (λ n s'. get_param ee ee_addr 2 default_val s' ≡ (word n, 0))
          s
          (parse_word_setting ee scan ee_addr val llimit ulimit s)
  unfolding parse_word_setting AllBytes
  parse_word_setting-Stored default_val fits =
      limited-Stored (scan 16 val) llimit ulimit (λ n. set_param ee ee_addr (word n) s) s
        (λ n s'. get_param ee ee_addr 2 default_val s' ≡ (word n, 0))
        λ n low.
          get_param-set_param ee ee_addr s (word n) default_val (omega arith, (omega arith, tt))
            fits
