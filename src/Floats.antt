-- ===== src/Floats.antt =====
-- The floating point arithmetic and the conversions that gps.c and tracker.c use, as an interface:
-- the values of both formats are of one type, and `single` is the conversion to float.
pub mod Naturals
use arctic_tracker_teensy.Base.{ℕ, ◌<◌, ◌^◌, Bool, List}

pub record Floats : Type 1 where
  pub F : Type 0
  pub number : ℕ → F
  -- The literal `n / 10 ^ places`.
  pub literal : ℕ → ℕ → F
  pub single : F → F
  pub neg : F → F
  pub add : F → F → F
  pub sub : F → F → F
  pub mul : F → F → F
  pub div : F → F → F
  pub lt : F → F → Bool
  pub eq : F → F → Bool
  pub sin : F → F
  pub cos : F → F
  pub asin : F → F
  pub sqrt : F → F
  pub log : F → F
  pub fabs : F → F
  pub round : F → F
  pub atan2 : F → F → F
  -- The conversion to an unsigned integer type of `w` bits.
  pub to_uint : ℕ → F → ℕ
  pub to_uint-lt : (w : ℕ) (x : F) → to_uint w x < 2 ^ w
  -- `%05.2f`, `%03.0f` and `%.1f`, and what sscanf makes of `%f`.
  pub minutes : F → List ℕ
  pub whole : F → List ℕ
  pub tenths : F → List ℕ
  pub scan : List ℕ → F
