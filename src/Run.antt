-- ===== src/Run.antt =====
-- Commands over the slot pool of fbuf.c: the pool is passed along, an access outside an array is a
-- fault, and a loop that outlives its fuel (or waits for input that never comes) is stuck.
pub mod Returns
pub mod Monad
use arctic_tracker_teensy.Base.{ℕ, ◌≡◌, Bool, true, false, List, ltb, ◌==◌, if◌then◌else◌}

-- `fbslot_t`: `buf` gives the byte at each index below `slot_size`.
pub record Slot : Type 0 where
  pub refcnt : ℕ
  pub length : ℕ
  pub next : ℕ
  pub buf : ℕ → ℕ

-- The static variables of fbuf.c: `_pool`, `_free_slots` and whether `memFullError` is set.
pub record Pool : Type 0 where
  pub slot : ℕ → Slot
  pub free_slots : ℕ
  pub has_handler : Bool

-- FBUF_SLOTS
abbrev pub slots : ℕ
slots = 900

-- FBUF_SLOTSIZE
abbrev pub slot_size : ℕ
slot_size = 32

-- NILPTR
abbrev pub nil : ℕ
nil = 65535

pub data Run (A : Type 0) : Type 0 where
  ok : A → Pool → Run A
  fault : Run A
  stuck : Run A

abbrev pub Cmd : Type 0 → Type 0
Cmd A = Pool → Run A

abbrev pub pure : {A : Type 0} → A → Cmd A
pure a p = ok a p

module _ {A B : Type 0} where
  abbrev pub and_then : Run A → (A → Cmd B) → Run B
  and_then (ok a p) k = k a p
  and_then fault k = fault
  and_then stuck k = stuck

  infixl 5 ◌>>=◌
  abbrev pub ◌>>=◌ : Cmd A → (A → Cmd B) → Cmd B
  m >>= k = λ p. and_then (m p) k

module _ {B : Type 0} where
  infixl 5 ◌>>◌
  abbrev pub ◌>>◌ : Cmd (Unit {0}) → Cmd B → Cmd B
  m >> k = m >>= λ _. k

-- A write to one index of an array.
unfoldable pub update : {A : Type 0} → (ℕ → A) → ℕ → A → (ℕ → A)
update array at new i = if i == at then new else array i

-- `_pool[i]`, read and written
unfoldable pub get_slot : ℕ → Cmd Slot
get_slot i p = if ltb i slots then ok (p.slot i) p else fault

unfoldable pub put_slot : ℕ → Slot → Cmd (Unit {0})
put_slot i s p = if ltb i slots then ok tt (record p { slot = update p.slot i s }) else fault
