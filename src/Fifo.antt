-- ===== src/Fifo.antt =====
-- fifo.h: a ring of bytes with 8-bit counters.
pub mod Queue
mod Tests
use arctic_tracker_teensy.Base.{
  ℕ, ◌+◌, ◌-◌, ◌%◌, Bool, Option, none, some, leb, ◌==◌, if◌then◌else◌,
}
use arctic_tracker_teensy.Run.{update}

-- `fifo_t`: `buffer` gives the byte at each index below `size`.
pub record Fifo : Type 0 where
  pub size : ℕ
  pub len : ℕ
  pub pos : ℕ
  pub buffer : ℕ → ℕ

-- fifo_init
unfoldable pub init : (ℕ → ℕ) → ℕ → Fifo
init buffer size = record { size = size; len = 0; pos = 0; buffer = buffer }

-- fifo_push, for a size of at most 128: the index is a signed byte.
unfoldable pub push : ℕ → Fifo → Fifo
push x f =
    if leb f.size f.len
    then f
    else record f { len = f.len + 1; buffer = update f.buffer ((f.pos + (f.len + 1)) % f.size) x }

-- fifo_pop
unfoldable pub pop : Fifo → ℕ × Fifo
pop f =
    let next = (f.pos + 1) % f.size in
    if f.len == 0 then (0, f) else (f.buffer next, record f { len = f.len - 1; pos = next })
