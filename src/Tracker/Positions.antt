-- ===== src/Tracker/Positions.antt =====
-- The position buffer of tracker.c: putPos, getPos and posBuf_empty.
use arctic_tracker_teensy.Base.{ℕ, ◌+◌, ◌-◌, ◌%◌, Bool, ltb, leb, ◌==◌, if◌then◌else◌}
use arctic_tracker_teensy.Run.{update}

-- MAX_BUFFERPOS
abbrev pub max_bufferpos : ℕ
max_bufferpos = 5

-- `pos_buf`, `nPos` and `nextPos`
pub record PosBuf (A : Type 0) : Type 0 where
  pub n_pos : ℕ
  pub next_pos : ℕ
  pub pos_buf : ℕ → A

module _ {A : Type 0} where
  -- putPos
  unfoldable pub put_pos : A → PosBuf A → PosBuf A
  put_pos p s = record s {
    n_pos = if ltb s.n_pos max_bufferpos then s.n_pos + 1 else s.n_pos;
    next_pos = (s.next_pos + 1) % max_bufferpos;
    pos_buf = update s.pos_buf s.next_pos p;
  }

  -- getPos, of a buffer that is not empty
  unfoldable pub get_pos : PosBuf A → A × PosBuf A
  get_pos s = (
    s.pos_buf (
        if leb s.n_pos s.next_pos
        then s.next_pos - s.n_pos
        else max_bufferpos + s.next_pos - s.n_pos),
    record s { n_pos = s.n_pos - 1 },
  )

  -- posBuf_empty
  unfoldable pub pos_buf_empty : PosBuf A → Bool
  pos_buf_empty s = s.n_pos == 0
