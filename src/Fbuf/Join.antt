-- ===== src/Fbuf/Join.antt =====
-- fbuf_insert, fbuf_connect, fbuf_removeLast, fbuf_read and fbuf_streamRead of fbuf.c.
use arctic_tracker_teensy.Base.{
  ℕ, zero, suc, ◌+◌, ◌-◌, ◌%◌, not, ◌&&◌, ◌||◌, List, [], ◌∷◌, ◌++◌, ltb, leb, ◌==◌, if◌then◌else◌,
}
use arctic_tracker_teensy.Run.{
  Slot, slot_size, nil, ok, stuck, Cmd, pure, ◌>>=◌, ◌>>◌, get_slot, put_slot,
}
use arctic_tracker_teensy.Fbuf.{Fbuf, fuel, new_slot, set_next, put_char}

-- `_pool[newslot].buf[i] = _pool[islot].buf[pos+i]` for the first `n` indices
unfoldable pub copy_bytes : ℕ → ℕ → (ℕ → ℕ) → (ℕ → ℕ) → ℕ → ℕ
copy_bytes n pos from to i = if ltb i n then from (pos + i) else to i

-- `_pool[islot].length - pos`, as a byte
abbrev pub length_behind : ℕ → ℕ → ℕ
length_behind length pos = if ltb length pos then (length + 65536 - pos) % 256 else length - pos

-- The part of _split that fills the new slot and shortens the old one.
unfoldable pub divide : ℕ → ℕ → ℕ → Slot → Slot → Cmd (Unit {0})
divide islot newslot pos s t = do
  put_slot newslot (record {
    refcnt = s.refcnt;
    length = length_behind s.length pos;
    next = s.next;
    buf = copy_bytes (s.length - pos) pos s.buf t.buf;
  })
  put_slot islot (record s { next = newslot; length = pos })

-- _split, for a position below 256
unfoldable pub split : ℕ → ℕ → Cmd ℕ
split islot pos = if pos == 0 then (do s ← get_slot islot; pure s.next) else do
  newslot ← new_slot
  s ← get_slot islot
  t ← get_slot newslot
  divide islot newslot pos s t
  pure newslot

-- The first loop of fbuf_insert and of fbuf_connect: the slot to divide and the position in it.
unfoldable pub find_slot : ℕ → ℕ → ℕ → Cmd (ℕ × ℕ)
find_slot zero islot pos = λ _. stuck
find_slot (suc n) islot pos = if ltb pos slot_size then pure (islot, pos) else do
  s ← get_slot islot
  find_slot n (if 0 == (pos + 65536 - s.length) % 65536 then islot else s.next)
      ((pos + 65536 - s.length) % 65536)

-- `while (_pool[xlast].next != NILPTR) xlast = _pool[xlast].next`
unfoldable pub find_last : ℕ → ℕ → Cmd ℕ
find_last zero i = λ _. stuck
find_last (suc n) i = do s ← get_slot i; if s.next == nil then pure i else find_last n s.next

-- `_pool[i].refcnt++`
unfoldable pub refer : ℕ → Cmd (Unit {0})
refer i = do s ← get_slot i; put_slot i (record s { refcnt = (s.refcnt + 1) % 256 })

-- The loop that counts the references behind slot `i`, and ends at the last.
unfoldable pub refer_rest : ℕ → ℕ → Cmd ℕ
refer_rest zero i = λ _. stuck
refer_rest (suc n) i = do
  s ← get_slot i
  if s.next == nil then pure i else do refer s.next; refer_rest n s.next

-- fbuf_insert, which changes both handles
unfoldable pub insert : Fbuf → Fbuf → ℕ → Cmd (Fbuf × Fbuf)
insert b x pos = do
  (islot, pos) ← find_slot fuel b.head pos
  refer x.head
  xlast ← refer_rest fuel x.head
  rest ← split islot pos
  set_next xlast rest
  set_next islot x.head
  pure (record b { wslot = nil; length = (b.length + x.length) % 65536 }, record x { wslot = nil })

-- fbuf_connect, which changes both handles
unfoldable pub connect : Fbuf → Fbuf → ℕ → Cmd (Fbuf × Fbuf)
connect b x pos = do
  (islot, p) ← find_slot fuel x.head pos
  xlast ← find_last fuel b.head
  rest ← split islot p
  set_next xlast rest
  _ ← refer_rest fuel xlast
  pure (
    record b { wslot = nil; length = (b.length + x.length + 65536 - pos) % 65536 },
    record x { wslot = nil },
  )

-- `if (_pool[xlast].next != NILPTR) prev = xlast`
unfoldable pub previous : ℕ → ℕ → Cmd ℕ
previous xlast prev = do s ← get_slot xlast; pure (if s.next == nil then prev else xlast)

-- The loop of fbuf_removeLast: the last slot and the one before it.
unfoldable pub last_two : ℕ → ℕ → ℕ → Cmd (ℕ × ℕ)
last_two zero xlast prev = λ _. stuck
last_two (suc n) xlast prev = do
  s ← get_slot xlast
  if s.next == nil
      then pure (xlast, prev)
      else (do prev' ← previous s.next prev; last_two n s.next prev')

-- `_pool[xlast].refcnt--; if (_pool[xlast].refcnt == 0) _free_slots++`
unfoldable pub drop_last : ℕ → Cmd (Unit {0})
drop_last i = do
  s ← get_slot i
  put_slot i (record s { refcnt = (s.refcnt + 255) % 256 })
  λ p.
      ok tt (record p {
        free_slots = if s.refcnt == 1 then (p.free_slots + 1) % 65536 else p.free_slots;
      })

-- `if (_pool[xlast].length == 0 && prev != xlast)` and what it guards
unfoldable pub cut_last : ℕ → ℕ → ℕ → Cmd (Unit {0})
cut_last length xlast prev =
    if length == 0 && not (prev == xlast) then (do drop_last xlast; set_next prev nil) else pure tt

-- fbuf_removeLast
unfoldable pub remove_last : Fbuf → Cmd Fbuf
remove_last x = do
  (xlast, prev) ← last_two fuel x.head x.head
  s ← get_slot xlast
  put_slot xlast (record s { length = (s.length + 255) % 256 })
  cut_last ((s.length + 255) % 256) xlast prev
  pure (record x { length = (x.length + 65535) % 65536 })

-- strncpy of `n` bytes from index `i`: from a NUL on, NULs are written.
unfoldable pub copied : ℕ → ℕ → (ℕ → ℕ) → List ℕ
copied zero i buf = []
copied (suc n) i buf = buf i ∷ copied n (if buf i == 0 then i else i + 1) buf

-- `n = size - r`, cut to the length of the slot
unfoldable pub portion : ℕ → ℕ → ℕ → ℕ
portion size r length = let n = (size + 65536 - r) % 65536 in if ltb length n then length else n

-- The loop of fbuf_read from slot `bb`, with `r` of the `size` bytes read: the further bytes, and
-- how many they are then.
unfoldable pub read_loop : ℕ → ℕ → ℕ → ℕ → Cmd (List ℕ × ℕ)
read_loop zero bb r size = λ _. stuck
read_loop (suc fuel) bb r size = if bb == nil then pure ([], r) else do
  s ← get_slot bb
  let n = portion size r s.length
  if leb size (r + n)
      then pure (copied n 0 s.buf, r + n)
      else (do (cs, k) ← read_loop fuel s.next (r + n) size; pure (copied n 0 s.buf ++ cs, k))

-- fbuf_read: what it writes to the string, and the number that it returns
unfoldable pub read : Fbuf → ℕ → Cmd (List ℕ × ℕ)
read b size = read_loop fuel b.head 0 (if ltb b.length size || size == 0 then b.length else size)

-- fbuf_streamRead, of a stream that gives the bytes listed and then no more: what is left of it
unfoldable pub stream_read : List ℕ → Fbuf → Cmd (List ℕ × Fbuf)
stream_read [] b = λ _. stuck
stream_read (c ∷ []) b = if c == 10 then pure ([], b) else (λ _. stuck)
stream_read (c ∷ d ∷ cs) b =
    if c == 13
    then pure (cs, b)
    else if c == 10
    then pure (d ∷ cs, b)
    else (put_char b c >>= stream_read (d ∷ cs))
