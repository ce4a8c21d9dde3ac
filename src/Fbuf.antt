-- ===== src/Fbuf.antt =====
-- fbuf.c, the buffer chains: an FBUF lives outside the pool, so an operation that changes one
-- returns the new value. A loop along a chain has fuel for one round more than there are slots.
pub mod Chain
pub mod Count
pub mod Alloc
pub mod Buffer
pub mod Fill
pub mod Extend
pub mod Write
pub mod Read
pub mod Print
pub mod Search
pub mod Seek
pub mod Release
pub mod Share
pub mod Join
pub mod Split
pub mod Walk
pub mod Splice
pub mod Queue
pub mod Queued
pub mod Tests
mod QueueTests
mod SpliceTests
use arctic_tracker_teensy.Base.{
  ℕ, zero, suc, ◌+◌, ◌-◌, ◌*◌, ◌%◌, Bool, true, false, ◌&&◌, ◌||◌, not, List, [], ◌∷◌, ◌++◌, ltb,
  leb, ◌==◌, if◌then◌else◌,
}
use arctic_tracker_teensy.Run.{
  Slot, Pool, slots, slot_size, nil, Run, ok, fault, stuck, Cmd, pure, ◌>>=◌, ◌>>◌, update,
  get_slot, put_slot,
}

-- `FBUF`
pub record Fbuf : Type 0 where
  pub head : ℕ
  pub wslot : ℕ
  pub rslot : ℕ
  pub rpos : ℕ
  pub length : ℕ

abbrev pub fuel : ℕ
fuel = 901

-- fbuf_freeSlots, fbuf_usedSlots, fbuf_freeMem
pub free_slots : Pool → ℕ
free_slots p = p.free_slots

pub used_slots : Pool → ℕ
used_slots p = (slots + 65536 - p.free_slots) % 65536

pub free_mem : Pool → ℕ
free_mem p = (p.free_slots * slot_size) % 65536

-- fbuf_errorHandler: only whether the handler is NULL is kept.
pub error_handler : Bool → Cmd (Unit {0})
error_handler installed p = ok tt (record p { has_handler = installed })

-- What `_fbuf_newslot` writes into the slot that it takes.
abbrev pub fresh_slot : Slot → Slot
fresh_slot s = record s { refcnt = 1; length = 0; next = nil }

-- The pool once slot `i` is taken.
abbrev pub taken : Pool → ℕ → Pool
taken p i = record p {
  slot = update p.slot i (fresh_slot (p.slot i));
  free_slots = (p.free_slots + 65535) % 65536;
}

-- The loop of `_fbuf_newslot` from index `i`, with `n` rounds to go.
unfoldable pub new_slot_loop : ℕ → ℕ → Cmd ℕ
new_slot_loop zero i p = ok nil p
new_slot_loop (suc n) i p =
    let rest = new_slot_loop n (i + 1) p in
    if (p.slot i).refcnt == 0 then ok i (taken p i) else rest

-- _fbuf_newslot
unfoldable pub new_slot : Cmd ℕ
new_slot = new_slot_loop slots 0

-- fbuf_new
unfoldable pub new : Cmd Fbuf
new = do i ← new_slot; pure (record { head = i; wslot = i; rslot = i; rpos = 0; length = 0 })

-- `if (refcnt > 0) { refcnt--; if (refcnt == 0) _free_slots++; }` of fbuf_release
unfoldable pub drop_ref : ℕ → Cmd (Unit {0})
drop_ref i p =
    let s = p.slot i in
    if leb slots i
    then fault
    else if s.refcnt == 0
    then ok tt p
    else ok tt (record p {
      slot = update p.slot i (record s { refcnt = s.refcnt - 1 });
      free_slots = if s.refcnt == 1 then (p.free_slots + 1) % 65536 else p.free_slots;
    })

unfoldable pub release_loop : ℕ → ℕ → Cmd (Unit {0})
release_loop zero b = λ _. stuck
release_loop (suc n) b =
    if b == nil then pure tt else do drop_ref b; s ← get_slot b; release_loop n s.next

-- fbuf_release
unfoldable pub release : Fbuf → Cmd Fbuf
release b = do
  release_loop fuel b.head
  pure (record { head = nil; wslot = nil; rslot = nil; rpos = 0; length = 0 })

-- fbuf_reset
unfoldable pub reset : Fbuf → Fbuf
reset b = record b { rslot = b.head; rpos = 0 }

unfoldable pub new_ref_loop : ℕ → ℕ → Cmd (Unit {0})
new_ref_loop zero b = λ _. stuck
new_ref_loop (suc n) b = if b == nil then pure tt else do
  s ← get_slot b
  put_slot b (record s { refcnt = (s.refcnt + 1) % 256 })
  new_ref_loop n s.next

-- fbuf_newRef
unfoldable pub new_ref : Fbuf → Cmd Fbuf
new_ref b = do
  new_ref_loop fuel b.head
  pure (record { head = b.head; wslot = b.wslot; rslot = b.head; rpos = 0; length = b.length })

-- The loop of fbuf_rseek: it leaves the slot and the position in it.
unfoldable pub rseek_loop : ℕ → ℕ → ℕ → Cmd (ℕ × ℕ)
rseek_loop zero r i = λ _. stuck
rseek_loop (suc n) r i = do
  s ← get_slot r
  if ltb s.length i then rseek_loop n s.next (i - s.length) else pure (r, i)

-- fbuf_rseek
unfoldable pub rseek : Fbuf → ℕ → Cmd Fbuf
rseek b pos =
    if ltb b.length pos
    then pure b
    else do (r, i) ← rseek_loop fuel b.head pos; pure (record b { rslot = r; rpos = i })

-- `_pool[i].buf[pos] = c; _pool[i].length++`
unfoldable pub store_char : ℕ → ℕ → ℕ → Cmd (Unit {0})
store_char i pos c = if leb slot_size pos then (λ _. fault) else do
  s ← get_slot i
  put_slot i (record s { buf = update s.buf pos c; length = (s.length + 1) % 256 })

-- `_pool[i].next = j`
unfoldable pub set_next : ℕ → ℕ → Cmd (Unit {0})
set_next i j = do s ← get_slot i; put_slot i (record s { next = j })

-- The part of fbuf_putChar that links a fresh slot behind the last one. With a handler set the
-- call goes on with no slot, and its write falls outside the pool.
unfoldable pub put_in_new : Fbuf → ℕ → Cmd Fbuf
put_in_new b c = do
  j ← new_slot
  λ p.
      if j == nil && not p.has_handler
      then ok b p
      else (do
        set_next b.wslot j
        store_char j 0 c
        pure (record b {
          head = if b.head == nil then j else b.head;
          rslot = if b.head == nil then j else b.rslot;
          wslot = j;
          length = (b.length + 1) % 65536;
        }))
          p

-- The part of fbuf_putChar below its first test, with the length of the last slot.
unfoldable pub put_at : Fbuf → ℕ → ℕ → Cmd Fbuf
put_at b c pos =
    if pos == slot_size || b.head == nil
    then put_in_new b c
    else do store_char b.wslot pos c; pure (record b { length = (b.length + 1) % 65536 })

-- fbuf_putChar
unfoldable pub put_char : Fbuf → ℕ → Cmd Fbuf
put_char b c = if b.wslot == nil then pure b else do s ← get_slot b.wslot; put_at b c s.length

-- fbuf_write, of the first `size` bytes of its argument
unfoldable pub write : Fbuf → List ℕ → Cmd Fbuf
write b [] = pure b
write b (c ∷ cs) = do b' ← put_char b c; write b' cs

-- fbuf_putstr, of a string that ends at its first NUL or with the list
unfoldable pub put_str : Fbuf → List ℕ → Cmd Fbuf
put_str b [] = pure b
put_str b (c ∷ cs) = if c == 0 then pure b else do b' ← put_char b c; put_str b' cs

-- The move of the read position in fbuf_getChar, where `s` is the slot that it stands in.
unfoldable pub advance : Fbuf → Slot → Fbuf
advance b s =
    if b.rpos + 1 == s.length
    then record b { rslot = s.next; rpos = 0 }
    else record b { rpos = (b.rpos + 1) % 65536 }

-- fbuf_getChar
unfoldable pub get_char : Fbuf → Cmd (ℕ × Fbuf)
get_char b = do
  s ← get_slot b.rslot
  if leb slot_size b.rpos then (λ _. fault) else pure (s.buf b.rpos, advance b s)

-- `n` calls of fbuf_getChar, the bytes in order
unfoldable pub get_chars : ℕ → Fbuf → Cmd (List ℕ × Fbuf)
get_chars zero b = pure ([], b)
get_chars (suc n) b = do (c, b') ← get_char b; (cs, b'') ← get_chars n b'; pure (c ∷ cs, b'')

-- fbuf_print: what goes to the stream
unfoldable pub print : Fbuf → Cmd (List ℕ × Fbuf)
print b = get_chars b.length (reset b)
