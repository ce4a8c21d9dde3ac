-- ===== src/Heard.antt =====
-- heardlist.c and heardlist.h: the ring of checksums of the packets heard lately.
pub mod Scan
pub mod Ageing
pub mod Sum
pub mod Twice
mod Tests
use arctic_tracker_teensy.Base.{
  ℕ, zero, suc, ◌+◌, ◌-◌, ◌*◌, ◌%◌, Bool, true, false, not, Option, none, some, List, [], ◌∷◌, ltb,
  leb, ◌==◌, if◌then◌else◌,
}
use arctic_tracker_teensy.Run.{Run, ok, fault, stuck, Cmd, pure, ◌>>=◌, update}
use arctic_tracker_teensy.Fbuf.{Fbuf, rseek, get_char}
use arctic_tracker_teensy.Crc.{crc_ccitt_update}
use arctic_tracker_teensy.Ax25.{Addr}

-- HEARDLIST_SIZE
abbrev pub heardlist_size : ℕ
heardlist_size = 32

-- HEARDLIST_MAX_AGE
abbrev pub heardlist_max_age : ℕ
heardlist_max_age = 6

-- `HItem`
pub record Item : Type 0 where
  pub val : ℕ
  pub ts : ℕ

-- The static variables of heardlist.c.
pub record HeardList : Type 0 where
  pub hlist : ℕ → Item
  pub next : ℕ
  pub length : ℕ
  pub time : ℕ

-- `i = hlist_next - hlist_length; if (i<0) i = HEARDLIST_SIZE-i;`
abbrev pub first : HeardList → ℕ
first l = if ltb l.next l.length then heardlist_size + (l.length - l.next) else l.next - l.length

-- The loop of hlist_tick from index `i`: the new length, or none for a read outside the array.
unfoldable pub tick_loop : ℕ → ℕ → ℕ → HeardList → Option ℕ
tick_loop zero i length l = none
tick_loop (suc n) i length l =
    let rest = tick_loop n ((i + 1) % heardlist_size) ((length + 255) % 256) l in
    if i == l.next
    then some length
    else if leb heardlist_size i
    then none
    else if ltb ((l.hlist i).ts + heardlist_max_age) l.time
    then rest
    else some length

abbrev pub with_length : HeardList → Option ℕ → Option HeardList
with_length l none = none
with_length l (some n) = some (record l { length = n })

-- hlist_tick
unfoldable pub tick : HeardList → Option HeardList
tick l =
    let later = record l { time = (l.time + 1) % 65536 } in
    with_length later (tick_loop 33 (first later) later.length later)

-- The loop of hlist_exists from index `i`; none for a read outside the array.
unfoldable pub exists_loop : ℕ → ℕ → ℕ → HeardList → Option Bool
exists_loop zero i x l = none
exists_loop (suc n) i x l =
    let rest = exists_loop n ((i + 1) % heardlist_size) x l in
    if i == l.next
    then some false
    else if leb heardlist_size i
    then none
    else if (l.hlist i).val == x
    then some true
    else rest

-- hlist_exists
unfoldable pub exists : ℕ → HeardList → Option Bool
exists x l = exists_loop 33 (first l) x l

-- hlist_add
unfoldable pub add : ℕ → HeardList → HeardList
add x l = record {
  hlist = update l.hlist l.next (record { val = x; ts = l.time });
  next = (l.next + 1) % heardlist_size;
  length = if ltb l.length heardlist_size then l.length + 1 else l.length;
  time = l.time;
}

-- `if (!hrd) hlist_add(cs); return hrd;`
abbrev pub remember : ℕ → HeardList → Option Bool → Option (Bool × HeardList)
remember cs l none = none
remember cs l (some hrd) = some (hrd, if not hrd then add cs l else l)

-- The part of hlist_duplicate behind the checksum.
unfoldable pub recall : ℕ → HeardList → Option (Bool × HeardList)
recall cs l = remember cs l (exists cs l)

-- What a scan of the list gives; it faults where the scan leaves the array.
unfoldable pub answered : Option (Bool × HeardList) → Cmd (Bool × HeardList)
answered none = λ _. fault
answered (some r) = pure r

-- `while (callsign[i] != 0) crc = _crc_ccitt_update(crc, callsign[i++]);`
unfoldable pub sum_callsign : ℕ → List ℕ → ℕ
sum_callsign crc [] = crc
sum_callsign crc (c ∷ cs) =
    let rest = sum_callsign (crc_ccitt_update crc c) cs in if c == 0 then crc else rest

-- The sum over an address.
abbrev pub sum_addr : ℕ → Addr → ℕ
sum_addr crc a = crc_ccitt_update (sum_callsign crc a.callsign) a.ssid

-- The last loop of checksum from the 8-bit index `i`, with `n` rounds to go.
unfoldable pub sum_loop : ℕ → ℕ → ℕ → Fbuf → Cmd (ℕ × Fbuf)
sum_loop zero i crc f = λ _. stuck
sum_loop (suc n) i crc f =
    if ltb i f.length
    then (do (c, f) ← get_char f; sum_loop n ((i + 1) % 256) (crc_ccitt_update crc c) f)
    else pure (crc, f)

-- AX25_HDR_LEN
abbrev pub ax25_hdr_len : ℕ → ℕ
ax25_hdr_len ndigis = 14 + 2 + ndigis * 7

-- checksum, with `n` rounds for its last loop
unfoldable pub checksum : ℕ → Addr → Addr → Fbuf → ℕ → Cmd (ℕ × Fbuf)
checksum n from to f ndigis = do
  f ← rseek f (ax25_hdr_len ndigis)
  sum_loop n (ax25_hdr_len ndigis % 256) (sum_addr (sum_addr 0xFFFF from) to) f

-- hlist_duplicate: the packet, whose read position has moved, the answer, and the list. Of a packet
-- of more than 255 bytes the checksum does not end.
unfoldable pub duplicate : Addr → Addr → Fbuf → ℕ → HeardList → Cmd (Fbuf × (Bool × HeardList))
duplicate from to f ndigis l = do
  (cs, f) ← checksum 256 from to f ndigis
  r ← answered (recall cs l)
  pure (f, r)
