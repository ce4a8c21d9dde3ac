-- ===== src/Fbuf/Buffer.antt =====
-- fbuf_putChar and fbuf_write: what they do to the bytes of the chain, to the free slots, and to
-- the slots of other chains.
use arctic_tracker_teensy.Base.{ℕ, ◌+◌, ◌-◌, ◌*◌, ◌≤◌, ◌<◌, ◌≡◌, ◌⊎◌, List, [], ◌∷◌, ◌++◌, length}
use arctic_tracker_teensy.Run.{Slot, Pool, slots, slot_size, nil}
use arctic_tracker_teensy.Fbuf.{Fbuf}
use arctic_tracker_teensy.Fbuf.Chain.{
  contents, Links, NotIn, Distinct, InUse, Links-split, InUse-right, Full, Apart-NotIn,
  Distinct-Apart,
}
use arctic_tracker_teensy.Fbuf.Count.{IsPool, free_count}

-- The slots of a chain that can be written to: the last is `wslot`.
abbrev pub slots_of : Fbuf → List ℕ → List ℕ
slots_of b front = front ++ (b.wslot ∷ [])

-- The bytes of such a chain.
abbrev pub all_bytes : (ℕ → Slot) → Fbuf → List ℕ → List ℕ
all_bytes h b front = contents h (slots_of b front)

-- A chain of distinct slots in use, which ends at `wslot`: `length` counts its bytes, all slots
-- before the last are full, and the last is empty only if it is the first.
pub record IsBuffer (h : ℕ → Slot) (b : Fbuf) (front : List ℕ) : Type 0 where
  pub links : Links h b.head (slots_of b front) nil
  pub distinct : Distinct (slots_of b front)
  pub in_use : InUse h (slots_of b front)
  pub counted : b.length ≡ length (contents h (slots_of b front))
  pub full : Full h front
  pub last_used : (front ≡ []) ⊎ (0 < (h b.wslot).length)

-- How many bytes still fit: in the last slot and in the free ones.
unfoldable pub room : Pool → Fbuf → ℕ
room p b = slot_size - (p.slot b.wslot).length + slot_size * free_count slots p.slot

-- The bytes `cs` have been appended to the chain, and the slots of other chains are as they were.
pub record Wrote (p : Pool) (b : Fbuf) (front cs : List ℕ) (b' : Fbuf) (p' : Pool) : Type 0 where
  pub front' : List ℕ
  pub buffer : IsBuffer p'.slot b' front'
  pub pool : IsPool p'
  pub stored : contents p'.slot (slots_of b' front') ≡ contents p.slot (slots_of b front) ++ cs
  pub left : room p' b' + length cs ≡ room p b
  pub head : b'.head ≡ b.head
  pub spared :
      (k : ℕ)
      → NotIn k (slots_of b front)
      → 0 < (p.slot k).refcnt
      → NotIn k (slots_of b' front') × (p'.slot k ≡ p.slot k)

-- What the invariant says of the last slot.
pub record LastSlot (h : ℕ → Slot) (b : Fbuf) (front : List ℕ) : Type 0 where
  pub before : Links h b.head front b.wslot
  pub inside : b.wslot < slots
  pub ends : (h b.wslot).next ≡ nil
  pub used : 0 < (h b.wslot).refcnt
  pub fits : (h b.wslot).length ≤ slot_size
  pub alone : NotIn b.wslot front
  pub head_inside : b.head < slots

Links-head : (h : ℕ → Slot) (is : List ℕ) (i j : ℕ) → Links h i is j → j < slots → i < slots
Links-head h [] i j l lt = rw l lt
Links-head h (k ∷ ks) i j l lt = rw (l.0) l.1

pub IsBuffer-LastSlot :
    (h : ℕ → Slot) (b : Fbuf) (front : List ℕ) → IsBuffer h b front → LastSlot h b front
IsBuffer-LastSlot h b front v =
    let (j, before, (e, lt, end)) = Links-split h front (b.wslot ∷ []) b.head nil v.links in
    let used = InUse-right h front (b.wslot ∷ []) v.in_use in
    let before' : Links h b.head front b.wslot = rw (← e) before in
    record {
      before = before';
      inside = lt;
      ends = end;
      used = used.0;
      fits = used.1;
      alone = Apart-NotIn front b.wslot (Distinct-Apart front (b.wslot ∷ []) v.distinct);
      head_inside = Links-head h front b.head b.wslot before' lt;
    }
