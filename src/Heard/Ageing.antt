-- ===== src/Heard/Ageing.antt =====
-- hlist_tick drops the entries that are too old, oldest first.
use arctic_tracker_teensy.Base.{
  ℕ, ◌+◌, ◌-◌, ◌%◌, ◌≤◌, ◌≡◌, Bool, Option, some, List, [], ◌∷◌, ltb, if◌then◌else◌,
}
use arctic_tracker_teensy.Heard.{Item, HeardList, heardlist_max_age}
use arctic_tracker_teensy.Heard.Scan.{entries, listed, Straight}

-- An entry that was stamped more than HEARDLIST_MAX_AGE ticks before a time.
abbrev pub is_old : ℕ → Item → Bool
is_old time e = ltb heardlist_max_age (time - e.ts)

-- What is left once the old entries at the front are gone.
unfoldable pub drop_old : ℕ → List Item → List Item
drop_old time [] = []
drop_old time (e ∷ es) = let rest = drop_old time es in if is_old time e then rest else e ∷ es

record Dropped (m : ℕ) (l : HeardList) (es : List Item) (r : Option ℕ) : Type 0 where
  kept : ℕ
  result : r ≡ some kept
  fewer : kept ≤ m
  same : entries kept (l.next - kept) l.hlist ≡ es

-- The list after a tick.
pub record Ticked (l l' : HeardList) : Type 0 where
  pub straight : Straight l'
  pub clock : l'.time ≡ (l.time + 1) % 65536
  pub same : listed l' ≡ (if ltb l.time 65535 then drop_old (l.time + 1) (listed l) else listed l)
