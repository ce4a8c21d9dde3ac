-- ===== src/Fbuf/Split.antt =====
-- _split: a slot is divided in two that hold the same bytes.
use arctic_tracker_teensy.Base.{
  ℕ, zero, suc, ◌+◌, ◌-◌, ◌≤◌, ◌<◌, ◌≡◌, ◌≢◌, refl, sym, ap, ◌∙◌, ◌∷◌, ◌++◌, arith, lt→ltb, ge→ltb,
  ne→==,
}
use arctic_tracker_teensy.Run.{Slot, Pool, slots, ok, update, get_slot, put_slot}
use arctic_tracker_teensy.Run.Returns.{Returns, returns}
use arctic_tracker_teensy.Fbuf.{fresh_slot, taken}
use arctic_tracker_teensy.Fbuf.Chain.{bytes, update_self, update_ne}
use arctic_tracker_teensy.Fbuf.Count.{free_count}
use arctic_tracker_teensy.Fbuf.Alloc.{new_slot-Allocates}
use arctic_tracker_teensy.Fbuf.Join.{length_behind, copy_bytes, divide, split}

bytes-plus : (f : ℕ → ℕ) (k m n : ℕ) → bytes f k (m + n) ≡ bytes f k m ++ bytes f (k + m) n
unfolding bytes
bytes-plus f k zero n =
    let e : 0 + n ≡ n = omega arith in let e' : k + 0 ≡ k = omega arith in rw (e, e') refl
bytes-plus f k (suc m) n =
    let e : suc m + n ≡ suc (m + n) = omega arith in
    let e' : k + suc m ≡ k + 1 + m = omega arith in
    rw (e, e') (ap (λ xs. f k ∷ xs) (bytes-plus f (k + 1) m n))

bytes-copy_bytes :
    (f g : ℕ → ℕ) (n pos k m : ℕ)
    → k + m ≤ n
    → bytes (copy_bytes n pos f g) k m ≡ bytes f (pos + k) m
unfolding bytes copy_bytes
bytes-copy_bytes f g n pos k zero le = refl
bytes-copy_bytes f g n pos k (suc m) le =
    let e : pos + (k + 1) ≡ pos + k + 1 = omega arith in
    rw (lt→ltb k n (omega arith)) (
      ap (λ xs. f (pos + k) ∷ xs)
        (bytes-copy_bytes f g n pos (k + 1) m (omega arith) ∙ ap (λ z. bytes f z m) e))

-- Slot `i` of `p` has been divided at `pos`: the slot `j` was free and stands behind it now.
pub record Divided (p : Pool) (i pos j : ℕ) (q : Pool) : Type 0 where
  pub inside : j < slots
  pub was_free : (p.slot j).refcnt ≡ 0
  pub linked : (q.slot i).next ≡ j
  pub goes_on : (q.slot j).next ≡ (p.slot i).next
  pub first_length : (q.slot i).length ≡ pos
  pub same_refcnt :
      ((q.slot i).refcnt ≡ (p.slot i).refcnt) × ((q.slot j).refcnt ≡ (p.slot i).refcnt)
  pub same_bytes :
      bytes (q.slot i).buf 0 (q.slot i).length ++ bytes (q.slot j).buf 0 (q.slot j).length
      ≡ bytes (p.slot i).buf 0 (p.slot i).length
  pub spared : (k : ℕ) → k ≢ i → k ≢ j → q.slot k ≡ p.slot k

-- What `divide` leaves of the slots `i` and `j`.
abbrev back : ℕ → Slot → Slot → Slot
back pos s t = record {
  refcnt = s.refcnt;
  length = length_behind s.length pos;
  next = s.next;
  buf = copy_bytes (s.length - pos) pos s.buf t.buf;
}

abbrev front : ℕ → ℕ → Slot → Slot
front j pos s = record s { next = j; length = pos }

divide-eq-ok :
    (p : Pool) (i j pos : ℕ) (s t : Slot)
    → i < slots
    → j < slots
    → divide i j pos s t p
      ≡ ok tt (record p { slot = update (update p.slot j (back pos s t)) i (front j pos s) })
unfolding divide put_slot
divide-eq-ok p i j pos s t li lj = rw (lt→ltb j slots lj, lt→ltb i slots li) refl

-- For a position inside a slot in use, and with a free slot left, _split returns a slot that was
-- free: it holds the bytes from that position on, has as many references as the old one, and stands
-- behind it in the chain. The other slots stay as they were.
pub split-Divided :
    (p : Pool) (i pos : ℕ)
    → i < slots
    → 0 < (p.slot i).refcnt
    → 0 < pos
    → pos ≤ (p.slot i).length
    → 0 < free_count slots p.slot
    → Returns (Divided p i pos) (split i pos p)
unfolding split get_slot
split-Divided p i pos lt used some le left =
    let (j, e, inside, free) = new_slot-Allocates p left in
    let s = p.slot i in
    let rest = s.length - pos in
    let other : j ≢ i = λ same. let z : (p.slot i).refcnt ≡ 0 = rw (← same) free in omega arith in
    let t = fresh_slot (p.slot j) in
    let h = update p.slot j t in
    let s_same : h i ≡ s = update_ne p.slot j t i other in
    let t_same : h j ≡ t = update_self p.slot j t in
    let h' = update h j (back pos s t) in
    let at_i : update h' i (front j pos s) i ≡ front j pos s = update_self h' i (front j pos s) in
    let at_j : update h' i (front j pos s) j ≡ back pos s t =
      update_ne h' i (front j pos s) j (λ z. other (sym z)) ∙ update_self h j (back pos s t) in
    let whole : pos + rest ≡ s.length = omega arith in
    rw (ne→== pos 0 (λ z. omega arith), e, lt→ltb i slots lt, lt→ltb j slots inside)
      (rw (s_same, t_same, divide-eq-ok (taken p j) i j pos s t lt inside)
        (returns (record {
          inside = inside;
          was_free = free;
          linked = rw at_i refl;
          goes_on = rw at_j refl;
          first_length = rw at_i refl;
          same_refcnt = (rw at_i refl, rw at_j refl);
          same_bytes =
              rw (at_i, at_j, ge→ltb s.length pos le)
                (ap (λ xs. bytes s.buf 0 pos ++ xs)
                    (bytes-copy_bytes s.buf t.buf rest pos 0 rest (omega arith)
                      ∙ ap (λ z. bytes s.buf z rest) (omega arith))
                  ∙ sym (bytes-plus s.buf 0 pos rest)
                  ∙ ap (bytes s.buf 0) whole);
          spared = λ k not_i not_j.
              update_ne h' i (front j pos s) k (λ z. not_i (sym z))
              ∙ update_ne h j (back pos s t) k (λ z. not_j (sym z))
              ∙ update_ne p.slot j t k (λ z. not_j (sym z));
        })))
