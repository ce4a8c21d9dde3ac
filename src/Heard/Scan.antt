-- ===== src/Heard/Scan.antt =====
-- hlist_exists and hlist_add, while the ring has not come round and after it has.
use arctic_tracker_teensy.Base.{
  ℕ, zero, suc, ◌+◌, ◌-◌, ◌%◌, ◌≤◌, ◌<◌, ◌≡◌, refl, ap, ap₂, ◌∙◌, inl, inr, Bool, true, false, ◌||◌,
  none, some, List, [], ◌∷◌, ◌++◌, arith, leb, ◌==◌, eq→==, ne→==, lt→ltb, ge→ltb, Bool-cases,
}
use arctic_tracker_teensy.Run.{update}
use arctic_tracker_teensy.Fbuf.Chain.{update_self, update_ne}
use arctic_tracker_teensy.Heard.{Item, HeardList, heardlist_size, exists_loop, exists, add, recall}

-- The `n` entries from index `i` on.
unfoldable pub entries : ℕ → ℕ → (ℕ → Item) → List Item
entries zero i h = []
entries (suc n) i h = h i ∷ entries n (i + 1) h

-- The entries of a list that has not come round, oldest first.
abbrev pub listed : HeardList → List Item
listed l = entries l.length (l.next - l.length) l.hlist

-- Is the sum among the entries?
unfoldable pub heard : ℕ → List Item → Bool
heard x [] = false
heard x (e ∷ es) = e.val == x || heard x es

-- The entries stand at the indices below `next`.
pub record Straight (l : HeardList) : Type 0 where
  pub inside : l.next < heardlist_size
  pub behind : l.length ≤ l.next

pub leb_of_lt : (m n : ℕ) → n < m → leb m n ≡ false
leb_of_lt m n lt = ground arith

pub leb_of_le : (m n : ℕ) → m ≤ n → leb m n ≡ true
leb_of_le m n le = ground arith

exists_loop-heard :
    (m n i x : ℕ) (l : HeardList)
    → i + m ≡ l.next
    → l.next < heardlist_size
    → m < n
    → exists_loop n i x l ≡ some (heard x (entries m i l.hlist))
unfolding exists_loop entries heard
exists_loop-heard m zero i x l at_next inside enough = absurd (omega arith)
exists_loop-heard zero (suc n) i x l at_next inside enough = rw (eq→== i l.next (omega arith)) refl
exists_loop-heard (suc m) (suc n) i x l at_next inside enough =
    let step : (i + 1) % heardlist_size ≡ i + 1 = omega arith in
    let rest = exists_loop-heard m n (i + 1) x l (omega arith) inside (omega arith) in
    rw (ne→== i l.next (omega arith), leb_of_lt heardlist_size i (omega arith), step, rest)
      (elim (Bool-cases ((l.hlist i).val == x)) [ inl e ↦ rw e refl | inr e ↦ rw e refl ])

-- As long as the ring has not come round, hlist_exists always ends, stays inside the array, and
-- tells whether the sum is among the entries.
pub exists-heard : (x : ℕ) (l : HeardList) → Straight l → exists x l ≡ some (heard x (listed l))
unfolding exists
exists-heard x l s =
    let inside = s.inside in
    let behind = s.behind in
    rw (ge→ltb l.next l.length behind)
      (exists_loop-heard l.length 33 (l.next - l.length) x l (omega arith) inside (omega arith))

-- Once the ring has come round, hlist_exists begins to read behind the end of the array.
pub exists-eq-none :
    (x : ℕ) (l : HeardList) → l.next < l.length → l.length ≤ heardlist_size → exists x l ≡ none
unfolding exists exists_loop
exists-eq-none x l round few =
    rw
      (
        lt→ltb l.next l.length round,
        ne→== (heardlist_size + (l.length - l.next)) l.next (omega arith),
        leb_of_le heardlist_size (heardlist_size + (l.length - l.next)) (omega arith),
      )
      refl

entries-snoc : (n i : ℕ) (h : ℕ → Item) → entries (suc n) i h ≡ entries n i h ++ (h (i + n) ∷ [])
unfolding entries
entries-snoc zero i h = let e : i + 0 ≡ i = omega arith in rw e refl
entries-snoc (suc n) i h =
    let e : i + suc n ≡ i + 1 + n = omega arith in
    rw e (ap (λ ys. h i ∷ ys) (entries-snoc n (i + 1) h))

entries-update :
    (n i j : ℕ) (h : ℕ → Item) (e : Item) → i + n ≤ j → entries n i (update h j e) ≡ entries n i h
unfolding entries
entries-update zero i j h e le = refl
entries-update (suc n) i j h e le =
    rw (update_ne h j e i (λ same. omega arith))
      (ap (λ ys. h i ∷ ys) (entries-update n (i + 1) j h e (omega arith)))

heard-snoc : (x t : ℕ) (es : List Item) → heard x (es ++ (record { val = x; ts = t } ∷ [])) ≡ true
unfolding heard
heard-snoc x t [] = rw (eq→== x x refl) refl
heard-snoc x t (e ∷ es) = rw (heard-snoc x t es) (ground arith)

-- A list with room before the end of the array.
pub record HasRoom (l : HeardList) : Type 0 where
  pub straight : Straight l
  pub more : l.next + 1 < heardlist_size

-- hlist_add puts the sum, with the present time, behind the entries.
pub add-listed :
    (x : ℕ) (l : HeardList)
    → HasRoom l
    → Straight (add x l) × (listed (add x l) ≡ listed l ++ (record { val = x; ts = l.time } ∷ []))
unfolding add
add-listed x l v =
    let more = v.more in
    let behind = v.straight.behind in
    let step : (l.next + 1) % heardlist_size ≡ l.next + 1 = omega arith in
    let fewer = lt→ltb l.length heardlist_size (omega arith) in
    let new : Item = record { val = x; ts = l.time } in
    let grow : l.length + 1 ≡ suc l.length = omega arith in
    let start : l.next + 1 - suc l.length ≡ l.next - l.length = omega arith in
    let last : l.next - l.length + l.length ≡ l.next = omega arith in
    rw (step, fewer, grow, start)
      (
        record { inside = more; behind = omega arith },
        entries-snoc l.length (l.next - l.length) (update l.hlist l.next new)
            ∙ ap₂ (λ (xs : List Item) (y : Item). xs ++ (y ∷ []))
                (entries-update l.length (l.next - l.length) l.next l.hlist new (omega arith))
                (rw last (update_self l.hlist l.next new)),
      )

-- A sum that is not in the list, while there is room, is added; asked again it is found.
pub recall-twice :
    (x : ℕ) (l : HeardList)
    → HasRoom l
    → heard x (listed l) ≡ false
    → (recall x l ≡ some (false, add x l)) × (recall x (add x l) ≡ some (true, add x l))
unfolding recall
recall-twice x l v new =
    let (s, e) = add-listed x l v in
    let before = exists-heard x l v.straight in
    let after : exists x (add x l) ≡ some true =
      exists-heard x (add x l) s
      ∙ ap (λ es. some (heard x es)) e
      ∙ ap some (heard-snoc x l.time (listed l)) in
    (rw (before, new) refl, rw after refl)
