-- ===== src/Fbuf/Walk.antt =====
-- The loops of fbuf_connect, and changes that keep the links and the bytes of a chain.
use arctic_tracker_teensy.Base.{
  ℕ, zero, suc, ◌+◌, ◌-◌, ◌*◌, ◌%◌, ◌<◌, ◌≡◌, ◌≢◌, refl, sym, ◌∙◌, false, List, [], ◌∷◌, ◌++◌,
  arith, length, length-append, lt→ltb, ge→ltb, eq→==, ne→==, ◌==◌, ==→eq, Bool-cases, inl, inr,
}
use arctic_tracker_teensy.Run.{Slot, Pool, slots, slot_size, nil, ok, update, get_slot, put_slot}
use arctic_tracker_teensy.Run.Returns
use arctic_tracker_teensy.Run.Returns.{Returns, returns}
use arctic_tracker_teensy.Fbuf.Chain.{bytes, contents, length-bytes, Links, NotIn, Full}
use arctic_tracker_teensy.Fbuf.Join.{find_slot, find_last, refer, refer_rest}
use arctic_tracker_teensy.Fbuf.Split.{Divided}

-- The loop ends at the last slot.
pub find_last-eq-ok :
    (n : ℕ) (p : Pool) (is : List ℕ) (w i : ℕ)
    → Links p.slot i (is ++ (w ∷ [])) nil
    → length is < n
    → find_last n i p ≡ ok w p
unfolding find_last get_slot
find_last-eq-ok zero p is w i l enough = absurd (omega arith)
find_last-eq-ok (suc n) p [] w i (e, lt, end) enough =
    rw (e, lt→ltb w slots lt) (rw (eq→== (p.slot w).next nil end) refl)
find_last-eq-ok (suc n) p (k ∷ []) w i (e, lt, (e', lt', end)) enough =
    let more : (p.slot k).next ≢ nil = omega (arith, e') in
    rw (e, lt→ltb k slots lt)
      (rw (ne→== (p.slot k).next nil more)
        (find_last-eq-ok n p [] w (p.slot k).next (e', lt', end) (omega arith)))
find_last-eq-ok (suc n) p (k ∷ k' ∷ ks) w i (e, lt, (e', lt', l)) enough =
    let more : (p.slot k).next ≢ nil = omega (arith, e') in
    rw (e, lt→ltb k slots lt)
      (rw (ne→== (p.slot k).next nil more)
        (find_last-eq-ok n p (k' ∷ ks) w (p.slot k).next (e', lt', l) (omega arith)))

-- The loop that looks for the slot, along full slots: it stops `r` bytes into slot `i`.
pub find_slot-eq-ok :
    (n : ℕ) (p : Pool) (is : List ℕ) (i r j : ℕ)
    → Links p.slot j (is ++ (i ∷ [])) (p.slot i).next
    → Full p.slot is
    → 0 < r
    → r < slot_size
    → slot_size * length is + r < 65536
    → length is < n
    → find_slot n j (slot_size * length is + r) p ≡ ok (i, r) p
unfolding find_slot get_slot
find_slot-eq-ok zero p is i r j l full some lt short enough = absurd (omega arith)
find_slot-eq-ok (suc n) p [] i r j (e, li, l) full some lt short enough =
    let here : slot_size * 0 + r ≡ r = omega arith in rw here (rw (e, lt→ltb r slot_size lt) refl)
find_slot-eq-ok (suc n) p (k ∷ ks) i r j (e, lk, l) (f, full) some lt short enough =
    let pos = slot_size * suc (length ks) + r in
    let left : (pos + 65536 - (p.slot k).length) % 65536 ≡ slot_size * length ks + r =
      omega (arith, f) in
    let not_zero : (0 == slot_size * length ks + r) ≡ false =
      ne→== 0 (slot_size * length ks + r) (λ z. omega arith) in
    rw (e, ge→ltb pos slot_size (omega arith), lt→ltb k slots lk)
      (rw (left, not_zero)
        (find_slot-eq-ok n p ks i r (p.slot k).next l full some lt (omega arith) (omega arith)))

-- Everywhere the same bytes, and everywhere the same links.
abbrev pub SameBytes : (ℕ → Slot) → (ℕ → Slot) → Type 0
SameBytes h h' = (k : ℕ) → ((h' k).length ≡ (h k).length) × ((h' k).buf ≡ (h k).buf)

abbrev pub SameLinks : (ℕ → Slot) → (ℕ → Slot) → Type 0
SameLinks h h' = (k : ℕ) → (h' k).next ≡ (h k).next

pub contents_same :
    (h h' : ℕ → Slot) (is : List ℕ) → SameBytes h h' → contents h' is ≡ contents h is
unfolding contents
contents_same h h' [] k = refl
contents_same h h' (i ∷ is) k = let (l, b) = k i in rw (l, b, contents_same h h' is k) refl

pub Links_same :
    (h h' : ℕ → Slot) (is : List ℕ) (i j : ℕ) → SameLinks h h' → Links h i is j → Links h' i is j
Links_same h h' [] i j k l = l
Links_same h h' (x ∷ is) i j k (e, lt, l) = (e, lt, rw (k x) (Links_same h h' is (h x).next j k l))

module _ (h : ℕ → Slot) (w : ℕ) where
  pub next_SameBytes : (j : ℕ) → SameBytes h (update h w (record (h w) { next = j }))
  unfolding update
  next_SameBytes j k = elim (Bool-cases (k == w)) [
    | inl e ↦ rw (e, ==→eq k w e) (refl, refl)
    | inr e ↦ rw e (refl, refl)
  ]

  count_SameBytes : (n : ℕ) → SameBytes h (update h w (record (h w) { refcnt = n }))
  unfolding update
  count_SameBytes n k = elim (Bool-cases (k == w)) [
    | inl e ↦ rw (e, ==→eq k w e) (refl, refl)
    | inr e ↦ rw e (refl, refl)
  ]

  count_SameLinks : (n : ℕ) → SameLinks h (update h w (record (h w) { refcnt = n }))
  unfolding update
  count_SameLinks n k = elim (Bool-cases (k == w)) [
    | inl e ↦ rw (e, ==→eq k w e) refl
    | inr e ↦ rw e refl
  ]

-- The loop that counts references changes neither links nor bytes.
pub refer_rest-Same :
    (n : ℕ) (p : Pool) (is : List ℕ) (i : ℕ)
    → Links p.slot i (i ∷ is) nil
    → length is < n
    → Returns (λ _ q. SameBytes p.slot q.slot × SameLinks p.slot q.slot) (refer_rest n i p)
unfolding refer_rest refer get_slot put_slot
refer_rest-Same zero p is i l enough = absurd (omega arith)
refer_rest-Same (suc n) p [] i (e, lt, end) enough =
    rw (lt→ltb i slots lt)
      (rw (eq→== (p.slot i).next nil end) (returns ((λ k. (refl, refl)), λ k. refl)))
refer_rest-Same (suc n) p (j ∷ is) i (e, lt, (e', lt', l)) enough =
    let next = (p.slot i).next in
    let inside : next < slots = omega (arith, e') in
    let count = ((p.slot next).refcnt + 1) % 256 in
    let p' : Pool = record p {
      slot = update p.slot next (record (p.slot next) { refcnt = count });
    } in
    let bytes' = count_SameBytes p.slot next count in
    let links' = count_SameLinks p.slot next count in
    let l' : Links p'.slot next (next ∷ is) nil = (
      refl,
      inside,
      rw (links' next) (Links_same p.slot p'.slot is (p.slot next).next nil links' (rw e' l)),
    ) in
    rw (lt→ltb i slots lt) (
      rw (ne→== next nil (λ z. omega arith), lt→ltb next slots inside)
        (rw (lt→ltb next slots inside) (
          Returns.weaken (refer_rest-Same n p' is next l' (omega arith)) λ _ q (b, m). (
            (λ k. let (x, y) = b k in let (x', y') = bytes' k in (x ∙ x', y ∙ y')),
            λ k. m k ∙ links' k,
          ))))

-- Slots other than the two of a division are as they were.
module _ {p q : Pool} {i pos j : ℕ} (d : Divided p i pos j q) where
  pub contents_spared :
      (is : List ℕ) → NotIn i is → NotIn j is → contents q.slot is ≡ contents p.slot is
  unfolding contents
  contents_spared [] a b = refl
  contents_spared (k ∷ is) (a, a') (b, b') =
      rw (d.spared k (λ e. a (sym e)) (λ e. b (sym e)), contents_spared is a' b') refl

  pub Links_spared :
      (is : List ℕ) (x y : ℕ) → NotIn i is → NotIn j is → Links p.slot x is y → Links q.slot x is y
  Links_spared [] x y a b l = l
  Links_spared (k ∷ is) x y (a, a') (b, b') (e, lt, l) = (
    e,
    lt,
    rw (d.spared k (λ z. a (sym z)) (λ z. b (sym z))) (Links_spared is (p.slot k).next y a' b' l),
  )

-- The bytes of full slots.
pub length-Full :
    (h : ℕ → Slot) (is : List ℕ) → Full h is → length (contents h is) ≡ slot_size * length is
unfolding contents
length-Full h [] f = omega arith
length-Full h (i ∷ is) (f, g) = omega (
  arith,
  f,
  length-Full h is g,
  length-bytes (h i).buf 0 (h i).length,
  length-append (bytes (h i).buf 0 (h i).length) (contents h is),
)
