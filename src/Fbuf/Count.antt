-- ===== src/Fbuf/Count.antt =====
-- `_free_slots` and the slots that are free, and how many slots a chain can have.
use arctic_tracker_teensy.Base.{
  ℕ, zero, suc, ◌+◌, ◌≤◌, ◌<◌, ◌≡◌, ◌≢◌, refl, List, [], ◌∷◌, arith, length, ◌==◌, if◌then◌else◌,
  inl, inr, Bool-cases, ==→eq, ==→ne,
}
use arctic_tracker_teensy.Run.{Slot, Pool, slots, update}
use arctic_tracker_teensy.Fbuf.Chain.{NotIn, Distinct}
use native.Mathlib.Decide.{dec_lt}

-- 1 for a slot that nothing refers to
abbrev pub is_free : Slot → ℕ
is_free s = if s.refcnt == 0 then 1 else 0

-- How many of the first `n` slots are free.
unfoldable pub free_count : ℕ → (ℕ → Slot) → ℕ
free_count zero h = 0
free_count (suc n) h = free_count n h + is_free (h n)

-- `_free_slots` is the number of free slots.
pub record IsPool (p : Pool) : Type 0 where
  pub counted : p.free_slots ≡ free_count slots p.slot

free_count-update_above :
    (n : ℕ) (h : ℕ → Slot) (i : ℕ) (s : Slot) → n ≤ i → free_count n (update h i s) ≡ free_count n h
unfolding free_count update
free_count-update_above zero h i s le = refl
free_count-update_above (suc n) h i s le = ground (arith, free_count-update_above n h i s)

-- What a write to one slot does to the count.
pub free_count-update :
    (n : ℕ) (h : ℕ → Slot) (i : ℕ) (s : Slot)
    → i < n
    → free_count n (update h i s) + is_free (h i) ≡ free_count n h + is_free s
unfolding free_count update
free_count-update zero h i s lt = absurd (omega arith)
free_count-update (suc n) h i s lt = elim (dec_lt i n) [
  | yes below ↦ ground (arith, free_count-update n h i s below)
  | no last ↦ ground (arith, free_count-update_above n h i s)
]

pub free_count-le : (n : ℕ) (h : ℕ → Slot) → free_count n h ≤ n
unfolding free_count
free_count-le zero h = omega arith
free_count-le (suc n) h = ground (arith, free_count-le n h)

-- A list with one number taken out.
erase : ℕ → List ℕ → List ℕ
erase x [] = []
erase x (y ∷ ys) = let rest = erase x ys in if x == y then ys else y ∷ rest

abbrev pub Below : ℕ → List ℕ → Type 0
Below n [] = Unit {0}
Below n (x ∷ xs) = (x < n) × Below n xs

NotIn-erase : (x y : ℕ) (xs : List ℕ) → NotIn y xs → NotIn y (erase x xs)
unfolding erase
NotIn-erase x y [] a = tt
NotIn-erase x y (z ∷ xs) a = elim (Bool-cases (x == z)) [
  | inl e ↦ rw e a.1
  | inr e ↦ rw e (a.0, NotIn-erase x y xs a.1)
]

Distinct-erase : (x : ℕ) (xs : List ℕ) → Distinct xs → Distinct (erase x xs)
unfolding erase
Distinct-erase x [] a = tt
Distinct-erase x (z ∷ xs) a = elim (Bool-cases (x == z)) [
  | inl e ↦ rw e a.1
  | inr e ↦ rw e (NotIn-erase x z xs a.0, Distinct-erase x xs a.1)
]

length-erase : (x : ℕ) (xs : List ℕ) → length xs ≤ length (erase x xs) + 1
unfolding erase
length-erase x [] = omega arith
length-erase x (z ∷ xs) = ground (arith, length-erase x xs)

Below-of_NotIn : (n : ℕ) (xs : List ℕ) → Below (suc n) xs → NotIn n xs → Below n xs
Below-of_NotIn n [] b a = tt
Below-of_NotIn n (x ∷ xs) b a =
    let ne : n ≢ x = a.0 in let lt : x < suc n = b.0 in (omega arith, Below-of_NotIn n xs b.1 a.1)

Below-erase : (n : ℕ) (xs : List ℕ) → Below (suc n) xs → Distinct xs → Below n (erase n xs)
unfolding erase
Below-erase n [] b a = tt
Below-erase n (x ∷ xs) b a = elim (Bool-cases (n == x)) [
  | inl e ↦ rw e (Below-of_NotIn n xs b.1 (rw (==→eq n x e) a.0))
  | inr e ↦
      let ne : n ≢ x = ==→ne n x e in
      let lt : x < suc n = b.0 in rw e (omega arith, Below-erase n xs b.1 a.1)
]

-- Distinct numbers below `n` are at most `n` many.
pub length_of_Distinct : (n : ℕ) (xs : List ℕ) → Below n xs → Distinct xs → length xs ≤ n
length_of_Distinct zero [] b a = omega arith
length_of_Distinct zero (x ∷ xs) b a = absurd (let lt : x < 0 = b.0 in omega arith)
length_of_Distinct (suc n) xs b a = omega (
  arith,
  length-erase n xs,
  length_of_Distinct n (erase n xs) (Below-erase n xs b a) (Distinct-erase n xs a),
)

pub free_count_step : (i : ℕ) (h : ℕ → Slot) → free_count (i + 1) h ≡ free_count i h + is_free (h i)
unfolding free_count
free_count_step i h = let e : i + 1 ≡ suc i = omega arith in rw e refl

pub free_count_zero : (h : ℕ → Slot) → free_count 0 h ≡ 0
unfolding free_count
free_count_zero h = refl

-- A free slot counts.
pub free_count-pos : (n : ℕ) (h : ℕ → Slot) (i : ℕ) → i < n → (h i).refcnt ≡ 0 → 0 < free_count n h
unfolding free_count
free_count-pos zero h i lt e = absurd (omega arith)
free_count-pos (suc n) h i lt e = elim (dec_lt i n) [
  | yes below ↦ omega (arith, free_count-pos n h i below e)
  | no last ↦ ground (arith, at_last (omega arith))
]
  where
    at_last : i ≡ n → (h n).refcnt ≡ 0
    at_last here = rw (← here) e
