-- ===== src/Fbuf/Chain.antt =====
-- What a chain of slots stands for: the slots that the `next` links lead through, and the bytes
-- that they hold.
use arctic_tracker_teensy.Base.{
  ℕ, zero, suc, ◌+◌, ◌≤◌, ◌<◌, ◌≡◌, ◌≢◌, refl, ap, ap₂, List, [], ◌∷◌, ◌++◌, append_assoc,
  append-nil, arith, length,
}
use arctic_tracker_teensy.Run.{Slot, slots, slot_size, update}

-- `n` bytes of a slot from index `k` on
unfoldable pub bytes : (ℕ → ℕ) → ℕ → ℕ → List ℕ
bytes f k zero = []
bytes f k (suc n) = f k ∷ bytes f (k + 1) n

-- All bytes that the slots `is` hold, in order.
unfoldable pub contents : (ℕ → Slot) → List ℕ → List ℕ
contents h [] = []
contents h (i ∷ is) = bytes (h i).buf 0 (h i).length ++ contents h is

-- From `i` the links lead through the slots `is`, all inside the pool, to `j`.
abbrev pub Links : (ℕ → Slot) → ℕ → List ℕ → ℕ → Type 0
Links h i [] j = i ≡ j
Links h i (k ∷ ks) j = (i ≡ k) × (k < slots) × Links h (h k).next ks j

abbrev pub NotIn : ℕ → List ℕ → Type 0
NotIn i [] = Unit {0}
NotIn i (k ∷ ks) = (i ≢ k) × NotIn i ks

abbrev pub Distinct : List ℕ → Type 0
Distinct [] = Unit {0}
Distinct (k ∷ ks) = NotIn k ks × Distinct ks

-- Each slot is in use and holds at most `slot_size` bytes.
abbrev pub InUse : (ℕ → Slot) → List ℕ → Type 0
InUse h [] = Unit {0}
InUse h (k ∷ ks) = (0 < (h k).refcnt) × ((h k).length ≤ slot_size) × InUse h ks

-- Each slot is full.
abbrev pub Full : (ℕ → Slot) → List ℕ → Type 0
Full h [] = Unit {0}
Full h (k ∷ ks) = ((h k).length ≡ slot_size) × Full h ks

pub length-bytes : (f : ℕ → ℕ) (k n : ℕ) → length (bytes f k n) ≡ n
unfolding bytes
length-bytes f k zero = refl
length-bytes f k (suc n) = ap suc (length-bytes f (k + 1) n)

pub bytes_one : (f : ℕ → ℕ) (c : ℕ) → f 0 ≡ c → bytes f 0 1 ≡ c ∷ []
unfolding bytes
bytes_one f c e = ap (λ x. x ∷ []) e

-- A slot's bytes do not depend on what lies outside them.
pub bytes-update : (f : ℕ → ℕ) (k n p c : ℕ) → k + n ≤ p → bytes (update f p c) k n ≡ bytes f k n
unfolding bytes update
bytes-update f k zero p c h = refl
bytes-update f k (suc n) p c h = ap₂ ◌∷◌ (ground arith) (bytes-update f (k + 1) n p c (omega arith))

-- A byte stored just behind the last one is appended.
pub bytes-suc-update :
    (f : ℕ → ℕ) (k n p c : ℕ) → p ≡ k + n → bytes (update f p c) k (suc n) ≡ bytes f k n ++ (c ∷ [])
unfolding bytes update
bytes-suc-update f k zero p c e = ground arith
bytes-suc-update f k (suc n) p c e =
    ap₂ ◌∷◌ (ground arith) (bytes-suc-update f (k + 1) n p c (omega arith))

pub contents-append :
    (h : ℕ → Slot) (is js : List ℕ) → contents h (is ++ js) ≡ contents h is ++ contents h js
unfolding contents
contents-append h [] js = refl
contents-append h (i ∷ is) js = simp (contents-append h is js, append_assoc)

module _ {A : Type 0} (h : ℕ → A) (w : ℕ) (s : A) where
  pub update_self : update h w s w ≡ s
  unfolding update
  update_self = ground arith

  pub update_ne : (i : ℕ) → w ≢ i → update h w s i ≡ h i
  unfolding update
  update_ne i ne = ground arith

-- A write to a slot outside `is` does not show in their bytes, nor in their use.
module _ (h : ℕ → Slot) (w : ℕ) (s : Slot) where
  pub contents-update : (is : List ℕ) → NotIn w is → contents (update h w s) is ≡ contents h is
  unfolding contents
  contents-update [] out = refl
  contents-update (i ∷ is) out = rw (update_ne h w s i out.0, contents-update is out.1)

  pub InUse-update :
      (is : List ℕ) → 0 < s.refcnt → s.length ≤ slot_size → InUse h is → InUse (update h w s) is
  unfolding update
  InUse-update [] p q u = tt
  InUse-update (i ∷ is) p q u = (ground arith, ground arith, InUse-update is p q u.2)

  pub Full-update : (is : List ℕ) → NotIn w is → Full h is → Full (update h w s) is
  Full-update [] out f = tt
  Full-update (k ∷ ks) out f = (rw (update_ne h w s k out.0) f.0, Full-update ks out.1 f.1)

  pub Links-update :
      (is : List ℕ) (i j : ℕ) → NotIn w is → Links h i is j → Links (update h w s) i is j
  Links-update [] i j out l = l
  Links-update (k ∷ ks) i j out l =
      (l.0, l.1, rw (update_ne h w s k out.0) (Links-update ks _ j out.1 l.2))

-- The bytes of a chain whose last slot is `w`, also once `w` has been written.
pub contents-snoc :
    (h : ℕ → Slot) (is : List ℕ) (w : ℕ)
    → contents h (is ++ (w ∷ [])) ≡ contents h is ++ bytes (h w).buf 0 (h w).length
unfolding contents
contents-snoc h is w = simp (contents-append h is (w ∷ []), append-nil)

pub contents-snoc_update :
    (h : ℕ → Slot) (is : List ℕ) (w : ℕ) (s : Slot)
    → NotIn w is
    → contents (update h w s) (is ++ (w ∷ [])) ≡ contents h is ++ bytes s.buf 0 s.length
contents-snoc_update h is w s out =
    simp (contents-snoc (update h w s) is w, contents-update h w s is out, update_self h w s)

pub Links-append :
    (h : ℕ → Slot) (is js : List ℕ) (i j k : ℕ)
    → Links h i is j
    → Links h j js k
    → Links h i (is ++ js) k
Links-append h [] js i j k l m = rw l m
Links-append h (x ∷ is) js i j k l m = (l.0, l.1, Links-append h is js _ j k l.2 m)

-- The links of an appended list meet in between.
pub Links-split :
    (h : ℕ → Slot) (is js : List ℕ) (i k : ℕ)
    → Links h i (is ++ js) k
    → (j : ℕ) × Links h i is j × Links h j js k
Links-split h [] js i k l = (i, refl, l)
Links-split h (x ∷ is) js i k l =
    let (j, a, b) = Links-split h is js _ k l.2 in (j, (l.0, l.1, a), b)

-- Lists without a common slot.
abbrev pub Apart : List ℕ → List ℕ → Type 0
Apart [] js = Unit {0}
Apart (i ∷ is) js = NotIn i js × Apart is js

pub NotIn-append : (i : ℕ) (is js : List ℕ) → NotIn i is → NotIn i js → NotIn i (is ++ js)
NotIn-append i [] js a b = b
NotIn-append i (k ∷ is) js a b = (a.0, NotIn-append i is js a.1 b)

pub NotIn-left : (i : ℕ) (is js : List ℕ) → NotIn i (is ++ js) → NotIn i is
NotIn-left i [] js a = tt
NotIn-left i (k ∷ is) js a = (a.0, NotIn-left i is js a.1)

pub NotIn-right : (i : ℕ) (is js : List ℕ) → NotIn i (is ++ js) → NotIn i js
NotIn-right i [] js a = a
NotIn-right i (k ∷ is) js a = NotIn-right i is js a.1

pub Distinct-append :
    (is js : List ℕ) → Distinct is → Distinct js → Apart is js → Distinct (is ++ js)
Distinct-append [] js a b c = b
Distinct-append (i ∷ is) js a b c = (NotIn-append i is js a.0 c.0, Distinct-append is js a.1 b c.1)

pub Distinct-left : (is js : List ℕ) → Distinct (is ++ js) → Distinct is
Distinct-left [] js a = tt
Distinct-left (i ∷ is) js a = (NotIn-left i is js a.0, Distinct-left is js a.1)

pub Distinct-Apart : (is js : List ℕ) → Distinct (is ++ js) → Apart is js
Distinct-Apart [] js a = tt
Distinct-Apart (i ∷ is) js a = (NotIn-right i is js a.0, Distinct-Apart is js a.1)

pub Apart-NotIn : (is : List ℕ) (w : ℕ) → Apart is (w ∷ []) → NotIn w is
Apart-NotIn [] w a = tt
Apart-NotIn (i ∷ is) w a = (ground arith, Apart-NotIn is w a.1)

pub NotIn-Apart : (is : List ℕ) (w : ℕ) → NotIn w is → Apart is (w ∷ [])
NotIn-Apart [] w a = tt
NotIn-Apart (i ∷ is) w a = ((ground arith, tt), NotIn-Apart is w a.1)

module _ (h : ℕ → Slot) where
  pub InUse-append : (is js : List ℕ) → InUse h is → InUse h js → InUse h (is ++ js)
  InUse-append [] js a b = b
  InUse-append (i ∷ is) js a b = (a.0, a.1, InUse-append is js a.2 b)

  pub Full-append : (is js : List ℕ) → Full h is → Full h js → Full h (is ++ js)
  Full-append [] js a b = b
  Full-append (i ∷ is) js a b = (a.0, Full-append is js a.1 b)

  pub InUse-right : (is js : List ℕ) → InUse h (is ++ js) → InUse h js
  InUse-right [] js a = a
  InUse-right (i ∷ is) js a = InUse-right is js a.2

  -- A free slot is in no chain.
  pub NotIn-of_free : (is : List ℕ) (j : ℕ) → (h j).refcnt ≡ 0 → InUse h is → NotIn j is
  NotIn-of_free [] j e u = tt
  NotIn-of_free (i ∷ is) j e u =
      ((λ q. let r : 0 < (h j).refcnt = rw q u.0 in omega arith), NotIn-of_free is j e u.2)
