-- ===== src/Fbuf/Share.antt =====
-- fbuf_newRef: one more reference to each slot of the chain, which fbuf_release takes back.
use arctic_tracker_teensy.Base.{
  ℕ, zero, suc, ◌+◌, ◌%◌, ◌<◌, ◌≡◌, ◌≢◌, refl, sym, ap, ◌∙◌, List, [], ◌∷◌, arith, length, ne→==,
  lt→ltb,
}
use arctic_tracker_teensy.Run.{Slot, Pool, slots, nil, ◌>>=◌, update, get_slot, put_slot}
use arctic_tracker_teensy.Run.Returns
use arctic_tracker_teensy.Run.Returns.{Returns, returns}
use arctic_tracker_teensy.Fbuf.{Fbuf, fuel, new_ref_loop, new_ref, release}
use arctic_tracker_teensy.Fbuf.Chain.{Links, NotIn, Distinct, Links-update, update_self, update_ne}
use arctic_tracker_teensy.Fbuf.Count.{IsPool, free_count, free_count-update, length_of_Distinct}
use arctic_tracker_teensy.Fbuf.Seek.{Links-Below}
use arctic_tracker_teensy.Fbuf.Release.{
  Referred, Referred-update, lower, Lowered, singles, release-Released,
}

abbrev pub raise : Slot → Slot
raise s = record s { refcnt = (s.refcnt + 1) % 256 }

-- `h'` has one reference more to each slot of the chain, and the same links and bytes.
abbrev pub Raised : (ℕ → Slot) → (ℕ → Slot) → List ℕ → Type 0
Raised h h' [] = Unit {0}
Raised h h' (k ∷ ks) = (h' k ≡ raise (h k)) × Raised h h' ks

-- The reference counts of the chain stay below 2 ^ 8.
abbrev pub Countable : (ℕ → Slot) → List ℕ → Type 0
Countable h [] = Unit {0}
Countable h (k ∷ ks) = ((h k).refcnt < 255) × Countable h ks

abbrev pub Same : (ℕ → Slot) → (ℕ → Slot) → List ℕ → Type 0
Same h h' [] = Unit {0}
Same h h' (k ∷ ks) = (h' k ≡ h k) × Same h h' ks

pub record Shared (p : Pool) (is : List ℕ) (q : Pool) : Type 0 where
  pub pool : IsPool q
  pub raised : Raised p.slot q.slot is
  pub count : free_count slots q.slot ≡ free_count slots p.slot
  pub spared : (k : ℕ) → NotIn k is → q.slot k ≡ p.slot k

abbrev raised_at : Pool → ℕ → Pool
raised_at p k = record p { slot = update p.slot k (raise (p.slot k)) }

module _ (p : Pool) (k : ℕ) (inside : k < slots) (used : 0 < (p.slot k).refcnt)
    (small : (p.slot k).refcnt < 255) where
  new_ref_loop-step :
      (n : ℕ) → new_ref_loop (suc n) k p ≡ new_ref_loop n (p.slot k).next (raised_at p k)
  unfolding new_ref_loop get_slot put_slot
  new_ref_loop-step n =
      let ne : k ≢ nil = omega arith in
      rw (ne→== k nil ne, lt→ltb k slots inside) (rw (lt→ltb k slots inside) refl)

  raised_at-count : free_count slots (raised_at p k).slot ≡ free_count slots p.slot
  raised_at-count =
      let change = free_count-update slots p.slot k (raise (p.slot k)) inside in ground arith

module _ (h : ℕ → Slot) (k : ℕ) (s : Slot) where
  Raised-update :
      (h' : ℕ → Slot) (is : List ℕ) → NotIn k is → Raised (update h k s) h' is → Raised h h' is
  Raised-update h' [] out l = tt
  Raised-update h' (i ∷ is) out l =
      (l.0 ∙ ap raise (update_ne h k s i out.0), Raised-update h' is out.1 l.1)

  Countable-update : (is : List ℕ) → NotIn k is → Countable h is → Countable (update h k s) is
  Countable-update [] out r = tt
  Countable-update (i ∷ is) out r =
      (rw (update_ne h k s i out.0) r.0, Countable-update is out.1 r.1)

new_ref_loop-Shared :
    (n : ℕ) (p : Pool) (is : List ℕ) (i : ℕ)
    → Links p.slot i is nil
    → Distinct is
    → Referred p.slot is
    → Countable p.slot is
    → IsPool p
    → length is < n
    → Returns (λ _ q. Shared p is q) (new_ref_loop n i p)
unfolding new_ref_loop
new_ref_loop-Shared zero p is i l d r c inv enough = absurd (omega arith)
new_ref_loop-Shared (suc n) p [] i l d r c inv enough =
    rw l (returns (record { pool = inv; raised = tt; count = refl; spared = λ k out. refl }))
new_ref_loop-Shared (suc n) p (k ∷ ks) i l d r c inv enough =
    let h = p.slot in
    let s = raise (h k) in
    let same = raised_at-count p k l.1 r.0 c.0 in
    let inv' : IsPool (raised_at p k) = record { counted = inv.counted ∙ sym same } in
    let ih =
      new_ref_loop-Shared n (raised_at p k) ks (h k).next
        (Links-update h k s ks (h k).next nil d.0 l.2) d.1 (Referred-update h k s ks d.0 r.1)
        (Countable-update h k s ks d.0 c.1) inv' (omega arith) in
    rw (l.0, new_ref_loop-step p k l.1 r.0 c.0 n)
      (Returns.weaken ih λ _ q e. record {
        pool = e.pool;
        raised = (e.spared k d.0 ∙ update_self h k s, Raised-update h k s q.slot ks d.0 e.raised);
        count = e.count ∙ same;
        spared = λ j out. e.spared j out.1 ∙ update_ne h k s j (λ f. out.0 (sym f));
      })

Raised-Links :
    (h h' : ℕ → Slot) (is : List ℕ) (i j : ℕ) → Raised h h' is → Links h i is j → Links h' i is j
Raised-Links h h' [] i j r l = l
Raised-Links h h' (k ∷ ks) i j r l =
    (l.0, l.1, rw (r.0) (Raised-Links h h' ks (h k).next j r.1 l.2))

Raised-Referred : (h h' : ℕ → Slot) (is : List ℕ) → Raised h h' is → Countable h is → Referred h' is
Raised-Referred h h' [] r c = tt
Raised-Referred h h' (k ∷ ks) r c =
    let small : (h k).refcnt < 255 = c.0 in
    (rw (r.0) (omega arith), Raised-Referred h h' ks r.1 c.1)

lower-raise : (s : Slot) → s.refcnt < 255 → lower (raise s) ≡ s
lower-raise s small = ap (λ n. record s { refcnt = n }) (omega arith)

Lowered-Raised :
    (h h' h'' : ℕ → Slot) (is : List ℕ)
    → Countable h is
    → Raised h h' is
    → Lowered h' h'' is
    → Same h h'' is
Lowered-Raised h h' h'' [] c r l = tt
Lowered-Raised h h' h'' (k ∷ ks) c r l =
    (l.0 ∙ ap lower r.0 ∙ lower-raise (h k) c.0, Lowered-Raised h h' h'' ks c.1 r.1 l.1)

singles-Raised :
    (h h' : ℕ → Slot) (is : List ℕ)
    → Raised h h' is
    → Referred h is
    → Countable h is
    → singles h' is ≡ 0
unfolding singles
singles-Raised h h' [] r u c = refl
singles-Raised h h' (k ∷ ks) r u c =
    let used : 0 < (h k).refcnt = u.0 in
    let small : (h k).refcnt < 255 = c.0 in
    let more : (h' k).refcnt ≡ ((h k).refcnt + 1) % 256 = ap (λ (s : Slot). s.refcnt) r.0 in
    ground (arith, singles-Raised h h' ks r.1 u.1 c.1)

-- fbuf_newRef gives a handle to the same chain, at its start, with a reference more to each slot.
pub new_ref-Shared :
    (p : Pool) (b : Fbuf) (is : List ℕ)
    → Links p.slot b.head is nil
    → Distinct is
    → Referred p.slot is
    → Countable p.slot is
    → IsPool p
    → Returns (λ b' q. (b' ≡ record b { rslot = b.head; rpos = 0 }) × Shared p is q) (new_ref b p)
unfolding new_ref
new_ref-Shared p b is l d r c inv =
    let enough = length_of_Distinct slots is (Links-Below p.slot is b.head nil l) d in
    Returns.chain (new_ref_loop-Shared fuel p is b.head l d r c inv (omega arith))
      λ _ q e. returns (refl, e)

-- Releasing a new reference restores every slot and the number of free slots.
pub release-new_ref :
    (p : Pool) (b : Fbuf) (is : List ℕ)
    → Links p.slot b.head is nil
    → Distinct is
    → Referred p.slot is
    → Countable p.slot is
    → IsPool p
    → Returns
        (λ _ q.
          Same p.slot q.slot is
          × (q.free_slots ≡ p.free_slots)
          × ((k : ℕ) → NotIn k is → q.slot k ≡ p.slot k))
        ((new_ref b >>= release) p)
release-new_ref p b is l d r c inv =
    Returns.chain (new_ref-Shared p b is l d r c inv) λ b' q (e, s).
      let links = Raised-Links p.slot q.slot is b.head nil s.raised l in
      let links' : Links q.slot b'.head is nil = rw e links in
      Returns.weaken
        (release-Released q b' is links' d (Raised-Referred p.slot q.slot is s.raised c) s.pool)
        λ _ q' (_, _, z). (
          Lowered-Raised p.slot q.slot q'.slot is c s.raised z.lowered,
          omega (
            arith,
            z.pool.counted,
            inv.counted,
            z.freed,
            s.count,
            singles-Raised p.slot q.slot is s.raised r c,
          ),
          λ k out. z.spared k out ∙ s.spared k out,
        )
