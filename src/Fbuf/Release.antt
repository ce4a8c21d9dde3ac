-- ===== src/Fbuf/Release.antt =====
-- fbuf_release: one reference fewer to each slot of the chain, and back to the free slots with
-- those that have none left.
use arctic_tracker_teensy.Base.{
  ℕ, zero, suc, ◌+◌, ◌-◌, ◌%◌, ◌<◌, ◌≡◌, ◌≢◌, refl, ne→==, lt→ltb, sym, ap, ◌∙◌, List, [], ◌∷◌,
  arith, length, ◌==◌, if◌then◌else◌,
}
use arctic_tracker_teensy.Run.{Slot, Pool, slots, nil, ok, update, get_slot}
use arctic_tracker_teensy.Run.Returns
use arctic_tracker_teensy.Run.Returns.{Returns, returns}
use arctic_tracker_teensy.Fbuf.{Fbuf, fuel, drop_ref, release_loop, release}
use arctic_tracker_teensy.Fbuf.Chain.{Links, NotIn, Distinct, Links-update, update_self, update_ne}
use arctic_tracker_teensy.Fbuf.Count.{
  IsPool, free_count, free_count-update, free_count-le, length_of_Distinct,
}
use arctic_tracker_teensy.Fbuf.Seek.{Links-Below}

-- Each slot of the chain is referred to.
abbrev pub Referred : (ℕ → Slot) → List ℕ → Type 0
Referred h [] = Unit {0}
Referred h (k ∷ ks) = (0 < (h k).refcnt) × Referred h ks

abbrev pub lower : Slot → Slot
lower s = record s { refcnt = s.refcnt - 1 }

-- `h'` has one reference fewer to each slot of the chain, and the same links and bytes.
abbrev pub Lowered : (ℕ → Slot) → (ℕ → Slot) → List ℕ → Type 0
Lowered h h' [] = Unit {0}
Lowered h h' (k ∷ ks) = (h' k ≡ lower (h k)) × Lowered h h' ks

-- How many slots of the chain have a single reference.
unfoldable pub singles : (ℕ → Slot) → List ℕ → ℕ
singles h [] = 0
singles h (k ∷ ks) = (if (h k).refcnt == 1 then 1 else 0) + singles h ks

pub record Released (p : Pool) (is : List ℕ) (q : Pool) : Type 0 where
  pub pool : IsPool q
  pub lowered : Lowered p.slot q.slot is
  pub freed : free_count slots q.slot ≡ free_count slots p.slot + singles p.slot is
  pub spared : (k : ℕ) → NotIn k is → q.slot k ≡ p.slot k

-- The pool after one reference to `k` has gone.
abbrev dropped : Pool → ℕ → Pool
dropped p k = record p {
  slot = update p.slot k (lower (p.slot k));
  free_slots = if (p.slot k).refcnt == 1 then (p.free_slots + 1) % 65536 else p.free_slots;
}

module _ (p : Pool) (k : ℕ) (inside : k < slots) (used : 0 < (p.slot k).refcnt) where
  drop_ref-dropped : drop_ref k p ≡ ok tt (dropped p k)
  unfolding drop_ref
  drop_ref-dropped = ground arith

  release_loop-step :
      (n : ℕ) → release_loop (suc n) k p ≡ release_loop n (p.slot k).next (dropped p k)
  unfolding release_loop get_slot
  release_loop-step n =
      let ne : k ≢ nil = omega arith in
      rw (ne→== k nil ne, drop_ref-dropped, lt→ltb k slots inside)
        (rw (update_self p.slot k (lower (p.slot k))) refl)

  dropped-count :
      free_count slots (dropped p k).slot
      ≡ free_count slots p.slot + (if (p.slot k).refcnt == 1 then 1 else 0)
  dropped-count =
      let change = free_count-update slots p.slot k (lower (p.slot k)) inside in ground arith

  dropped-IsPool : IsPool p → IsPool (dropped p k)
  dropped-IsPool inv =
      let e = dropped-count in
      let small = free_count-le slots (dropped p k).slot in
      let counted = inv.counted in record { counted = ground arith }

module _ (h : ℕ → Slot) (k : ℕ) (s : Slot) where
  pub Referred-update : (is : List ℕ) → NotIn k is → Referred h is → Referred (update h k s) is
  Referred-update [] out r = tt
  Referred-update (i ∷ is) out r = (rw (update_ne h k s i out.0) r.0, Referred-update is out.1 r.1)

  Lowered-update :
      (h' : ℕ → Slot) (is : List ℕ) → NotIn k is → Lowered (update h k s) h' is → Lowered h h' is
  Lowered-update h' [] out l = tt
  Lowered-update h' (i ∷ is) out l =
      (l.0 ∙ ap lower (update_ne h k s i out.0), Lowered-update h' is out.1 l.1)

  singles-update : (is : List ℕ) → NotIn k is → singles (update h k s) is ≡ singles h is
  unfolding singles
  singles-update [] out = refl
  singles-update (i ∷ is) out = rw (update_ne h k s i out.0, singles-update is out.1)

release_loop-Released :
    (n : ℕ) (p : Pool) (is : List ℕ) (i : ℕ)
    → Links p.slot i is nil
    → Distinct is
    → Referred p.slot is
    → IsPool p
    → length is < n
    → Returns (λ _ q. Released p is q) (release_loop n i p)
unfolding release_loop singles
release_loop-Released zero p is i l d r inv enough = absurd (omega arith)
release_loop-Released (suc n) p [] i l d r inv enough =
    rw l
      (returns (record { pool = inv; lowered = tt; freed = omega arith; spared = λ k out. refl }))
release_loop-Released (suc n) p (k ∷ ks) i l d r inv enough =
    let h = p.slot in
    let s = lower (h k) in
    let q = dropped p k in
    let ih =
      release_loop-Released n q ks (h k).next (Links-update h k s ks (h k).next nil d.0 l.2) d.1
        (Referred-update h k s ks d.0 r.1) (dropped-IsPool p k l.1 r.0 inv) (omega arith) in
    rw (l.0, release_loop-step p k l.1 r.0 n)
      (Returns.weaken ih λ _ q' e. record {
        pool = e.pool;
        lowered =
            (e.spared k d.0 ∙ update_self h k s, Lowered-update h k s q'.slot ks d.0 e.lowered);
        freed = omega (arith, e.freed, dropped-count p k l.1 r.0, singles-update h k s ks d.0);
        spared = λ j out. e.spared j out.1 ∙ update_ne h k s j (λ f. out.0 (sym f));
      })

-- fbuf_release of a chain of distinct slots that are all referred to leaves each with one
-- reference fewer, adds those that had a single one to the free slots, changes no other slot, and
-- returns the empty handle.
pub release-Released :
    (p : Pool) (b : Fbuf) (is : List ℕ)
    → Links p.slot b.head is nil
    → Distinct is
    → Referred p.slot is
    → IsPool p
    → Returns (λ b' q. (b'.head ≡ nil) × (b'.length ≡ 0) × Released p is q) (release b p)
unfolding release
release-Released p b is l d r inv =
    let enough = length_of_Distinct slots is (Links-Below p.slot is b.head nil l) d in
    Returns.chain (release_loop-Released fuel p is b.head l d r inv (omega arith))
      λ _ q e. returns (refl, refl, e)
