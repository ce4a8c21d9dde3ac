-- ===== src/Fbuf/Alloc.antt =====
-- `_fbuf_newslot` and fbuf_new: a free slot is found whenever there is one.
use arctic_tracker_teensy.Base.{
  ℕ, zero, suc, ◌+◌, ◌≤◌, ◌<◌, ◌≡◌, ◌⊎◌, inl, inr, refl, arith, ◌==◌, Bool-cases, ==→eq,
}
use arctic_tracker_teensy.Run.{Pool, slots, nil, Run, ok}
use arctic_tracker_teensy.Fbuf.{taken, fresh_slot, new_slot_loop, new_slot}
use arctic_tracker_teensy.Fbuf.Count.{
  IsPool, free_count, free_count-update, free_count-le, free_count-pos, free_count_step,
  free_count_zero, is_free,
}

-- A free slot has been taken, and is the result.
abbrev pub Allocates : Pool → Run ℕ → Type 0
Allocates p r = (j : ℕ) × (r ≡ ok j (taken p j)) × (j < slots) × ((p.slot j).refcnt ≡ 0)

new_slot_loop_lem :
    (n i : ℕ) (p : Pool)
    → i + n ≤ slots
    → Allocates p (new_slot_loop n i p)
      ⊎ ((new_slot_loop n i p ≡ ok nil p) × (free_count (i + n) p.slot ≡ free_count i p.slot))
unfolding new_slot_loop
new_slot_loop_lem zero i p le = let e : i + 0 ≡ i = omega arith in inr (refl, rw e refl)
new_slot_loop_lem (suc n) i p le = elim (Bool-cases ((p.slot i).refcnt == 0)) [
  | inl e ↦ inl (i, rw e refl, omega arith, ==→eq _ 0 e)
  | inr e ↦ rw e (elim (new_slot_loop_lem n (i + 1) p (omega arith)) [
    | inl found ↦ inl found
    | inr (none_left, same) ↦
        let assoc : i + suc n ≡ i + 1 + n = omega arith in
        inr (none_left, rw assoc (ground (arith, free_count_step i p.slot)))
  ])
]

-- With a free slot, `_fbuf_newslot` takes one.
pub new_slot-Allocates : (p : Pool) → 0 < free_count slots p.slot → Allocates p (new_slot p)
unfolding new_slot
new_slot-Allocates p some_left = elim (new_slot_loop_lem slots 0 p (omega arith)) [
  | inl found ↦ found
  | inr (_, same) ↦ absurd (omega (arith, free_count_zero p.slot))
]

-- With none, it changes nothing and returns NILPTR.
pub new_slot-eq-nil : (p : Pool) → free_count slots p.slot ≡ 0 → new_slot p ≡ ok nil p
unfolding new_slot
new_slot-eq-nil p full = elim (new_slot_loop_lem slots 0 p (omega arith)) [
  | inl (j, _, lt, free) ↦ absurd (omega (arith, free_count-pos slots p.slot j lt free))
  | inr (e, _) ↦ e
]

-- Taking a free slot keeps the count right, and lowers it by one.
pub taken-IsPool :
    (p : Pool) (j : ℕ)
    → j < slots
    → (p.slot j).refcnt ≡ 0
    → IsPool p
    → IsPool (taken p j) × (free_count slots (taken p j).slot + 1 ≡ free_count slots p.slot)
taken-IsPool p j lt free inv =
    let change = free_count-update slots p.slot j (fresh_slot (p.slot j)) lt in
    let was : is_free (p.slot j) ≡ 1 = ground arith in
    let counted = inv.counted in
    let small = free_count-le slots p.slot in (record { counted = omega arith }, omega arith)
