-- ===== src/Fbuf/Search.antt =====
-- The loop of fbuf_rseek on a chain whose slots but the last are full.
use arctic_tracker_teensy.Base.{
  ℕ, zero, suc, ◌+◌, ◌-◌, ◌%◌, ◌≤◌, ◌<◌, ◌≡◌, ◌≢◌, refl, ap, ◌∙◌, ◌⊎◌, inl, inr, List, [], ◌∷◌,
  ◌++◌, arith, length, length-append, drop, drop-append_of_le, drop-append_length,
}
use arctic_tracker_teensy.Run.{Slot, Pool, slots, slot_size, nil, ok, get_slot}
use arctic_tracker_teensy.Run.Returns
use arctic_tracker_teensy.Run.Returns.{Returns, returns}
use arctic_tracker_teensy.Fbuf.{rseek_loop}
use arctic_tracker_teensy.Fbuf.Chain.{contents, Links, Full, bytes, length-bytes}
use arctic_tracker_teensy.Fbuf.Read.{Filled, Rest}
use native.Mathlib.Decide.{dec_lt}
use native.Mathlib.Nat.{zero-add}

drop-bytes : (f : ℕ → ℕ) (k n i : ℕ) → i ≤ n → drop i (bytes f k n) ≡ bytes f (k + i) (n - i)
unfolding bytes
drop-bytes f k n zero le =
    let e : n - 0 ≡ n = omega arith in let a : k + 0 ≡ k = omega arith in rw (e, a) refl
drop-bytes f k zero (suc i) le = absurd (omega arith)
drop-bytes f k (suc n) (suc i) le =
    let a : k + suc i ≡ k + 1 + i = omega arith in
    let m : suc n - suc i ≡ n - i = omega arith in
    rw (a, m) (drop-bytes f (k + 1) n i (omega arith))

-- Where the search for position `i` of the bytes `cs` stops.
pub record Sought (h : ℕ → Slot) (i : ℕ) (cs : List ℕ) (out : ℕ × ℕ) : Type 0 where
  pub inside : out.0 < slots
  pub found :
      ((i % slot_size ≢ 0) ⊎ (i ≡ 0))
      → (is : List ℕ) × Links h out.0 is nil × Filled h is × Rest h out.1 is (drop i cs)
  pub boundary : i % slot_size ≡ 0 → 0 < i → out.1 ≡ slot_size

Sought-here :
    (h : ℕ → Slot) (k : ℕ) (ks : List ℕ) (i : ℕ)
    → Links h k (k ∷ ks) nil
    → Filled h (k ∷ ks)
    → i ≤ (h k).length
    → (i ≡ (h k).length → i ≡ slot_size)
    → Sought h i (contents h (k ∷ ks)) (k, i)
unfolding contents
Sought-here h k ks i l f le full = record {
  inside = l.1;
  found = λ off.
      let lt : i < (h k).length = proper off in
      (
        k ∷ ks,
        l,
        f,
        (
          lt,
          drop-append_of_le i (bytes (h k).buf 0 (h k).length) (contents h ks)
                (omega (arith, length-bytes (h k).buf 0 (h k).length))
              ∙ ap (λ ys. ys ++ contents h ks) (drop-bytes (h k).buf 0 (h k).length i le)
              ∙ from_zero,
        ),
      );
  boundary = λ on pos. let fits : (h k).length ≤ slot_size = f.1 in omega arith;
}
  where
    proper : (i % slot_size ≢ 0) ⊎ (i ≡ 0) → i < (h k).length
    proper (inl off) = let ne : i ≢ (h k).length = λ e. off (rw (full e) refl) in omega arith
    proper (inr e) = let some_bytes : 0 < (h k).length = f.0 in omega arith

    from_zero :
        bytes (h k).buf (0 + i) ((h k).length - i) ++ contents h ks
        ≡ bytes (h k).buf i ((h k).length - i) ++ contents h ks
    from_zero = ap (λ n. bytes (h k).buf n ((h k).length - i) ++ contents h ks) (zero-add i)

Sought-after :
    (h : ℕ → Slot) (k i : ℕ) (rest : List ℕ) (out : ℕ × ℕ)
    → (h k).length ≡ slot_size
    → slot_size < i
    → Sought h (i - slot_size) rest out
    → Sought h i (bytes (h k).buf 0 (h k).length ++ rest) out
Sought-after h k i rest out full beyond s = record {
  inside = s.inside;
  found = λ off. let (is, l, f, r) = s.found (later off) in (is, l, f, rw (skip) r);
  boundary = λ on pos. s.boundary (omega arith) (omega arith);
}
  where
    later : (i % slot_size ≢ 0) ⊎ (i ≡ 0) → ((i - slot_size) % slot_size ≢ 0) ⊎ (i - slot_size ≡ 0)
    later (inl off) = inl (λ e. off (omega arith))
    later (inr e) = absurd (omega arith)

    skip : drop i (bytes (h k).buf 0 (h k).length ++ rest) ≡ drop (i - slot_size) rest
    skip =
        let e : i ≡ length (bytes (h k).buf 0 (h k).length) + (i - slot_size) =
          omega (arith, length-bytes (h k).buf 0 (h k).length) in
        ap (λ n. drop n (bytes (h k).buf 0 (h k).length ++ rest)) e
        ∙ drop-append_length (i - slot_size) (bytes (h k).buf 0 (h k).length) rest

module _ (p : Pool) (n r i : ℕ) (inside : r < slots) where
  rseek_loop-stop : i ≤ (p.slot r).length → rseek_loop (suc n) r i p ≡ ok (r, i) p
  unfolding rseek_loop get_slot
  rseek_loop-stop le = ground arith

  rseek_loop-next :
      (p.slot r).length ≡ slot_size
      → slot_size < i
      → rseek_loop (suc n) r i p ≡ rseek_loop n (p.slot r).next (i - slot_size) p
  unfolding rseek_loop get_slot
  rseek_loop-next full lt = ground arith

-- The search on a chain whose slots but the last are full.
pub rseek_loop-Sought :
    (p : Pool) (n : ℕ) (front : List ℕ) (w r i : ℕ)
    → Links p.slot r (front ++ (w ∷ [])) nil
    → Filled p.slot (front ++ (w ∷ []))
    → Full p.slot front
    → i < length (contents p.slot (front ++ (w ∷ [])))
    → length front < n
    → Returns
        (λ out q. (q ≡ p) × Sought p.slot i (contents p.slot (front ++ (w ∷ []))) out)
        (rseek_loop n r i p)
unfolding contents
rseek_loop-Sought p zero front w r i l f full lt enough = absurd (omega arith)
rseek_loop-Sought p (suc n) [] w r i l f full lt enough =
    let count = length-append (bytes (p.slot w).buf 0 (p.slot w).length) [] in
    let size = length-bytes (p.slot w).buf 0 (p.slot w).length in
    let short : i < (p.slot w).length = omega arith in
    rw (l.0, rseek_loop-stop p n w i l.1 (omega arith))
      (returns (
        refl,
        Sought-here p.slot w [] i (refl, l.1, l.2) f (omega arith) (λ e. absurd (omega arith)),
      ))
rseek_loop-Sought p (suc n) (k ∷ ks) w r i l f full lt enough = elim (dec_lt slot_size i) [
  | no here ↦
      let size : (p.slot k).length ≡ slot_size = full.0 in
      rw (l.0, rseek_loop-stop p n k i l.1 (omega arith))
        (returns (
          refl,
          Sought-here p.slot k (ks ++ (w ∷ [])) i (refl, l.1, l.2) f (omega arith)
              (λ e. omega arith),
        ))
  | yes beyond ↦
      let size : (p.slot k).length ≡ slot_size = full.0 in
      let rest = contents p.slot (ks ++ (w ∷ [])) in
      let count = length-append (bytes (p.slot k).buf 0 (p.slot k).length) rest in
      let size' = length-bytes (p.slot k).buf 0 (p.slot k).length in
      let ih =
        rseek_loop-Sought p n ks w (p.slot k).next (i - slot_size) l.2 f.2 full.1 (omega arith)
          (omega arith) in
      rw (l.0, rseek_loop-next p n k i l.1 size beyond)
        (Returns.weaken ih
          λ out q (same, s). (same, Sought-after p.slot k i rest out size beyond s))
]
