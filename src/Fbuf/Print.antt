-- ===== src/Fbuf/Print.antt =====
-- fbuf_print, the reading of a whole chain.
use arctic_tracker_teensy.Base.{
  ℕ, ◌≤◌, ◌<◌, ◌≡◌, refl, sym, ap, ◌⊎◌, inl, inr, List, [], ◌∷◌, ◌++◌, append-nil, arith, length,
  length-append,
}
use arctic_tracker_teensy.Run.{Slot, Pool, slot_size}
use arctic_tracker_teensy.Run.Returns
use arctic_tracker_teensy.Run.Returns.{Returns, returns}
use arctic_tracker_teensy.Fbuf.{Fbuf, reset, get_chars, print}
use arctic_tracker_teensy.Fbuf.Chain.{contents, Full, bytes, length-bytes, contents-snoc}
use arctic_tracker_teensy.Fbuf.Buffer.{slots_of, IsBuffer, IsBuffer-LastSlot}
use arctic_tracker_teensy.Fbuf.Read.{Filled, reset-ToRead, get_chars-GotAll}
use mathlib.Core.Path.{subst}
use native.Mathlib.Decide.{dec_lt}

Filled-snoc :
    (h : ℕ → Slot) (is : List ℕ) (w : ℕ)
    → Full h is
    → 0 < (h w).length
    → (h w).length ≤ slot_size
    → Filled h (is ++ (w ∷ []))
Filled-snoc h [] w f p q = (p, q, tt)
Filled-snoc h (i ∷ is) w f p q =
    let e : (h i).length ≡ slot_size = f.0 in (omega arith, omega arith, Filled-snoc h is w f.1 p q)

-- A chain that is not empty has no empty slot.
last_used_of :
    (h : ℕ → Slot) (b : Fbuf) (front : List ℕ)
    → IsBuffer h b front
    → 0 < b.length
    → (front ≡ []) ⊎ (0 < (h b.wslot).length)
    → 0 < (h b.wslot).length
unfolding contents
last_used_of h b front v some_bytes (inr used) = used
last_used_of h b front v some_bytes (inl e) =
    let none_before : length (contents h front) ≡ 0 = ap (λ is. length (contents h is)) e in
    omega (
      arith,
      v.counted,
      ap length (contents-snoc h front b.wslot),
      length-append (contents h front) (bytes (h b.wslot).buf 0 (h b.wslot).length),
      length-bytes (h b.wslot).buf 0 (h b.wslot).length,
    )

pub IsBuffer-Filled :
    (h : ℕ → Slot) (b : Fbuf) (front : List ℕ)
    → IsBuffer h b front
    → 0 < b.length
    → Filled h (slots_of b front)
IsBuffer-Filled h b front v some_bytes =
    let l = IsBuffer-LastSlot h b front v in
    Filled-snoc h front b.wslot v.full (last_used_of h b front v some_bytes v.last_used) l.fits

nil_of_length : {A : Type 0} (xs : List A) → length xs ≡ 0 → xs ≡ []
nil_of_length [] e = refl
nil_of_length (x ∷ xs) e = absurd (omega arith)

-- fbuf_print writes exactly the bytes of the chain, in order, and leaves the pool as it was.
pub print-contents :
    {p : Pool} {b : Fbuf} {front : List ℕ}
    → IsBuffer p.slot b front
    → Returns (λ out q. (out.0 ≡ contents p.slot (slots_of b front)) × (q ≡ p)) (print b p)
unfolding print get_chars
print-contents {p} {b} {front} v = elim (dec_lt 0 b.length) [
  | yes more ↦
      let cs = contents p.slot (slots_of b front) in
      let start =
        reset-ToRead p.slot b (slots_of b front) v.links (IsBuffer-Filled p.slot b front v more) in
      subst (λ n. Returns Printed (get_chars n (reset b) p)) (sym v.counted)
        (Returns.weaken (get_chars-GotAll p (reset b) cs [] (rw append-nil start))
          λ out q a. (a.chars, a.same_pool))
  | no none_left ↦
      let counted = v.counted in
      let e : b.length ≡ 0 = omega arith in
      rw e (returns (sym (nil_of_length _ (omega arith)), refl))
]
  where
    Printed : List ℕ × Fbuf → Pool → Type 0
    Printed out q = (out.0 ≡ contents p.slot (slots_of b front)) × (q ≡ p)
