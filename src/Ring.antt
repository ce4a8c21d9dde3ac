-- ===== src/Ring.antt =====
-- Rings, which fifo.h, FBQ of fbuf.c and the position buffer of tracker.c keep in an array.
use arctic_tracker_teensy.Base.{
  ℕ, zero, suc, ◌+◌, ◌-◌, ◌%◌, ◌≤◌, ◌<◌, ◌≡◌, ◌≢◌, refl, sym, ap, ap₂, ◌∙◌, List, [], ◌∷◌, ◌++◌,
  arith,
}
use arctic_tracker_teensy.Run.{update}
use arctic_tracker_teensy.Fbuf.Chain.{update_self, update_ne}
use native.Mathlib.Decide.{dec_lt}
use native.Mathlib.Nat.{mod-lt, mod-eq_of_lt, mod-add-mod, mod-eq-sub-mod, mod-mod}

-- The `n` items behind the position `pos` of a ring, oldest first.
unfoldable pub behind : {A : Type 0} → ℕ → ℕ → ℕ → (ℕ → A) → List A
behind zero pos size h = []
behind (suc n) pos size h = h ((pos + 1) % size) ∷ behind n (pos + 1) size h

-- Two places of a ring that are less than its size apart are different.
apart : (a d size : ℕ) → 0 < d → d < size → (a + d) % size ≢ a % size
apart a d size some less same =
    let r = a % size in
    let small : r < size = mod-lt a (omega arith) in
    let moved = mod-add-mod a size d ∙ same in
    elim (dec_lt (r + d) size) [
      | yes lt ↦ let e = mod-eq_of_lt lt in omega (arith, e, moved)
      | no ge ↦
          let back : size ≤ r + d = omega arith in
          let less' : r + d - size < size = omega arith in
          let e = mod-eq-sub-mod back in let e' = mod-eq_of_lt less' in omega (arith, e, e', moved)
    ]

head_same : {A : Type 0} (x y : A) (xs ys : List A) → x ∷ xs ≡ y ∷ ys → (x ≡ y) × (xs ≡ ys)
head_same x y xs ys e = (cc e, cc e)

module _ {A : Type 0} where
  pub behind-same :
      (n a b size : ℕ) (h : ℕ → A) → a % size ≡ b % size → behind n a size h ≡ behind n b size h
  unfolding behind
  behind-same zero a b size h e = refl
  behind-same (suc n) a b size h e =
      let next : (a + 1) % size ≡ (b + 1) % size =
        sym (mod-add-mod a size 1) ∙ ap (λ r. (r + 1) % size) e ∙ mod-add-mod b size 1 in
      ap₂ ◌∷◌ (ap h next) (behind-same n (a + 1) (b + 1) size h next)

  pub behind-snoc :
      (n pos size : ℕ) (h : ℕ → A)
      → behind (suc n) pos size h ≡ behind n pos size h ++ (h ((pos + (n + 1)) % size) ∷ [])
  unfolding behind
  behind-snoc zero pos size h = refl
  behind-snoc (suc n) pos size h =
      let e : pos + 1 + (n + 1) ≡ pos + (suc n + 1) = omega arith in
      ap (λ ys. h ((pos + 1) % size) ∷ ys)
        (behind-snoc n (pos + 1) size h
          ∙ ap (λ k. behind n (pos + 1) size h ++ (h (k % size) ∷ [])) e)

  pub behind-update :
      (n pos size more : ℕ) (x : A) (h : ℕ → A)
      → 0 < more
      → n + more ≤ size
      → behind n pos size (update h ((pos + (n + more)) % size) x) ≡ behind n pos size h
  unfolding behind
  behind-update zero pos size more x h some le = refl
  behind-update (suc n) pos size more x h some le =
      let e : pos + (suc n + more) ≡ pos + 1 + (n + more) = omega arith in
      let other = apart (pos + 1) (n + more) size (omega arith) (omega arith) in
      rw e (
        ap₂ ◌∷◌ (update_ne h ((pos + 1 + (n + more)) % size) x ((pos + 1) % size) other)
          (behind-update n (pos + 1) size more x h some (omega arith)))

  pub behind-uncons :
      (n pos size : ℕ) (h : ℕ → A) (x : A) (xs : List A)
      → behind n pos size h ≡ x ∷ xs
      → (0 < n) × ((h ((pos + 1) % size) ≡ x) × (behind (n - 1) ((pos + 1) % size) size h ≡ xs))
  unfolding behind
  behind-uncons zero pos size h x xs e = cc e
  behind-uncons (suc n) pos size h x xs e =
      let (same, rest) = head_same _ x _ xs e in
      let less : suc n - 1 ≡ n = omega arith in
      (
        omega arith,
        (
          same,
          rw less
              (behind-same n ((pos + 1) % size) (pos + 1) size h (mod-mod (pos + 1) size) ∙ rest),
        ),
      )

  pub behind-nil : (n pos size : ℕ) (h : ℕ → A) → behind n pos size h ≡ [] → n ≡ 0
  unfolding behind
  behind-nil zero pos size h e = refl
  behind-nil (suc n) pos size h e = cc e

  -- An item written behind `n` others.
  pub behind-push :
      (n pos size w : ℕ) (x : A) (h : ℕ → A)
      → n < size
      → w ≡ (pos + (n + 1)) % size
      → behind (suc n) pos size (update h w x) ≡ behind n pos size h ++ (x ∷ [])
  behind-push n pos size w x h lt e =
      let at = (pos + (n + 1)) % size in
      ap (λ k. behind (suc n) pos size (update h k x)) e
      ∙ behind-snoc n pos size (update h at x)
      ∙ ap₂ (λ (xs : List A) (y : A). xs ++ (y ∷ []))
          (behind-update n pos size 1 x h (omega arith) (omega arith)) (update_self h at x)
