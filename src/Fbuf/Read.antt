-- ===== src/Fbuf/Read.antt =====
-- fbuf_reset, fbuf_getChar and fbuf_rseek: what is left to read from a chain.
use arctic_tracker_teensy.Base.{
  ℕ, zero, suc, ◌+◌, ◌%◌, ◌-◌, ◌≤◌, ◌<◌, ◌≡◌, refl, ap, ap₂, ◌∙◌, Bool-cases, ==→eq, ==→ne, inl,
  inr, List, [], ◌∷◌, ◌++◌, arith, length, ◌==◌,
}
use arctic_tracker_teensy.Run.{Slot, Pool, slots, slot_size, nil, ok, get_slot}
use arctic_tracker_teensy.Run.Returns
use arctic_tracker_teensy.Run.Returns.{Returns, returns}
use arctic_tracker_teensy.Fbuf.{Fbuf, reset, advance, get_char, get_chars}
use arctic_tracker_teensy.Fbuf.Chain.{contents, Links, bytes}

-- Each slot holds at least one byte, and no more than fit.
abbrev pub Filled : (ℕ → Slot) → List ℕ → Type 0
Filled h [] = Unit {0}
Filled h (k ∷ ks) = (0 < (h k).length) × ((h k).length ≤ slot_size) × Filled h ks

-- What is left in the slots `is` from position `pos` of the first on.
abbrev pub Rest : (ℕ → Slot) → ℕ → List ℕ → List ℕ → Type 0
Rest h pos [] cs = (pos ≡ 0) × (cs ≡ [])
Rest h pos (i ∷ is) cs =
    (pos < (h i).length) × (cs ≡ bytes (h i).buf pos ((h i).length - pos) ++ contents h is)

-- The bytes `cs` are still to be read from the chain.
pub record ToRead (h : ℕ → Slot) (b : Fbuf) (cs : List ℕ) : Type 0 where
  pub slots_left : List ℕ
  pub links : Links h b.rslot slots_left nil
  pub filled : Filled h slots_left
  pub rest : Rest h b.rpos slots_left cs

sub-zero : (n : ℕ) → n ≡ n - 0
sub-zero n = omega arith

Rest-start : (h : ℕ → Slot) (is : List ℕ) → Filled h is → Rest h 0 is (contents h is)
unfolding contents
Rest-start h [] f = (refl, refl)
Rest-start h (i ∷ is) f =
    (f.0, ap (λ n. bytes (h i).buf 0 n ++ contents h is) (sub-zero (h i).length))

-- fbuf_reset goes back to the first byte.
pub reset-ToRead :
    (h : ℕ → Slot) (b : Fbuf) (is : List ℕ)
    → Links h b.head is nil
    → Filled h is
    → ToRead h (reset b) (contents h is)
unfolding reset
reset-ToRead h b is l f = record {
  slots_left = is;
  links = l;
  filled = f;
  rest = Rest-start h is f;
}

-- The first byte that is left, the one that fbuf_getChar returns, and the state that it leaves.
pub record Got (p : Pool) (b : Fbuf) (c : ℕ) (cs : List ℕ) (out : ℕ × Fbuf) (q : Pool)
    : Type 0 where
  pub char : out.0 ≡ c
  pub same_pool : q ≡ p
  pub left : ToRead p.slot out.1 cs
  pub same_chain : (out.1.head ≡ b.head) × (out.1.length ≡ b.length) × (out.1.wslot ≡ b.wslot)

bytes-uncons : (f : ℕ → ℕ) (k n : ℕ) → 0 < n → bytes f k n ≡ f k ∷ bytes f (k + 1) (n - 1)
unfolding bytes
bytes-uncons f k zero h = absurd (omega arith)
bytes-uncons f k (suc n) h = let e : suc n - 1 ≡ n = omega arith in rw e refl

module _ (p : Pool) (b : Fbuf) (c : ℕ) (cs : List ℕ) where
  abbrev at : ℕ → Slot
  at i = p.slot i

  -- The slot that is read, when there is something left.
  get_char-eq-ok :
      (i : ℕ)
      → b.rslot ≡ i
      → i < slots
      → b.rpos < slot_size
      → get_char b p ≡ ok ((at i).buf b.rpos, advance b (at i)) p
  unfolding get_char get_slot
  get_char-eq-ok i e lt fits = ground arith

  advance-ToRead :
      (i : ℕ) (is : List ℕ)
      → b.rslot ≡ i
      → i < slots
      → Links p.slot (at i).next is nil
      → Filled p.slot (i ∷ is)
      → b.rpos < (at i).length
      → cs ≡ bytes (at i).buf (b.rpos + 1) ((at i).length - b.rpos - 1) ++ contents p.slot is
      → ToRead p.slot (advance b (at i)) cs
  unfolding advance bytes contents
  advance-ToRead i is e lt l f inside left = elim (Bool-cases (b.rpos + 1 == (at i).length)) [
    | inl last ↦
        let end = ==→eq _ _ last in
        let none_left : (at i).length - b.rpos - 1 ≡ 0 = omega arith in
        rw last (record {
          slots_left = is;
          links = l;
          filled = f.2;
          rest = rw left (rw none_left (Rest-start p.slot is f.2));
        })
    | inr more ↦
        let ne = ==→ne _ _ more in
        let fits : (at i).length ≤ slot_size = f.1 in
        let step : (b.rpos + 1) % 65536 ≡ b.rpos + 1 = omega arith in
        let count : (at i).length - b.rpos - 1 ≡ (at i).length - (b.rpos + 1) = omega arith in
        rw more (record {
          slots_left = i ∷ is;
          links = (e, lt, l);
          filled = f;
          rest = rw step (omega arith, rw (← count) left);
        })
  ]

  advance-same :
      (s : Slot)
      → ((advance b s).head ≡ b.head)
        × ((advance b s).length ≡ b.length)
        × ((advance b s).wslot ≡ b.wslot)
  unfolding advance
  advance-same s = ground arith

  get_char-Got_at :
      (is : List ℕ)
      → Links p.slot b.rslot is nil
      → Filled p.slot is
      → Rest p.slot b.rpos is (c ∷ cs)
      → Returns (Got p b c cs) (get_char b p)
  get_char-Got_at [] l f r = cc (r.1)
  get_char-Got_at (i ∷ is) l f r =
      let inside : b.rpos < (at i).length = r.0 in
      let fits : (at i).length ≤ slot_size = f.1 in
      let e =
        r.1
        ∙ ap (λ ys. ys ++ contents p.slot is)
            (bytes-uncons (at i).buf b.rpos ((at i).length - b.rpos) (omega arith)) in
      rw (get_char-eq-ok i l.0 l.1 (omega arith)) (
        returns (record {
          char = cc e;
          same_pool = refl;
          left = advance-ToRead i is l.0 l.1 l.2 f inside (cc e);
          same_chain = advance-same (at i);
        }))

  -- fbuf_getChar returns the first byte that is left, inside the pool, and leaves the others.
  pub get_char-Got : ToRead p.slot b (c ∷ cs) → Returns (Got p b c cs) (get_char b p)
  get_char-Got t = get_char-Got_at t.slots_left t.links t.filled t.rest

-- The first of the bytes left have been read.
pub record GotAll (p : Pool) (b : Fbuf) (cs ds : List ℕ) (out : List ℕ × Fbuf) (q : Pool)
    : Type 0 where
  pub chars : out.0 ≡ cs
  pub same_pool : q ≡ p
  pub left : ToRead p.slot out.1 ds
  pub same_chain : (out.1.head ≡ b.head) × (out.1.length ≡ b.length) × (out.1.wslot ≡ b.wslot)

-- As many calls of fbuf_getChar as there are bytes left, or fewer, return those bytes in order.
pub get_chars-GotAll :
    (p : Pool) (b : Fbuf) (cs ds : List ℕ)
    → ToRead p.slot b (cs ++ ds)
    → Returns (GotAll p b cs ds) (get_chars (length cs) b p)
unfolding get_chars
get_chars-GotAll p b [] ds t =
    returns (record { chars = refl; same_pool = refl; left = t; same_chain = (refl, refl, refl) })
get_chars-GotAll p b (c ∷ cs) ds t = Returns.chain (get_char-Got p b c (cs ++ ds) t) λ (c', b') q g.
    let rest : Returns (GotAll p b' cs ds) (get_chars (length cs) b' q) =
      rw (g.same_pool) (get_chars-GotAll p b' cs ds g.left) in
    Returns.chain rest λ (cs', b'') q' a. returns (record {
      chars = ap₂ ◌∷◌ g.char a.chars;
      same_pool = a.same_pool;
      left = a.left;
      same_chain = (
        a.same_chain.0 ∙ g.same_chain.0,
        a.same_chain.1 ∙ g.same_chain.1,
        a.same_chain.2 ∙ g.same_chain.2,
      );
    })
