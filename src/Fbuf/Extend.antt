-- ===== src/Fbuf/Extend.antt =====
-- fbuf_putChar where the last slot is full: a free slot is linked behind it.
use arctic_tracker_teensy.Base.{
  ℕ, ◌+◌, ◌%◌, ◌≤◌, ◌<◌, ◌≡◌, ◌≢◌, refl, sym, ap, ap₂, ◌∙◌, inr, List, [], ◌∷◌, ◌++◌, arith, length,
  length-append,
}
use arctic_tracker_teensy.Run.{Slot, Pool, slots, slot_size, nil, ok, update, get_slot, put_slot}
use arctic_tracker_teensy.Fbuf.{
  Fbuf, taken, fresh_slot, store_char, set_next, new_slot, put_in_new, put_at, put_char,
}
use arctic_tracker_teensy.Fbuf.Chain.{
  contents, Links, NotIn, InUse, Links-append, Links-update, contents-update, InUse-update,
  InUse-append, update_self, update_ne, NotIn-of_free, NotIn-Apart, Distinct-append, NotIn-append,
  bytes, bytes_one, contents-snoc, Full, Full-update, Full-append, contents-snoc_update,
  contents-snoc, Full, Full-update, Full-append, contents-snoc_update, NotIn-right, NotIn-left,
}
use arctic_tracker_teensy.Fbuf.Count.{IsPool, free_count, free_count-update, is_free}
use arctic_tracker_teensy.Fbuf.Alloc.{taken-IsPool}
use arctic_tracker_teensy.Fbuf.Buffer.{slots_of, IsBuffer, room, Wrote, LastSlot, IsBuffer-LastSlot}

-- A fresh slot `j` is linked behind the last one, which is full.
module _ (p : Pool) (b : Fbuf) (front : List ℕ) (c j : ℕ) (v : IsBuffer p.slot b front)
    (j_inside : j < slots) (j_free : (p.slot j).refcnt ≡ 0) where
  abbrev pub h₁ : ℕ → Slot
  h₁ = update p.slot j (fresh_slot (p.slot j))

  abbrev pub h₂ : ℕ → Slot
  h₂ = update h₁ b.wslot (record (h₁ b.wslot) { next = j })

  abbrev pub newest : Slot
  newest = record (h₂ j) { buf = update (h₂ j).buf 0 c; length = ((h₂ j).length + 1) % 256 }

  abbrev pub h₃ : ℕ → Slot
  h₃ = update h₂ j newest

  abbrev pub longer : Fbuf
  longer = record b { wslot = j; length = (b.length + 1) % 65536 }

  abbrev pub extended : Pool
  extended = record (taken p j) { slot = h₃ }

  all_of : LastSlot p.slot b front
  all_of = IsBuffer-LastSlot p.slot b front v

  out_of : NotIn j (slots_of b front)
  out_of = NotIn-of_free p.slot (slots_of b front) j j_free v.in_use

  ne_last : j ≢ b.wslot
  ne_last = let (ne, _) = NotIn-right j front (b.wslot ∷ []) out_of in ne

  put_in_new-extended : new_slot p ≡ ok j (taken p j) → put_in_new b c p ≡ ok longer extended
  unfolding put_in_new set_next store_char get_slot put_slot
  put_in_new-extended e =
      let l = all_of in
      let inside = l.inside in let head_inside = l.head_inside in rw e (ground arith)

  pub put_char-extended :
      (p.slot b.wslot).length ≡ slot_size
      → new_slot p ≡ ok j (taken p j)
      → put_char b c p ≡ ok longer extended
  unfolding put_char put_at get_slot
  put_char-extended full e =
      let l = all_of in let inside = l.inside in let made = put_in_new-extended e in ground arith

  newest_parts :
      (newest.length ≡ 1) × (newest.next ≡ nil) × (newest.refcnt ≡ 1) × (newest.buf 0 ≡ c)
  unfolding update
  newest_parts = let ne = ne_last in (ground arith, ground arith, ground arith, ground arith)

  last_parts : (h₂ b.wslot ≡ record (p.slot b.wslot) { next = j })
  unfolding update
  last_parts = let ne = ne_last in ground arith

  at_last : h₃ b.wslot ≡ record (p.slot b.wslot) { next = j }
  at_last = update_ne h₂ j newest b.wslot ne_last ∙ last_parts

  Links-extended : Links h₃ b.head (slots_of longer (slots_of b front)) nil
  Links-extended =
      let l = all_of in
      let w = b.wslot in
      let out = NotIn-left j front (w ∷ []) out_of in
      let one = Links-update p.slot j (fresh_slot (p.slot j)) front b.head w out l.before in
      let two = Links-update h₁ w (record (h₁ w) { next = j }) front b.head w l.alone one in
      let three = Links-update h₂ j newest front b.head w out two in
      let step : (h₃ w).next ≡ j = ap (λ (s : Slot). s.next) at_last in
      let end : (h₃ j).next ≡ nil =
        ap (λ (s : Slot). s.next) (update_self h₂ j newest) ∙ newest_parts.1 in
      Links-append h₃ (front ++ (w ∷ [])) (j ∷ []) b.head j nil
        (Links-append h₃ front (w ∷ []) b.head w j three (refl, l.inside, step))
        (refl, j_inside, end)

  InUse-extended : InUse h₃ (slots_of longer (slots_of b front))
  InUse-extended =
      let l = all_of in
      let w = b.wslot in
      let is = slots_of b front in
      let same : h₁ w ≡ p.slot w = update_ne p.slot j (fresh_slot (p.slot j)) w ne_last in
      let one =
        InUse-update p.slot j (fresh_slot (p.slot j)) is (omega arith) (omega arith) v.in_use in
      let two =
        InUse-update h₁ w (record (h₁ w) { next = j }) is (rw same l.used) (rw same l.fits) one in
      let (len, _, ref, _) = newest_parts in
      let pos : 0 < newest.refcnt = omega (arith, ref) in
      let fits : newest.length ≤ slot_size = omega (arith, len) in
      let three = InUse-update h₂ j newest is pos fits two in
      InUse-append h₃ is (j ∷ []) three
        (rw (update_self h₂ j newest) pos, rw (update_self h₂ j newest) fits, tt)

  contents-extended :
      contents h₃ (slots_of longer (slots_of b front))
      ≡ contents p.slot (slots_of b front) ++ (c ∷ [])
  contents-extended =
      let w = b.wslot in
      let is = slots_of b front in
      let l = all_of in
      let (len, _, _, char) = newest_parts in
      let out = NotIn-left j front (w ∷ []) out_of in
      let same : h₁ w ≡ p.slot w = update_ne p.slot j (fresh_slot (p.slot j)) w ne_last in
      let added : bytes newest.buf 0 newest.length ≡ c ∷ [] =
        rw len (bytes_one newest.buf c char) in
      let kept : contents h₂ is ≡ contents p.slot is =
        contents-snoc_update h₁ front w (record (h₁ w) { next = j }) l.alone
        ∙ ap₂ ◌++◌ (contents-update p.slot j (fresh_slot (p.slot j)) front out)
            (ap (λ (s : Slot). bytes s.buf 0 s.length) same)
        ∙ sym (contents-snoc p.slot front w) in
      contents-snoc_update h₂ is j newest out_of ∙ ap₂ ◌++◌ kept added

  free-extended : IsPool p → IsPool extended × (free_count slots h₃ + 1 ≡ free_count slots p.slot)
  free-extended inv =
      let l = all_of in
      let w = b.wslot in
      let (inv₁, less) = taken-IsPool p j j_inside j_free inv in
      let same : h₁ w ≡ p.slot w = update_ne p.slot j (fresh_slot (p.slot j)) w ne_last in
      let used : 0 < (h₁ w).refcnt = rw same l.used in
      let (_, _, ref, _) = newest_parts in
      let two = free_count-update slots h₁ w (record (h₁ w) { next = j }) l.inside in
      let three = free_count-update slots h₂ j newest j_inside in
      let zero_w : is_free (h₁ w) ≡ 0 = ground arith in
      let zero_j : is_free newest ≡ 0 = ground arith in
      let counted = inv₁.counted in (record { counted = omega arith }, omega arith)

  Full-extended : (p.slot b.wslot).length ≡ slot_size → Full h₃ (slots_of b front)
  Full-extended full =
      let l = all_of in
      let w = b.wslot in
      let out = NotIn-left j front (w ∷ []) out_of in
      let one = Full-update p.slot j (fresh_slot (p.slot j)) front out v.full in
      let two = Full-update h₁ w (record (h₁ w) { next = j }) front l.alone one in
      let three = Full-update h₂ j newest front out two in
      Full-append h₃ front (w ∷ []) three (ap (λ (s : Slot). s.length) at_last ∙ full, tt)

  spared-extended :
      (k : ℕ)
      → NotIn k (slots_of b front)
      → 0 < (p.slot k).refcnt
      → NotIn k (slots_of longer (slots_of b front)) × (h₃ k ≡ p.slot k)
  spared-extended k out used =
      let w = b.wslot in
      let ne_j : k ≢ j = λ e. let r : 0 < (p.slot j).refcnt = rw (← e) used in omega arith in
      let (ne_w, _) = NotIn-right k front (w ∷ []) out in
      (
        NotIn-append k (slots_of b front) (j ∷ []) out (ne_j, tt),
        update_ne h₂ j newest k (λ e. ne_j (sym e))
            ∙ update_ne h₁ w (record (h₁ w) { next = j }) k (λ e. ne_w (sym e))
            ∙ update_ne p.slot j (fresh_slot (p.slot j)) k (λ e. ne_j (sym e)),
      )

  pub Wrote-extended :
      (p.slot b.wslot).length ≡ slot_size
      → b.length + 1 < 65536
      → IsPool p
      → Wrote p b front (c ∷ []) longer extended
  unfolding room
  Wrote-extended full short inv =
      let is = slots_of b front in
      let w = b.wslot in
      let (pool, less) = free-extended inv in
      let (len, _, _, _) = newest_parts in
      let now : (h₃ j).length ≡ 1 = ap (λ (s : Slot). s.length) (update_self h₂ j newest) ∙ len in
      let counted = v.counted in
      record {
        front' = is;
        buffer = record {
          links = Links-extended;
          distinct = Distinct-append is (j ∷ []) v.distinct (tt, tt) (NotIn-Apart is j out_of);
          in_use = InUse-extended;
          counted =
              omega
                (arith, ap length contents-extended, length-append (contents p.slot is) (c ∷ []));
          full = Full-extended full;
          last_used = inr (omega (arith, now));
        };
        pool = pool;
        stored = contents-extended;
        left = omega arith;
        head = refl;
        spared = λ k out used. spared-extended k out used;
      }
