-- ===== src/Fbuf/Fill.antt =====
-- fbuf_putChar where the last slot has room.
use arctic_tracker_teensy.Base.{
  inr, ℕ, suc, ◌+◌, ◌%◌, ◌<◌, ◌≡◌, refl, sym, ap, List, [], ◌∷◌, ◌++◌, append_assoc, arith, length,
  length-append,
}
use arctic_tracker_teensy.Run.{Slot, Pool, slots, slot_size, nil, ok, update, get_slot, put_slot}
use arctic_tracker_teensy.Fbuf.{Fbuf, store_char, put_at, put_char}
use arctic_tracker_teensy.Fbuf.Chain.{
  contents, Links-append, Links-update, InUse-update, update_self, update_ne, bytes-suc-update,
  contents-snoc, Full-update, contents-snoc_update, NotIn-right,
}
use arctic_tracker_teensy.Fbuf.Count.{IsPool, free_count-update, is_free}
use arctic_tracker_teensy.Fbuf.Buffer.{slots_of, IsBuffer, room, Wrote, LastSlot, IsBuffer-LastSlot}

-- The last slot with one more byte.
abbrev pub filled : Slot → ℕ → Slot
filled s c = record s { buf = update s.buf s.length c; length = (s.length + 1) % 256 }

abbrev pub with_slot : Pool → ℕ → Slot → Pool
with_slot p i s = record p { slot = update p.slot i s }

abbrev pub grown : Fbuf → Fbuf
grown b = record b { length = (b.length + 1) % 65536 }

module _ (p : Pool) (b : Fbuf) (front : List ℕ) (c : ℕ) (v : IsBuffer p.slot b front) where
  abbrev pub last : Slot
  last = p.slot b.wslot

  last_of : LastSlot p.slot b front
  last_of = IsBuffer-LastSlot p.slot b front v

  pub put_char-room :
      last.length < slot_size → put_char b c p ≡ ok (grown b) (with_slot p b.wslot (filled last c))
  unfolding put_char put_at store_char get_slot put_slot
  put_char-room lt =
      let open_last = last_of in
      let inside = open_last.inside in let head_inside = open_last.head_inside in ground arith

  contents-filled :
      last.length < slot_size
      → contents (update p.slot b.wslot (filled last c)) (slots_of b front)
        ≡ contents p.slot (slots_of b front) ++ (c ∷ [])
  contents-filled lt =
      let e : (last.length + 1) % 256 ≡ suc last.length = omega arith in
      let alone = (last_of).alone in
      rw (
        contents-snoc_update p.slot front b.wslot (filled last c) alone,
        contents-snoc p.slot front b.wslot,
        append_assoc,
        e,
        bytes-suc-update last.buf 0 last.length last.length c (omega arith),
      )

  pub Wrote-room :
      last.length < slot_size
      → b.length + 1 < 65536
      → IsPool p
      → Wrote p b front (c ∷ []) (grown b) (with_slot p b.wslot (filled last c))
  unfolding room
  Wrote-room lt short inv =
      let l = last_of in
      let w = b.wslot in
      let s = filled last c in
      let h' = update p.slot w s in
      let used = l.used in
      let counted = v.counted in
      let same = free_count-update slots p.slot w s l.inside in
      let old : is_free last ≡ 0 = ground arith in
      record {
        front' = front;
        buffer = record {
          links =
              Links-append h' front (w ∷ []) b.head w nil
                (Links-update p.slot w s front b.head w l.alone l.before)
                (refl, l.inside, rw (update_self p.slot w s) l.ends);
          distinct = v.distinct;
          in_use = InUse-update p.slot w s (slots_of b front) l.used (omega arith) v.in_use;
          counted = omega (
            arith,
            ap length (contents-filled lt),
            length-append (contents p.slot (slots_of b front)) (c ∷ []),
          );
          full = Full-update p.slot w s front l.alone v.full;
          last_used = inr (rw (update_self p.slot w s) (omega arith));
        };
        pool = record { counted = omega (arith, inv.counted) };
        stored = contents-filled lt;
        left = rw (update_self p.slot w s) (omega arith);
        head = refl;
        spared = λ k out _. (
          out,
          update_ne p.slot w s k
              (λ e. let (ne, _) = NotIn-right k front (w ∷ []) out in ne (sym e)),
        );
      }
