-- ===== src/Fbuf/Seek.antt =====
-- fbuf_rseek: where it leads to, on a chain whose slots but the last are full.
use arctic_tracker_teensy.Base.{
  ℕ, ◌%◌, ◌<◌, ◌≡◌, ◌≢◌, ◌⊎◌, List, [], ◌∷◌, arith, length, length-append, drop, ge→ltb,
}
use arctic_tracker_teensy.Run.{Slot, Pool, slots, slot_size, nil, fault, get_slot}
use arctic_tracker_teensy.Run.Returns
use arctic_tracker_teensy.Run.Returns.{Returns, returns}
use arctic_tracker_teensy.Fbuf.{Fbuf, fuel, rseek, get_char}
use arctic_tracker_teensy.Fbuf.Chain.{Links}
use arctic_tracker_teensy.Fbuf.Count.{Below, length_of_Distinct}
use arctic_tracker_teensy.Fbuf.Buffer.{slots_of, all_bytes, IsBuffer}
use arctic_tracker_teensy.Fbuf.Read.{ToRead}
use arctic_tracker_teensy.Fbuf.Print.{IsBuffer-Filled}
use arctic_tracker_teensy.Fbuf.Search.{Sought, rseek_loop-Sought}

pub Links-Below : (h : ℕ → Slot) (is : List ℕ) (i j : ℕ) → Links h i is j → Below slots is
Links-Below h [] i j l = tt
Links-Below h (k ∷ ks) i j l = (l.1, Links-Below h ks (h k).next j l.2)

module _ (p : Pool) (b : Fbuf) (front : List ℕ) (v : IsBuffer p.slot b front) where
  -- A chain has no more slots than the pool, so the fuel is enough.
  pub slots-le : length front < slots
  slots-le = omega (
    arith,
    length_of_Distinct slots (slots_of b front)
        (Links-Below p.slot (slots_of b front) b.head nil v.links) v.distinct,
    length-append front (b.wslot ∷ []),
  )

  rseek-Sought :
      (pos : ℕ)
      → pos < b.length
      → Returns
          (λ b' q. (q ≡ p) × Sought p.slot pos (all_bytes p.slot b front) (b'.rslot, b'.rpos))
          (rseek b pos p)
  unfolding rseek
  rseek-Sought pos lt =
      let counted = v.counted in
      let enough = slots-le in
      rw (ge→ltb b.length pos (omega arith)) (
        Returns.chain
          (rseek_loop-Sought p fuel front b.wslot b.head pos v.links
            (IsBuffer-Filled p.slot b front v (omega arith)) v.full (omega arith) (omega arith))
          λ (r, i) q s. returns s)

  -- fbuf_rseek to a position inside the chain that is no multiple of the slot size, or to the
  -- start, leaves exactly the bytes from that position on to be read.
  pub rseek-ToRead :
      (pos : ℕ)
      → pos < b.length
      → (pos % slot_size ≢ 0) ⊎ (pos ≡ 0)
      → Returns
          (λ b' q. (q ≡ p) × ToRead p.slot b' (drop pos (all_bytes p.slot b front)))
          (rseek b pos p)
  rseek-ToRead pos lt off = Returns.weaken (rseek-Sought pos lt) λ b' q (same, s).
      let (is, l, f, r) = s.found off in
      (same, record { slots_left = is; links = l; filled = f; rest = r })

  -- fbuf_rseek to a later multiple of the slot size stops behind the end of a slot, where the
  -- next fbuf_getChar reads outside the slot's bytes.
  pub rseek_boundary :
      (pos : ℕ)
      → pos < b.length
      → 0 < pos
      → pos % slot_size ≡ 0
      → Returns (λ b' q. get_char b' q ≡ fault) (rseek b pos p)
  unfolding get_char get_slot
  rseek_boundary pos lt pos_used on =
      Returns.weaken (rseek-Sought pos lt) λ b' q (same, s).
        let inside = s.inside in let at_end = s.boundary on pos_used in ground arith
