-- ===== src/Fbuf/Splice.antt =====
-- fbuf_connect: the chain that it makes.
use arctic_tracker_teensy.Base.{
  ℕ, suc, ◌+◌, ◌*◌, ◌≤◌, ◌<◌, ◌≡◌, ◌≢◌, refl, sym, ap, ap₂, ◌∙◌, List, [], ◌∷◌, ◌++◌, append_assoc,
  arith, length, length-append, drop, drop-append_length, lt→ltb,
}
use arctic_tracker_teensy.Run.{
  Slot, Pool, slots, slot_size, nil, pure, ◌>>=◌, ◌>>◌, update, get_slot, put_slot,
}
use arctic_tracker_teensy.Run.Returns
use arctic_tracker_teensy.Run.Returns.{Returns, returns}
use arctic_tracker_teensy.Fbuf.{Fbuf, fuel, set_next}
use arctic_tracker_teensy.Fbuf.Chain.{
  bytes, contents, contents-append, length-bytes, Links, Links-append, Links-split, Links-update,
  NotIn, InUse, NotIn-of_free, NotIn-append, NotIn-left, NotIn-right, Full, update_self, update_ne,
}
use arctic_tracker_teensy.Fbuf.Count.{free_count}
use arctic_tracker_teensy.Fbuf.Join.{refer_rest, connect}
use arctic_tracker_teensy.Fbuf.Split.{Divided, split-Divided}
use arctic_tracker_teensy.Fbuf.Walk.{
  find_last-eq-ok, find_slot-eq-ok, SameBytes, SameLinks, contents_same, Links_same, next_SameBytes,
  refer_rest-Same, contents_spared, Links_spared, length-Full,
}

-- A chain `bs`, `w` and a chain `is`, `i`, `cs`, of which the position lies `r` bytes into slot `i`
-- behind full slots.
module _ (p : Pool) (b x : Fbuf) (bs is cs : List ℕ) (w i r : ℕ) where
  pub record Joinable : Type 0 where
    pub head_chain : Links p.slot b.head (bs ++ (w ∷ [])) nil
    pub tail_chain : Links p.slot x.head (is ++ (i ∷ cs)) nil
    pub full : Full p.slot is
    pub some_bytes : 0 < r
    pub in_slot : r < slot_size
    pub in_length : r ≤ (p.slot i).length
    pub used : 0 < (p.slot i).refcnt
    pub b_used : InUse p.slot (bs ++ (w ∷ []))
    pub cs_used : InUse p.slot cs
    pub alone : NotIn w bs
    pub w_out : (w ≢ i) × NotIn w cs
    pub i_out : NotIn i bs × NotIn i cs
    pub room : 0 < free_count slots p.slot
    pub short : slot_size * length is + r < 65536
    pub few : (length bs < fuel) × ((length is < fuel) × (suc (length cs) < fuel))

  -- The new chain: all of `b`, then the bytes of `x` from the position on.
  pub record Joined (out : Fbuf × Fbuf) (q : Pool) : Type 0 where
    pub slot : ℕ
    pub same_head : out.0.head ≡ b.head
    pub links : Links q.slot b.head (bs ++ (w ∷ slot ∷ cs)) nil
    pub joined :
        contents q.slot (bs ++ (w ∷ slot ∷ cs))
        ≡ contents p.slot (bs ++ (w ∷ []))
          ++ drop (slot_size * length is + r) (contents p.slot (is ++ (i ∷ cs)))

  module _ (v : Joinable) where
    -- The bytes behind the position are those of the new slot and of the slots behind it.
    rest_bytes :
        (j : ℕ) (q : Pool)
        → Divided p i r j q
        → NotIn j cs
        → drop (slot_size * length is + r) (contents p.slot (is ++ (i ∷ cs)))
          ≡ contents q.slot (j ∷ cs)
    unfolding contents
    rest_bytes j q d out =
        let first = bytes (q.slot i).buf 0 (q.slot i).length in
        let second = bytes (q.slot j).buf 0 (q.slot j).length in
        let front = contents p.slot is in
        let tail = contents p.slot cs in
        let all : contents p.slot (is ++ (i ∷ cs)) ≡ (front ++ first) ++ (second ++ tail) =
          contents-append p.slot is (i ∷ cs)
          ∙ ap (λ ys. front ++ (ys ++ tail)) (sym d.same_bytes)
          ∙ ap (λ ys. front ++ ys) (append_assoc first second tail)
          ∙ sym (append_assoc front first (second ++ tail)) in
        let count : slot_size * length is + r ≡ length (front ++ first) + 0 = omega (
          arith,
          length-append front first,
          length-Full p.slot is v.full,
          length-bytes (q.slot i).buf 0 (q.slot i).length,
          d.first_length,
        ) in
        rw (all, count)
          (drop-append_length 0 (front ++ first) (second ++ tail)
            ∙ ap (λ ys. second ++ ys) (sym (contents_spared d cs (v.i_out).1 out)))

    -- The chain once the last slot of `b` is linked to the new slot.
    link_chain :
        (j : ℕ) (q : Pool)
        → Divided p i r j q
        → Links (update q.slot w (record (q.slot w) { next = j })) b.head (bs ++ (w ∷ j ∷ cs)) nil
    link_chain j q d =
        let h = update q.slot w (record (q.slot w) { next = j }) in
        let j_bs = NotIn-of_free p.slot (bs ++ (w ∷ [])) j d.was_free v.b_used in
        let j_cs = NotIn-of_free p.slot cs j d.was_free v.cs_used in
        let (y, before, at_w) = Links-split p.slot bs (w ∷ []) b.head nil v.head_chain in
        let (z, _, at_i) = Links-split p.slot is (i ∷ cs) x.head nil v.tail_chain in
        let w_not_j : w ≢ j = λ e. (NotIn-right j bs (w ∷ []) j_bs).0 (sym e) in
        let front_q =
          Links_spared d bs b.head y (v.i_out).0 (NotIn-left j bs (w ∷ []) j_bs) before in
        let front_h = Links-update q.slot w _ bs b.head y v.alone front_q in
        let w_next : (h w).next ≡ j =
          rw (update_self q.slot w (record (q.slot w) { next = j })) refl in
        let rest_q = Links_spared d cs (p.slot i).next nil (v.i_out).1 j_cs at_i.2 in
        let rest_h = Links-update q.slot w _ cs (p.slot i).next nil (v.w_out).1 rest_q in
        let j_next : (h j).next ≡ (p.slot i).next =
          ap (λ (s : Slot). s.next) (update_ne q.slot w (record (q.slot w) { next = j }) j w_not_j)
          ∙ d.goes_on in
        let tail_h : Links h y (w ∷ j ∷ cs) nil =
          (at_w.0, at_w.1, (w_next, d.inside, rw j_next rest_h)) in
        Links-append h bs (w ∷ j ∷ cs) b.head y nil front_h tail_h

    -- What then keeps links and bytes keeps the chain.
    after_link :
        (out : Fbuf × Fbuf) (j : ℕ) (q q' : Pool)
        → out.0.head ≡ b.head
        → Divided p i r j q
        → SameBytes (update q.slot w (record (q.slot w) { next = j })) q'.slot
        → SameLinks (update q.slot w (record (q.slot w) { next = j })) q'.slot
        → Joined out q'
    after_link out j q q' same_head d same_bytes same_links =
        let h = update q.slot w (record (q.slot w) { next = j }) in
        let j_bs = NotIn-of_free p.slot (bs ++ (w ∷ [])) j d.was_free v.b_used in
        let j_cs = NotIn-of_free p.slot cs j d.was_free v.cs_used in
        let i_out = NotIn-append i bs (w ∷ []) (v.i_out).0 ((λ e. (v.w_out).0 (sym e)), tt) in
        record {
          slot = j;
          same_head = same_head;
          links =
              Links_same h q'.slot (bs ++ (w ∷ j ∷ cs)) b.head nil same_links (link_chain j q d);
          joined =
              contents_same h q'.slot (bs ++ (w ∷ j ∷ cs)) same_bytes
              ∙ contents_same q.slot h (bs ++ (w ∷ j ∷ cs)) (next_SameBytes q.slot w j)
              ∙ ap (contents q.slot) (sym (append_assoc bs (w ∷ []) (j ∷ cs)))
              ∙ contents-append q.slot (bs ++ (w ∷ [])) (j ∷ cs)
              ∙ ap₂ ◌++◌ (contents_spared d (bs ++ (w ∷ [])) i_out j_bs)
                  (sym (rest_bytes j q d j_cs));
        }

    -- The link is set and the references are counted.
    linked :
        (out : Fbuf × Fbuf) (j : ℕ) (q : Pool)
        → out.0.head ≡ b.head
        → Divided p i r j q
        → Returns Joined ((set_next w j >> (refer_rest fuel w >>= λ _. pure out)) q)
    unfolding set_next get_slot put_slot
    linked out j q same_head d =
        let h = update q.slot w (record (q.slot w) { next = j }) in
        let q₂ : Pool = record q { slot = h } in
        let (y, _, at_w) = Links-split p.slot bs (w ∷ []) b.head nil v.head_chain in
        let (z, _, l) = Links-split h bs (w ∷ j ∷ cs) b.head nil (link_chain j q d) in
        let chain : Links h w (w ∷ j ∷ cs) nil = (refl, at_w.1, l.2) in
        rw (lt→ltb w slots at_w.1) (
          rw (lt→ltb w slots at_w.1) (
            Returns.chain (refer_rest-Same fuel q₂ (j ∷ cs) w chain (v.few).1.1)
              λ _ q' (same_bytes, same_links).
                returns (after_link out j q q' same_head d same_bytes same_links)))

    -- For a chain that ends at slot `w` and a chain with slot `i` behind full ones, slots in use and
    -- not more than the pool has, where neither `w` nor `i` comes a second time in what is joined:
    -- with a position below 2 ^ 16, 1 to 31 bytes into slot `i` and within its length, and with a free
    -- slot left, fbuf_connect ends, and leaves a chain of all bytes of the first and then those of the
    -- second from the position on.
    pub connect-Joined : Returns Joined (connect b x (slot_size * length is + r) p)
    unfolding connect
    connect-Joined =
        let (y, before, (e, lt, after)) = Links-split p.slot is (i ∷ cs) x.head nil v.tail_chain in
        let up_to : Links p.slot x.head (is ++ (i ∷ [])) (p.slot i).next =
          Links-append p.slot is (i ∷ []) x.head y (p.slot i).next before (e, lt, refl) in
        let found =
          find_slot-eq-ok fuel p is i r x.head up_to v.full v.some_bytes v.in_slot v.short
            (v.few).1.0 in
        let last = find_last-eq-ok fuel p bs w b.head v.head_chain (v.few).0 in
        rw (found, last)
          (Returns.chain (split-Divided p i r lt v.used v.some_bytes v.in_length v.room)
            λ j q d. linked _ j q refl d)
