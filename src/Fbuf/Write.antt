-- ===== src/Fbuf/Write.antt =====
-- fbuf_new, fbuf_putChar, fbuf_write and fbuf_putstr: the bytes written are appended as long as
-- there is room, and nothing happens where there is none.
use arctic_tracker_teensy.Base.{
  ℕ, ◌+◌, ◌*◌, ◌≤◌, ◌<◌, ◌≡◌, ◌≢◌, refl, sym, ap, ◌∙◌, inl, inr, false, List, [], ◌∷◌, ◌++◌,
  append_assoc, append-nil, arith, length, length-append, ◌==◌, Bool-cases, if◌then◌else◌,
}
use arctic_tracker_teensy.Run.{◌>>=◌, Pool, slots, slot_size, ok, Cmd, get_slot}
use arctic_tracker_teensy.Run.Returns
use arctic_tracker_teensy.Run.Returns.{Returns, returns}
use arctic_tracker_teensy.Fbuf.{Fbuf, fresh_slot, new, put_in_new, put_at, put_char, write, put_str}
use arctic_tracker_teensy.Fbuf.Chain.{contents, NotIn, update_self, update_ne, bytes}
use arctic_tracker_teensy.Fbuf.Count.{IsPool, free_count}
use arctic_tracker_teensy.Fbuf.Alloc.{new_slot-Allocates, new_slot-eq-nil, taken-IsPool}
use arctic_tracker_teensy.Fbuf.Buffer.{slots_of, IsBuffer, room, Wrote, IsBuffer-LastSlot}
use arctic_tracker_teensy.Fbuf.Fill.{put_char-room, Wrote-room}
use arctic_tracker_teensy.Fbuf.Extend.{put_char-extended, Wrote-extended}
use native.Mathlib.Decide.{dec_lt}
use mathlib.Core.Path.{fun_ext}

-- The result of fbuf_new: an empty chain of one slot that was free.
pub record IsNew (p : Pool) (b : Fbuf) (q : Pool) : Type 0 where
  pub buffer : IsBuffer q.slot b []
  pub pool : IsPool q
  pub empty : contents q.slot (slots_of b []) ≡ []
  pub left : room q b ≡ slot_size * free_count slots p.slot
  pub at_start : (b.rslot ≡ b.head) × (b.rpos ≡ 0)
  pub spared : (k : ℕ) → 0 < (p.slot k).refcnt → NotIn k (slots_of b []) × (q.slot k ≡ p.slot k)

pub new-IsNew : (p : Pool) → IsPool p → 0 < free_count slots p.slot → Returns (IsNew p) (new p)
unfolding new room contents bytes
new-IsNew p inv some_left =
    let (j, e, lt, free) = new_slot-Allocates p some_left in
    let (pool, less) = taken-IsPool p j lt free inv in
    let self = update_self p.slot j (fresh_slot (p.slot j)) in
    rw e (
      returns (record {
        buffer = record {
          links = (refl, lt, rw self refl);
          distinct = (tt, tt);
          in_use = (rw self (omega arith), rw self (omega arith), tt);
          counted = rw self refl;
          full = tt;
          last_used = inl refl;
        };
        pool = pool;
        empty = rw self refl;
        left = rw self (omega arith);
        at_start = (refl, refl);
        spared = λ k used.
            let ne : k ≢ j = λ e. let r : 0 < (p.slot j).refcnt = rw (← e) used in omega arith in
            ((ne, tt), update_ne p.slot j (fresh_slot (p.slot j)) k (λ e. ne (sym e)));
      }))

module _ {p : Pool} {b : Fbuf} {front : List ℕ} where
  pub put_char-append :
      (c : ℕ)
      → IsBuffer p.slot b front
      → IsPool p
      → 0 < room p b
      → b.length + 1 < 65536
      → Returns (Wrote p b front (c ∷ [])) (put_char b c p)
  unfolding room
  put_char-append c v inv some_room short = elim (dec_lt (p.slot b.wslot).length slot_size) [
    | yes lt ↦ rw (put_char-room p b front c v lt) (returns (Wrote-room p b front c v lt short inv))
    | no ge ↦
        let l = IsBuffer-LastSlot p.slot b front v in
        let fits = l.fits in
        let full : (p.slot b.wslot).length ≡ slot_size = omega arith in
        let (j, e, lt, free) = new_slot-Allocates p (omega arith) in
        rw (put_char-extended p b front c j v lt free full e)
          (returns (Wrote-extended p b front c j v lt free full short inv))
  ]

  -- With the last slot full, no free slot and no handler, fbuf_putChar changes nothing.
  pub put_char-full :
      (c : ℕ)
      → IsBuffer p.slot b front
      → room p b ≡ 0
      → p.has_handler ≡ false
      → put_char b c p ≡ ok b p
  unfolding room put_char put_at put_in_new get_slot
  put_char-full c v none_left quiet =
      let l = IsBuffer-LastSlot p.slot b front v in
      let fits = l.fits in
      let inside = l.inside in
      let head_inside = l.head_inside in let e = new_slot-eq-nil p (omega arith) in ground arith

  pub Wrote-trans :
      {b' b'' : Fbuf} {p' p'' : Pool} (cs ds : List ℕ)
      → (w : Wrote p b front cs b' p') → Wrote p' b' w.front' ds b'' p''
      → Wrote p b front (cs ++ ds) b'' p''
  Wrote-trans cs ds w x = record {
    front' = x.front';
    buffer = x.buffer;
    pool = x.pool;
    stored = x.stored ∙ ap (λ ys. ys ++ ds) w.stored ∙ append_assoc _ cs ds;
    left = omega (arith, w.left, x.left, length-append cs ds);
    head = x.head ∙ w.head;
    spared = λ k out used.
        let (out', same) = w.spared k out used in
        let (out'', same') = x.spared k out' (rw same used) in (out'', same' ∙ same);
  }

-- The length field counts what is appended.
length-Wrote :
    {p p' : Pool} {b b' : Fbuf} {front : List ℕ} (cs : List ℕ)
    → IsBuffer p.slot b front
    → (w : Wrote p b front cs b' p') → b'.length ≡ b.length + length cs
length-Wrote {p} {b} {front} cs v w =
    let counted = v.counted in
    let counted' = (w.buffer).counted in
    omega (arith, ap length w.stored, length-append (contents p.slot (slots_of b front)) cs)

-- Nothing written.
Wrote-nil :
    {p : Pool} {b : Fbuf} {front : List ℕ}
    → IsBuffer p.slot b front
    → IsPool p
    → Wrote p b front [] b p
Wrote-nil {front} v inv = record {
  front' = front;
  buffer = v;
  pool = inv;
  stored = sym (append-nil _);
  left = omega arith;
  head = refl;
  spared = λ k out _. (out, refl);
}

-- fbuf_write stores all its bytes if they fit into the last slot and the free ones and the length
-- stays a 16-bit number: the chain then holds what it held and the bytes behind it, its length
-- counts them, the room shrinks by their number, and the slots of other chains are untouched.
pub write-append :
    {p : Pool} {b : Fbuf} {front : List ℕ} (cs : List ℕ)
    → IsBuffer p.slot b front
    → IsPool p
    → length cs ≤ room p b
    → b.length + length cs < 65536
    → Returns (Wrote p b front cs) (write b cs p)
unfolding write
write-append [] v inv fits short = returns (Wrote-nil v inv)
write-append (c ∷ cs) v inv fits short =
    Returns.chain (put_char-append c v inv (omega arith) (omega arith)) λ b' q w.
      let left = w.left in
      Returns.weaken
        (write-append cs w.buffer w.pool (omega arith) (omega (arith, length-Wrote (c ∷ []) v w)))
        λ b'' q' x. Wrote-trans (c ∷ []) cs w x

-- The bytes of a C string: those before the first NUL.
unfoldable pub until_nul : List ℕ → List ℕ
until_nul [] = []
until_nul (c ∷ cs) = let rest = until_nul cs in if c == 0 then [] else c ∷ rest

-- fbuf_putstr is fbuf_write of the bytes before the first NUL.
pub put_str-write : (b : Fbuf) (cs : List ℕ) → put_str b cs ≡ write b (until_nul cs)
unfolding put_str write until_nul
put_str-write b [] = refl
put_str-write b (c ∷ cs) = elim (Bool-cases (c == 0)) [
  | inl e ↦ rw e refl
  | inr e ↦
      rw e (ap (λ (k : Fbuf → Cmd Fbuf). put_char b c >>= k) (fun_ext λ b'. put_str-write b' cs))
]
