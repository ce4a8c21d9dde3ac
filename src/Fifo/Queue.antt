-- ===== src/Fifo/Queue.antt =====
-- The ring is a bounded queue.
use arctic_tracker_teensy.Base.{
  ℕ, suc, ◌+◌, ◌%◌, ◌≤◌, ◌<◌, ◌≡◌, refl, ap, ap₂, ◌∙◌, true, false, List, [], ◌∷◌, ◌++◌, arith, leb,
  ne→==, if◌then◌else◌,
}
use arctic_tracker_teensy.Run.{update}
use arctic_tracker_teensy.Fbuf.Chain.{update_self}
use arctic_tracker_teensy.Ring.{behind, behind-snoc, behind-update, behind-uncons}
use arctic_tracker_teensy.Fifo.{Fifo, push, pop}
use native.Mathlib.Decide.{dec_lt}
use native.Mathlib.Nat.{mod-lt}

-- The bytes in the queue, oldest first.
abbrev pub queued : Fifo → List ℕ
queued f = behind f.len f.pos f.size f.buffer

pub record IsFifo (f : Fifo) : Type 0 where
  pub some_room : 0 < f.size
  pub small : f.size ≤ 128
  pub fits : f.len ≤ f.size
  pub inside : f.pos < f.size

-- fifo_push puts the byte behind the others, and does nothing when the queue is full.
pub push-queued :
    (x : ℕ) (f : Fifo)
    → IsFifo f
    → IsFifo (push x f)
      × (queued (push x f) ≡ (if leb f.size f.len then queued f else queued f ++ (x ∷ [])))
unfolding push
push-queued x f v = elim (dec_lt f.len f.size) [
  | no ge ↦ let full : leb f.size f.len ≡ true = ground arith in rw full (v, refl)
  | yes lt ↦
      let room : leb f.size f.len ≡ false = ground arith in
      let some = v.some_room in
      let grow : f.len + 1 ≡ suc f.len = omega arith in
      let at = (f.pos + (f.len + 1)) % f.size in
      rw room (
        record { some_room = some; small = v.small; fits = omega arith; inside = v.inside },
        ap (λ n. behind n f.pos f.size (update f.buffer at x)) grow
            ∙ behind-snoc f.len f.pos f.size (update f.buffer at x)
            ∙ ap₂ (λ (xs : List ℕ) (y : ℕ). xs ++ (y ∷ []))
                (behind-update f.len f.pos f.size 1 x f.buffer (omega arith) (omega arith))
                (update_self f.buffer at x),
      )
]

-- fifo_pop takes the oldest byte out of the queue.
pub pop-queued :
    (f : Fifo) (x : ℕ) (xs : List ℕ)
    → IsFifo f
    → queued f ≡ x ∷ xs
    → IsFifo (pop f).1 × (((pop f).0 ≡ x) × (queued (pop f).1 ≡ xs))
unfolding pop
pop-queued f x xs v e =
    let (used, (same, rest)) = behind-uncons f.len f.pos f.size f.buffer x xs e in
    let some = v.some_room in
    let fits = v.fits in
    let inside : (f.pos + 1) % f.size < f.size = mod-lt (f.pos + 1) some in
    rw (ne→== f.len 0 (omega arith)) (
      record { some_room = some; small = v.small; fits = omega arith; inside = inside },
      (same, rest),
    )
