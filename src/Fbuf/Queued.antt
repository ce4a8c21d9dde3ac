-- ===== src/Fbuf/Queued.antt =====
-- The queue of buffer chains is a bounded list.
use arctic_tracker_teensy.Base.{
  ℕ, suc, ◌+◌, ◌-◌, ◌%◌, ◌≤◌, ◌<◌, ◌≡◌, refl, ap, ap₂, ◌∙◌, true, false, List, [], ◌∷◌, ◌++◌, arith,
  leb, eq→==, ne→==, if◌then◌else◌,
}
use arctic_tracker_teensy.Run.{Pool, ok, stuck, update}
use arctic_tracker_teensy.Ring.{behind, behind-snoc, behind-update, behind-uncons, behind-nil}
use arctic_tracker_teensy.Fbuf.{Fbuf}
use arctic_tracker_teensy.Fbuf.Chain.{update_self}
use arctic_tracker_teensy.Fbuf.Queue.{Fbq, put, get, init, enqueue, dequeue}
use native.Mathlib.Decide.{dec_lt}
use native.Mathlib.Nat.{mod-lt, mod-eq_of_lt}

-- The chains in the queue, oldest first.
abbrev pub queued : Fbq → List Fbuf
queued q = behind q.cnt q.index q.size q.buf

pub record IsFbq (q : Fbq) : Type 0 where
  pub some_room : 0 < q.size
  pub small : q.size < 256
  pub fits : q.cnt ≤ q.size
  pub inside : q.index < q.size
  pub waiting : q.length ≡ q.cnt
  pub left : q.capacity + q.cnt ≡ q.size

-- _fbq_init makes an empty queue, of a size of 1 to 255.
pub init-queued :
    (buf : ℕ → Fbuf) (sz : ℕ)
    → 0 < sz
    → sz < 256
    → IsFbq (init buf sz) × (queued (init buf sz) ≡ [])
unfolding init behind
init-queued buf sz some small =
    let e : sz % 256 ≡ sz = mod-eq_of_lt small in
    (
      record {
        some_room = rw e some;
        small = rw e small;
        fits = omega arith;
        inside = rw e some;
        waiting = refl;
        left = omega (arith, e);
      },
      refl,
    )

module _ (q : Fbq) (v : IsFbq q) where
  enqueue-queued :
      (b : Fbuf)
      → q.cnt < q.size
      → IsFbq (enqueue q b) × (queued (enqueue q b) ≡ queued q ++ (b ∷ []))
  unfolding enqueue
  enqueue-queued b lt =
      let some = v.some_room in
      let small = v.small in
      let waiting = v.waiting in
      let left = v.left in
      let same : (q.cnt + 1) % 256 ≡ suc q.cnt = omega arith in
      let at = (q.index + (q.cnt + 1)) % q.size in
      let less : (q.index + suc q.cnt) % q.size < q.size = mod-lt _ some in
      let byte : ((q.index + suc q.cnt) % q.size) % 256 ≡ at =
        mod-eq_of_lt (omega arith) ∙ ap (λ n. (q.index + n) % q.size) (omega arith) in
      rw (same, byte)
        (
          record {
            some_room = some;
            small = small;
            fits = omega arith;
            inside = v.inside;
            waiting = omega arith;
            left = omega arith;
          },
          behind-snoc q.cnt q.index q.size (update q.buf at b)
              ∙ ap₂ (λ (xs : List Fbuf) (y : Fbuf). xs ++ (y ∷ []))
                  (behind-update q.cnt q.index q.size 1 b q.buf (omega arith) (omega arith))
                  (update_self q.buf at b),
        )

  -- fbq_put puts the chain behind the others, and the pool stays as it is. Where the queue is full
  -- it waits.
  pub put-queued :
      (b : Fbuf) (p : Pool)
      → (put q b p ≡ (if leb q.size q.cnt then stuck else ok (enqueue q b) p))
        × (q.cnt < q.size → IsFbq (enqueue q b) × (queued (enqueue q b) ≡ queued q ++ (b ∷ [])))
  unfolding put
  put-queued b p =
      let left = v.left in
      let fits = v.fits in
      (
        elim (dec_lt q.cnt q.size) [
          | yes lt ↦
              let room : leb q.size q.cnt ≡ false = ground arith in
              rw (room, ne→== q.capacity 0 (λ e. omega arith)) refl
          | no ge ↦
              let full : leb q.size q.cnt ≡ true = ground arith in
              rw (full, eq→== q.capacity 0 (omega arith)) refl
        ],
        enqueue-queued b,
      )

  -- fbq_get takes the oldest chain out of the queue, and the pool stays as it is.
  pub get-queued :
      (b : Fbuf) (bs : List Fbuf) (p : Pool)
      → queued q ≡ b ∷ bs
      → (get q p ≡ ok (b, (dequeue q).1) p) × (IsFbq (dequeue q).1 × (queued (dequeue q).1 ≡ bs))
  unfolding get dequeue
  get-queued b bs p e =
      let (used, (same, rest)) = behind-uncons q.cnt q.index q.size q.buf b bs e in
      let some = v.some_room in
      let small = v.small in
      let fits = v.fits in
      let waiting = v.waiting in
      let left = v.left in
      let less : (q.index + 1) % q.size < q.size = mod-lt _ some in
      let byte : ((q.index + 1) % q.size) % 256 ≡ (q.index + 1) % q.size =
        mod-eq_of_lt (omega arith) in
      let fewer : (q.cnt + 255) % 256 ≡ q.cnt - 1 = omega arith in
      rw (byte, fewer, same, ne→== q.length 0 (λ z. omega arith))
        (
          refl,
          (
            record {
              some_room = some;
              small = small;
              fits = omega arith;
              inside = less;
              waiting = omega arith;
              left = omega arith;
            },
            rest,
          ),
        )

-- fbq_get waits where the queue is empty.
pub get-empty : (q : Fbq) (p : Pool) → IsFbq q → queued q ≡ [] → get q p ≡ stuck
unfolding get
get-empty q p v e =
    let none = behind-nil q.cnt q.index q.size q.buf e in
    let waiting = v.waiting in rw (eq→== q.length 0 (omega arith)) refl
