-- ===== src/Fbuf/Queue.antt =====
-- FBQ of fbuf.h and fbuf.c: a queue of buffer chains in an array, with two counting semaphores.
-- A call that would wait at a semaphore is stuck: another thread has to act first.
use arctic_tracker_teensy.Base.{ℕ, zero, suc, ◌+◌, ◌-◌, ◌%◌, Bool, leb, ◌==◌, if◌then◌else◌}
use arctic_tracker_teensy.Run.{stuck, Cmd, pure, ◌>>=◌, update}
use arctic_tracker_teensy.Fbuf.{Fbuf, new, release}

-- `FBQ`: `length` and `capacity` are the counters of the semaphores.
pub record Fbq : Type 0 where
  pub size : ℕ
  pub index : ℕ
  pub cnt : ℕ
  pub length : ℕ
  pub capacity : ℕ
  pub buf : ℕ → Fbuf

-- _fbq_init
unfoldable pub init : (ℕ → Fbuf) → ℕ → Fbq
init buf sz = record { size = sz % 256; index = 0; cnt = 0; length = 0; capacity = sz; buf = buf }

-- fbq_eof and fbq_full
unfoldable pub eof : Fbq → Bool
eof q = leb q.size q.capacity

unfoldable pub full : Fbq → Bool
full q = q.capacity == 0

-- The part of fbq_put behind the wait.
unfoldable pub enqueue : Fbq → Fbuf → Fbq
enqueue q b =
    let cnt = (q.cnt + 1) % 256 in
    record q {
      cnt = cnt;
      length = q.length + 1;
      capacity = q.capacity - 1;
      buf = update q.buf (((q.index + cnt) % q.size) % 256) b;
    }

-- fbq_put
unfoldable pub put : Fbq → Fbuf → Cmd Fbq
put q b = if q.capacity == 0 then (λ _. stuck) else pure (enqueue q b)

-- The part of fbq_get behind the wait.
unfoldable pub dequeue : Fbq → Fbuf × Fbq
dequeue q =
    let next = ((q.index + 1) % q.size) % 256 in
    (
      q.buf next,
      record q {
        index = next;
        cnt = (q.cnt + 255) % 256;
        length = q.length - 1;
        capacity = q.capacity + 1;
      },
    )

-- fbq_get
unfoldable pub get : Fbq → Cmd (Fbuf × Fbq)
get q = if q.length == 0 then (λ _. stuck) else pure (dequeue q)

-- The loop of fbq_clear from `i`, with `n` rounds to go: fbuf_release changes the handle released.
unfoldable pub release_all : ℕ → ℕ → Fbq → Cmd Fbq
release_all zero i q = pure q
release_all (suc n) i q = do
  b ← release (q.buf ((i % q.size) % 256))
  release_all n ((i + 1) % 65536) (record q { buf = update q.buf ((i % q.size) % 256) b })

-- fbq_clear
unfoldable pub clear : Fbq → Cmd Fbq
clear q = do
  q' ← release_all q.length q.index q
  pure (record q' { length = 0; capacity = q'.size; index = 0; cnt = 0 })

-- fbq_signal
unfoldable pub signal : Fbq → Cmd Fbq
signal q = do b ← new; put q b
