-- ===== src/Fbuf/QueueTests.antt =====
-- A queue of four buffer chains that has come round.
use arctic_tracker_teensy.Base.{ℕ, ◌<◌, ◌≡◌, refl, [], ◌∷◌, ◌++◌, arith, leb, if◌then◌else◌}
use arctic_tracker_teensy.Run.{ok, stuck}
use arctic_tracker_teensy.Fbuf.{Fbuf}
use arctic_tracker_teensy.Fbuf.Queue.{Fbq, put, enqueue}
use arctic_tracker_teensy.Fbuf.Queued.{queued, IsFbq, put-queued}
use arctic_tracker_teensy.Fbuf.Tests.{empty_pool}

abbrev handle : ℕ → Fbuf
handle i = record { head = i; wslot = i; rslot = i; rpos = 0; length = 0 }

abbrev ring : Fbq
ring = record { size = 4; index = 2; cnt = 2; length = 2; capacity = 2; buf = handle }

ring-IsFbq : IsFbq ring
ring-IsFbq = record {
  some_room = omega arith;
  small = omega arith;
  fits = omega arith;
  inside = omega arith;
  waiting = refl;
  left = refl;
}

put-queued_example :
    (put ring (handle 9) empty_pool
      ≡ (if leb 4 2 then stuck else ok (enqueue ring (handle 9)) empty_pool))
    × (2 < 4
        → IsFbq (enqueue ring (handle 9))
          × (queued (enqueue ring (handle 9)) ≡ queued ring ++ (handle 9 ∷ [])))
put-queued_example = put-queued ring ring-IsFbq (handle 9) empty_pool
