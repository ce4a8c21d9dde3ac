-- ===== src/Fifo/Tests.antt =====
-- A ring of four bytes.
use arctic_tracker_teensy.Base.{◌+◌, arith}
use arctic_tracker_teensy.Fifo.{Fifo}
use arctic_tracker_teensy.Fifo.Queue.{IsFifo}

-- It has come round: the bytes at the indices 3 and 0 are queued.
abbrev ring : Fifo
ring = record { size = 4; len = 2; pos = 2; buffer = λ i. i + 10 }

ring-IsFifo : IsFifo ring
ring-IsFifo = record {
  some_room = omega arith;
  small = omega arith;
  fits = omega arith;
  inside = omega arith;
}
