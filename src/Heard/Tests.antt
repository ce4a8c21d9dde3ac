-- ===== src/Heard/Tests.antt =====
-- Small heard lists, and the checksum of a frame.
use arctic_tracker_teensy.Base.{ℕ, ◌+◌, ◌*◌, ◌≡◌, ◌≢◌, refl, inl, false, some, [], ◌∷◌, arith, drop}
use arctic_tracker_teensy.Crc.{crc_bytes}
use arctic_tracker_teensy.Run.{Slot, Pool, nil, ok}
use arctic_tracker_teensy.Run.Returns.{Returns}
use arctic_tracker_teensy.Fbuf.{Fbuf}
use arctic_tracker_teensy.Fbuf.Chain.{contents, bytes}
use arctic_tracker_teensy.Fbuf.Buffer.{IsBuffer, all_bytes}
use arctic_tracker_teensy.Ax25.{Addr}
use arctic_tracker_teensy.Heard.{HeardList, sum_loop, exists, checksum}
use arctic_tracker_teensy.Heard.Scan.{listed, heard, Straight, exists-heard}
use arctic_tracker_teensy.Heard.Twice.{sum}
use arctic_tracker_teensy.Heard.Sum.{known_by, checksum-crc, sum_loop_endless}

-- Three packets heard, the sums 5, 6 and 7.
abbrev three : HeardList
three = record { hlist = λ i. record { val = i + 5; ts = i * 10 }; next = 3; length = 3; time = 12 }

three-Straight : Straight three
three-Straight = record { inside = omega arith; behind = omega arith }

exists-heard_example : exists 6 three ≡ some (heard 6 (listed three))
exists-heard_example = exists-heard 6 three three-Straight

-- The ring has just come round.
abbrev round : HeardList
round = record { hlist = λ i. record { val = i; ts = 0 }; next = 0; length = 32; time = 0 }

-- A chain of one slot with 20 bytes.
abbrev one_slot : ℕ → Slot
one_slot = λ _. record { refcnt = 1; length = 20; next = nil; buf = λ i. i + 1 }

abbrev pool : Pool
pool = record { slot = one_slot; free_slots = 0; has_handler = false }

abbrev frame : Fbuf
frame = record { head = 0; wslot = 0; rslot = 0; rpos = 0; length = 20 }

frame-IsBuffer : IsBuffer one_slot frame []
unfolding contents bytes
frame-IsBuffer = record {
  links = (refl, omega arith, refl);
  distinct = (tt, tt);
  in_use = (omega arith, omega arith, tt);
  counted = refl;
  full = tt;
  last_used = inl refl;
}

abbrev someone : Addr
someone = record { callsign = 76 ∷ 65 ∷ []; ssid = 7; flags = 0 }

checksum-crc_example :
    Returns
      (λ out q.
        (out.0
          ≡ crc_bytes 0xFFFF (known_by someone someone (drop 16 (all_bytes one_slot frame []))))
        × (q ≡ pool))
      (checksum 256 someone someone frame 0 pool)
checksum-crc_example =
    checksum-crc pool frame [] someone someone 0 frame-IsBuffer (omega arith) (omega arith)
      (omega arith)

-- The sum by which the frame is known.
abbrev frame_sum : ℕ
frame_sum = sum pool someone someone (drop 16 (all_bytes one_slot frame []))

abbrev long_frame : Fbuf
long_frame = record frame { length = 289 }

sum_loop_endless_example : sum_loop 1000 16 0xFFFF long_frame pool ≢ ok (0, long_frame) pool
sum_loop_endless_example =
    sum_loop_endless 1000 16 0xFFFF long_frame pool (0, long_frame) pool (omega arith) (omega arith)
