-- ===== src/Fbuf/SpliceTests.antt =====
-- A chain of one slot joined to the last byte of a chain of two.
use arctic_tracker_teensy.Base.{ℕ, ◌+◌, refl, false, [], ◌∷◌, arith}
use arctic_tracker_teensy.Run.{Slot, Pool, nil, update}
use arctic_tracker_teensy.Run.Returns.{Returns}
use arctic_tracker_teensy.Fbuf.{Fbuf}
use arctic_tracker_teensy.Fbuf.Count.{free_count}
use arctic_tracker_teensy.Fbuf.Join.{connect}
use arctic_tracker_teensy.Fbuf.Splice.{Joinable, Joined, connect-Joined}
use arctic_tracker_teensy.Fbuf.Tests.{two_slots, chain}

abbrev three_slots : ℕ → Slot
three_slots = update two_slots 2 (record { refcnt = 1; length = 3; next = nil; buf = λ i. i + 70 })

abbrev three_pool : Pool
three_pool = record { slot = three_slots; free_slots = 897; has_handler = false }

abbrev new_header : Fbuf
new_header = record { head = 2; wslot = 2; rslot = 2; rpos = 0; length = 3 }

three-Joinable : Joinable three_pool new_header chain [] (0 ∷ []) [] 2 1 1
unfolding update free_count
three-Joinable = record {
  head_chain = (refl, omega arith, refl);
  tail_chain = (refl, omega arith, (refl, omega arith, refl));
  full = (refl, tt);
  some_bytes = omega arith;
  in_slot = omega arith;
  in_length = omega arith;
  used = omega arith;
  b_used = (omega arith, omega arith, tt);
  cs_used = tt;
  alone = tt;
  w_out = ((λ e. omega arith), tt);
  i_out = (tt, tt);
  room = omega arith;
  short = omega arith;
  few = (omega arith, (omega arith, omega arith));
}

connect-Joined_example :
    Returns
      (Joined three_pool new_header chain [] (0 ∷ []) [] 2 1 1)
      (connect new_header chain 33 three_pool)
connect-Joined_example =
    connect-Joined three_pool new_header chain [] (0 ∷ []) [] 2 1 1 three-Joinable
