-- ===== src/Fbuf/Tests.antt =====
-- fbuf.c on small pools: runs of the operations, and the theorems at these inputs.
use arctic_tracker_teensy.Base.{ℕ, ◌+◌, ◌≡◌, refl, inr, false, List, [], ◌∷◌, arith, drop}
use arctic_tracker_teensy.Run.{
  Slot, Pool, nil, Run, ok, fault, Cmd, ◌>>=◌, pure, update, get_slot, put_slot,
}
use arctic_tracker_teensy.Run.Returns.{Returns}
use arctic_tracker_teensy.Fbuf.{
  Fbuf, new_slot_loop, put_at, store_char, advance, new_slot, new, put_char, write, print, get_char,
  get_chars, release, reset,
}
use arctic_tracker_teensy.Fbuf.Chain.{contents, bytes, Links, Distinct}
use arctic_tracker_teensy.Fbuf.Count.{IsPool, free_count}
use arctic_tracker_teensy.Fbuf.Buffer.{all_bytes, IsBuffer, room, Wrote}
use arctic_tracker_teensy.Fbuf.Write.{write-append}
use arctic_tracker_teensy.Fbuf.Read.{GotAll, get_chars-GotAll}
use arctic_tracker_teensy.Fbuf.Release.{Referred, Released, release-Released}
use arctic_tracker_teensy.Fbuf.Share.{Countable}

abbrev blank : Slot
blank = record { refcnt = 0; length = 0; next = 0; buf = λ _. 0 }

-- The pool at start.
abbrev pub empty_pool : Pool
empty_pool = record { slot = λ _. blank; free_slots = 900; has_handler = false }

empty_pool-IsPool : IsPool empty_pool
unfolding free_count
empty_pool-IsPool = record { counted = refl }

-- Slot 0 is full and slot 1 holds two more bytes.
abbrev pub two_slots : ℕ → Slot
two_slots =
    update (update (λ _. blank) 0 (record { refcnt = 1; length = 32; next = 1; buf = λ i. i + 1 }))
      1 (record { refcnt = 1; length = 2; next = nil; buf = λ i. i + 33 })

abbrev pub pool : Pool
pool = record { slot = two_slots; free_slots = 898; has_handler = false }

abbrev pub chain : Fbuf
chain = record { head = 0; wslot = 1; rslot = 0; rpos = 0; length = 34 }

pool-IsPool : IsPool pool
unfolding free_count update
pool-IsPool = record { counted = refl }

pub chain-IsBuffer : IsBuffer two_slots chain (0 ∷ [])
unfolding update contents bytes
chain-IsBuffer = record {
  links = (refl, omega arith, (refl, omega arith, refl));
  distinct = ((omega arith, tt), (tt, tt));
  in_use = (omega arith, omega arith, (omega arith, omega arith, tt));
  counted = refl;
  full = (refl, tt);
  last_used = inr (omega arith);
}

-- A run: three bytes written to a new chain and printed.
abbrev run_print : Cmd (List ℕ)
run_print = do b ← new; b ← write b (7 ∷ 8 ∷ 9 ∷ []); out ← print b; pure out.0

result {ℓ} : {A : Type 0} {B : Type ℓ} → Run A → (A → B) → B → B
result (ok a p) f d = f a
result fault f d = d
result Run.stuck f d = d

run_print_test : result (run_print empty_pool) (λ l. l) [] ≡ 7 ∷ 8 ∷ 9 ∷ []
unfolding result new new_slot new_slot_loop write put_char put_at store_char print get_chars
    get_char advance reset update get_slot put_slot
run_print_test = refl

write-append_example :
    Returns (Wrote pool chain (0 ∷ []) (1 ∷ 2 ∷ [])) (write chain (1 ∷ 2 ∷ []) pool)
unfolding room free_count update
write-append_example =
    write-append (1 ∷ 2 ∷ []) chain-IsBuffer pool-IsPool (omega arith) (omega arith)

get_chars-GotAll_example :
    Returns
      (GotAll pool chain (1 ∷ 2 ∷ []) (drop 2 (all_bytes two_slots chain (0 ∷ []))))
      (get_chars 2 chain pool)
unfolding contents bytes update
get_chars-GotAll_example =
    get_chars-GotAll pool chain (1 ∷ 2 ∷ []) (drop 2 (all_bytes two_slots chain (0 ∷ []))) (record {
      slots_left = 0 ∷ 1 ∷ [];
      links = (refl, omega arith, (refl, omega arith, refl));
      filled = (omega arith, omega arith, (omega arith, omega arith, tt));
      rest = (omega arith, refl);
    })

chain-Referred : Referred two_slots (0 ∷ 1 ∷ [])
unfolding update
chain-Referred = (omega arith, (omega arith, tt))

chain-Links : Links two_slots 0 (0 ∷ 1 ∷ []) nil
unfolding update
chain-Links = (refl, omega arith, (refl, omega arith, refl))

chain-Distinct : Distinct (0 ∷ 1 ∷ [])
chain-Distinct = ((omega arith, tt), (tt, tt))

chain-Countable : Countable two_slots (0 ∷ 1 ∷ [])
unfolding update
chain-Countable = (omega arith, (omega arith, tt))

release-Released_example :
    Returns
      (λ b' q. (b'.head ≡ nil) × (b'.length ≡ 0) × Released pool (0 ∷ 1 ∷ []) q)
      (release chain pool)
release-Released_example =
    release-Released pool chain (0 ∷ 1 ∷ []) chain-Links chain-Distinct chain-Referred pool-IsPool

-- Every slot is in use, and slot 0 is a full buffer.
abbrev full_slots : ℕ → Slot
full_slots = λ _. record { refcnt = 1; length = 32; next = nil; buf = λ i. i }

abbrev full_pool : Pool
full_pool = record { slot = full_slots; free_slots = 0; has_handler = false }

abbrev full_chain : Fbuf
full_chain = record { head = 0; wslot = 0; rslot = 0; rpos = 0; length = 32 }

full_chain-IsBuffer : IsBuffer full_slots full_chain []
unfolding contents bytes
full_chain-IsBuffer = record {
  links = (refl, omega arith, refl);
  distinct = (tt, tt);
  in_use = (omega arith, omega arith, tt);
  counted = refl;
  full = tt;
  last_used = inr (omega arith);
}
