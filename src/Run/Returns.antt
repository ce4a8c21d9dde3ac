-- ===== src/Run/Returns.antt =====
-- Total correctness of a command: it neither faults nor gets stuck, and a postcondition holds.
use arctic_tracker_teensy.Run.{Pool, Run, ok, Cmd, and_then}

pub data Returns {A : Type 0} (P : A → Pool → Type 0) : Run A → Type 0 where
  returns : {a : A} {p : Pool} → P a p → Returns P (ok a p)

module _ {A : Type 0} {P : A → Pool → Type 0} where
  -- A sequence of commands: the second may rely on what the first ensures.
  pub chain :
      {B : Type 0} {Q : B → Pool → Type 0} {r : Run A} {k : A → Cmd B}
      → Returns P r
      → ((a : A) (p : Pool) → P a p → Returns Q (k a p))
      → Returns Q (and_then r k)
  chain (returns h) next = next _ _ h

  pub weaken :
      {Q : A → Pool → Type 0} {r : Run A}
      → Returns P r
      → ((a : A) (p : Pool) → P a p → Q a p)
      → Returns Q r
  weaken (returns h) f = returns (f _ _ h)
