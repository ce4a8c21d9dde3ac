-- ===== src/Run/Monad.antt =====
-- The laws of a sequence of commands.
use arctic_tracker_teensy.Base.{◌≡◌, refl}
use arctic_tracker_teensy.Run.{Run, ok, fault, stuck, Cmd, pure, and_then, ◌>>=◌}
use mathlib.Core.Path.{fun_ext}

module _ {A : Type 0} where
  run_pure : (r : Run A) → and_then r pure ≡ r
  run_pure (ok a p) = refl
  run_pure fault = refl
  run_pure stuck = refl

  pub bind_pure : (m : Cmd A) → (m >>= pure) ≡ m
  bind_pure m = fun_ext λ p. run_pure (m p)

module _ {A B C : Type 0} where
  run_assoc :
      (r : Run A) (f : A → Cmd B) (g : B → Cmd C)
      → and_then (and_then r f) g ≡ and_then r (λ a. f a >>= g)
  run_assoc (ok a p) f g = refl
  run_assoc fault f g = refl
  run_assoc stuck f g = refl

  pub bind_assoc :
      (m : Cmd A) (f : A → Cmd B) (g : B → Cmd C) → ((m >>= f) >>= g) ≡ (m >>= λ a. f a >>= g)
  bind_assoc m f g = fun_ext λ p. run_assoc (m p) f g
