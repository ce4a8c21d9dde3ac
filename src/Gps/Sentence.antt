-- ===== src/Gps/Sentence.antt =====
-- The checksum of a sentence.
use arctic_tracker_teensy.Base.{
  ℕ, zero, suc, ◌≤◌, ◌<◌, ◌≡◌, ◌≢◌, refl, Option, none, some, List, [], ◌∷◌, ◌++◌, arith, length,
  ◌==◌, ne→==, bit_xor, Bool-cases, inl, inr, if◌then◌else◌,
}
use mathlib.Core.Option
use arctic_tracker_teensy.Config.{xor_all}
use arctic_tracker_teensy.Gps.{c_checksum, checksum_loop, checked, verified, sentence}

-- Text without a star and without NULs.
unfoldable pub IsBody : List ℕ → Type 0
IsBody [] = Unit
IsBody (c ∷ cs) = (c ≢ 42) × ((c ≢ 0) × IsBody cs)

loop_star :
    (body rest : List ℕ) (n checksum : ℕ)
    → IsBody body
    → length body < n
    → checksum_loop n checksum (body ++ (42 ∷ rest)) ≡ (xor_all checksum body, (body, 42 ∷ rest))
unfolding checksum_loop xor_all IsBody
loop_star body rest zero checksum v lt = absurd (omega arith)
loop_star [] rest (suc n) checksum v lt = refl
loop_star (c ∷ cs) rest (suc n) checksum (star, (nul, v)) lt =
    rw (ne→== c 42 star, ne→== c 0 nul, loop_star cs rest n (bit_xor checksum c) v (omega arith))
      refl

loop_end :
    (body : List ℕ) (n checksum : ℕ)
    → IsBody body
    → length body ≤ n
    → checksum_loop n checksum body ≡ (xor_all checksum body, (body, []))
unfolding checksum_loop xor_all IsBody
loop_end [] zero checksum v lt = refl
loop_end (c ∷ cs) zero checksum v lt = absurd (omega arith)
loop_end [] (suc n) checksum v lt = refl
loop_end (c ∷ cs) (suc n) checksum (star, (nul, v)) lt =
    rw (ne→== c 42 star, ne→== c 0 nul, loop_end cs n (bit_xor checksum c) v (omega arith)) refl

-- nmeaListener takes a sentence with a number behind the star if and only if that is the exclusive
-- or of the characters between the dollar and the star, of which there are at most 78. Where sscanf
-- finds no number there, whatever `c_checksum` happened to hold is compared in its place. A sentence
-- of at most 79 characters without a star it always takes.
pub sentence-checksum :
    (scan_hex : List ℕ → Option ℕ) (before : ℕ) (body rest : List ℕ)
    → IsBody body
    → length body ≤ 78
    → (sentence scan_hex before (36 ∷ body ++ (42 ∷ rest)) ≡ elim (scan_hex rest) [
      | some n ↦ if n == xor_all 0 body then some (36 ∷ body) else none
      | none ↦ if before == xor_all 0 body then some (36 ∷ body) else none
    ])
      × (sentence scan_hex before (36 ∷ body) ≡ some (36 ∷ body))
unfolding sentence verified checked c_checksum
sentence-checksum scan_hex before body rest v short = (
  rw (sentence, loop_star body rest 79 0 v (omega arith)) (compared (scan_hex rest)),
  rw (sentence, loop_end body 79 0 v (omega arith)) refl,
)
  where
    compared :
        (o : Option ℕ)
        → Option.map
            (λ (xs : List ℕ). 36 ∷ xs)
            (if c_checksum before o == xor_all 0 body then some body else none)
          ≡ elim o [
            | some n ↦ if n == xor_all 0 body then some (36 ∷ body) else none
            | none ↦ if before == xor_all 0 body then some (36 ∷ body) else none
          ]
    compared (some n) = elim (Bool-cases (n == xor_all 0 body)) [
      | inl e ↦ rw e refl
      | inr e ↦ rw e refl
    ]
    compared none = elim (Bool-cases (before == xor_all 0 body)) [
      | inl e ↦ rw e refl
      | inr e ↦ rw e refl
    ]
