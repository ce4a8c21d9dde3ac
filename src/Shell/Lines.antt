-- ===== src/Shell/Lines.antt =====
-- readline: where a line ends, and what is left of a long one.
use arctic_tracker_teensy.Base.{
  ℕ, zero, suc, ◌≡◌, ◌≢◌, refl, ap, List, [], ◌∷◌, ◌++◌, ltb, length, take, drop, arith, ne→==,
  lt→ltb, ge→ltb, ltb→lt, ltb→ge, if◌then◌else◌, Bool-cases, inl, inr,
}
use arctic_tracker_teensy.Shell.{line, stored_first, after_return, readline}

-- Characters of a line: no Ctrl-C, CR or LF.
unfoldable pub IsPlain : List ℕ → Type 0
IsPlain [] = Unit
IsPlain (c ∷ cs) = (c ≢ 3) × ((c ≢ 13) × ((c ≢ 10) × IsPlain cs))

-- A line without Ctrl-C, CR and LF in it that is ended by CR and LF: where it is shorter than the room, readline takes it and both
-- characters behind it; of a longer one, or one of just that length, it takes as much as there is
-- room for, and the rest of it stays in the stream, with its end.
pub readline-line :
    (text : List ℕ) (max c : ℕ) (rest : List ℕ)
    → IsPlain text
    → readline max (text ++ (13 ∷ c ∷ rest)) ≡ (
        if ltb (length text) max
        then line text rest
        else line (take max text) (drop max text ++ (13 ∷ c ∷ rest)))
unfolding readline IsPlain stored_first after_return
readline-line [] zero c rest plain = refl
readline-line [] (suc max) c rest plain = rw (lt→ltb 0 (suc max) (omega arith)) refl
readline-line (x ∷ text) zero c rest plain = rw (ge→ltb (suc (length text)) 0 (omega arith)) refl
readline-line (x ∷ text) (suc max) c rest plain =
    let (etx, (cr, (lf, more))) = plain in
    let ih = ap (stored_first x) (readline-line text max c rest more) in
    elim (Bool-cases (ltb (length text) max)) [
      | inl t ↦
          rw
            (
              ne→== x 3 etx,
              ne→== x 13 cr,
              ne→== x 10 lf,
              lt→ltb (suc (length text)) (suc max) (omega (arith, ltb→lt _ _ t)),
            )
            (rw t at ih)
      | inr f ↦
          rw
            (
              ne→== x 3 etx,
              ne→== x 13 cr,
              ne→== x 10 lf,
              ge→ltb (suc (length text)) (suc max) (omega (arith, ltb→ge _ _ f)),
            )
            (rw f at ih)
    ]
