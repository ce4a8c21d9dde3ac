-- ===== src/Tracker/Buffered.antt =====
-- The position buffer is a queue of five that drops its oldest position when it is full.
use arctic_tracker_teensy.Base.{
  suc, ◌+◌, ◌-◌, ◌%◌, ◌≤◌, ◌<◌, ◌≡◌, sym, ap, ◌∙◌, false, List, [], ◌∷◌, ◌++◌, arith, ltb, leb,
  lt→ltb, ge→ltb, ne→==, if◌then◌else◌,
}
use arctic_tracker_teensy.Run.{update}
use arctic_tracker_teensy.Ring.{behind, behind-same, behind-push, behind-uncons}
use arctic_tracker_teensy.Tracker.Positions.{PosBuf, put_pos, get_pos, pos_buf_empty}
use native.Mathlib.Decide.{dec_lt}
use native.Mathlib.Nat.{mod-lt}

-- The positions in the buffer, oldest first.
abbrev pub held : {A : Type 0} → PosBuf A → List A
held s = behind s.n_pos (s.next_pos + 9 - s.n_pos) 5 s.pos_buf

pub record IsPosBuf {A : Type 0} (s : PosBuf A) : Type 0 where
  pub fits : s.n_pos ≤ 5
  pub inside : s.next_pos < 5

unfoldable pub drop_oldest : {A : Type 0} → List A → List A
drop_oldest [] = []
drop_oldest (x ∷ xs) = xs

module _ {A : Type 0} (s : PosBuf A) (v : IsPosBuf s) where
  -- putPos puts the position behind the others, and drops the oldest one where five are held.
  pub put_pos-held :
      (p : A)
      → IsPosBuf (put_pos p s)
        × (held (put_pos p s)
            ≡ (if ltb s.n_pos 5 then held s else drop_oldest (held s)) ++ (p ∷ []))
  unfolding put_pos drop_oldest behind
  put_pos-held p =
      let fits = v.fits in
      let inside = v.inside in
      let n = s.n_pos in
      let at = s.next_pos in
      let h' = update s.pos_buf at p in
      let next : (at + 1) % 5 < 5 = mod-lt (at + 1) (omega arith) in
      elim (dec_lt n 5) [
        | yes lt ↦
            let start : ((at + 1) % 5 + 9 - (n + 1)) % 5 ≡ (at + 9 - n) % 5 = omega arith in
            let grow : n + 1 ≡ suc n = omega arith in
            rw (lt→ltb n 5 lt) (
              record { fits = omega arith; inside = next },
              behind-same (n + 1) ((at + 1) % 5 + 9 - (n + 1)) (at + 9 - n) 5 h' start
                  ∙ ap (λ k. behind k (at + 9 - n) 5 h') grow
                  ∙ behind-push n (at + 9 - n) 5 at p s.pos_buf lt (omega arith),
            )
        | no ge ↦
            let five : n ≡ 5 = omega arith in
            let start : ((at + 1) % 5 + 4) % 5 ≡ (at + 4 + 1) % 5 = omega arith in
            rw (ge→ltb n 5 (omega arith)) (
              record { fits = fits; inside = next },
              rw five (
                  ap (λ k. behind 5 k 5 h') (omega arith)
                  ∙ behind-same 5 ((at + 1) % 5 + 4) (at + 4 + 1) 5 h' start
                  ∙ behind-push 4 (at + 4 + 1) 5 at p s.pos_buf (omega arith) (omega arith)
                  ∙ ap (λ k. drop_oldest (behind 5 k 5 s.pos_buf) ++ (p ∷ [])) (omega arith)),
            )
      ]

  -- getPos takes the oldest position out of the buffer.
  pub get_pos-held :
      (p : A) (ps : List A)
      → held s ≡ p ∷ ps
      → (pos_buf_empty s ≡ false)
        × (((get_pos s).0 ≡ p) × (IsPosBuf (get_pos s).1 × (held (get_pos s).1 ≡ ps)))
  unfolding get_pos pos_buf_empty
  get_pos-held p ps e =
      let (used, (same, rest)) =
        behind-uncons s.n_pos (s.next_pos + 9 - s.n_pos) 5 s.pos_buf p ps e in
      let fits = v.fits in
      let inside = v.inside in
      let place : (s.next_pos + 9 - s.n_pos + 1) % 5
          ≡ (if leb s.n_pos s.next_pos then s.next_pos - s.n_pos else 5 + s.next_pos - s.n_pos) =
        ground arith in
      let start : (s.next_pos + 9 - (s.n_pos - 1)) % 5 ≡ (s.next_pos + 9 - s.n_pos + 1) % 5 % 5 =
        omega arith in
      (
        ne→== s.n_pos 0 (λ z. omega arith),
        (
          ap s.pos_buf (sym place) ∙ same,
          (
            record { fits = omega arith; inside = inside },
            behind-same (s.n_pos - 1) (s.next_pos + 9 - (s.n_pos - 1))
                  ((s.next_pos + 9 - s.n_pos + 1) % 5) 5 s.pos_buf start
                ∙ rest,
          ),
        ),
      )
