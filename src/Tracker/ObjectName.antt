-- ===== src/Tracker/ObjectName.antt =====
-- The name of an object, and strings without NULs.
use arctic_tracker_teensy.Base.{
  ℕ, zero, suc, ◌+◌, ◌-◌, ◌≤◌, ◌<◌, ◌≡◌, ◌≢◌, refl, ap, inl, inr, List, [], ◌∷◌, ◌++◌, arith,
  length, length-append, length-take, take, replicate, leb, ◌==◌, ne→==, ==→ne, Bool-cases,
}
use arctic_tracker_teensy.Fbuf.Write.{until_nul}
use arctic_tracker_teensy.Tracker.Reports.{object_name}

-- Strings without NULs are written whole.
unfoldable pub NoNul : List ℕ → Type 0
NoNul [] = Unit
NoNul (c ∷ cs) = (c ≢ 0) × NoNul cs

pub until_nul_same : (cs : List ℕ) → NoNul cs → until_nul cs ≡ cs
unfolding until_nul NoNul
until_nul_same [] v = refl
until_nul_same (c ∷ cs) (nul, v) = rw (ne→== c 0 nul) (ap (◌∷◌ c) (until_nul_same cs v))

until_nul-NoNul : (cs : List ℕ) → NoNul (until_nul cs)
unfolding until_nul NoNul
until_nul-NoNul [] = tt
until_nul-NoNul (c ∷ cs) = elim (Bool-cases (c == 0)) [
  | inl e ↦ rw e tt
  | inr e ↦ rw e (==→ne c 0 e, until_nul-NoNul cs)
]

NoNul-append : (xs ys : List ℕ) → NoNul xs → NoNul ys → NoNul (xs ++ ys)
unfolding NoNul
NoNul-append [] ys v w = w
NoNul-append (x ∷ xs) ys (nul, v) w = (nul, NoNul-append xs ys v w)

NoNul-take : (n : ℕ) (xs : List ℕ) → NoNul xs → NoNul (take n xs)
unfolding NoNul
NoNul-take zero xs v = tt
NoNul-take (suc n) [] v = tt
NoNul-take (suc n) (x ∷ xs) (nul, v) = (nul, NoNul-take n xs v)

NoNul-replicate : (n c : ℕ) → (c ≢ 0) → NoNul (replicate n c)
unfolding NoNul
NoNul-replicate zero c nul = tt
NoNul-replicate (suc n) c nul = (nul, NoNul-replicate n c nul)

length-replicate : (n c : ℕ) → length (replicate n c) ≡ n
length-replicate zero c = refl
length-replicate (suc n) c = omega (arith, length-replicate n c)

-- The name of an object has exactly nine characters, as the comment in report_object_position
-- demands, and none of them is NUL.
pub length-object_name :
    (pos : ℕ) (obj_id : List ℕ)
    → (length (object_name pos (until_nul obj_id)) ≡ 9)
      × (until_nul (object_name pos (until_nul obj_id)) ≡ object_name pos (until_nul obj_id))
unfolding object_name NoNul
length-object_name pos obj_id =
    let id = until_nul obj_id in
    let v = until_nul-NoNul obj_id in
    let digit : 48 + pos ≢ 0 = λ e. omega arith in
    elim (Bool-cases (leb 8 (length id))) [
      | inl e ↦
          let long : 8 ≤ length id = ground arith in
          rw e (
            omega (arith, length-append (take 8 id) ((48 + pos) ∷ []), length-take 8 id long),
            until_nul_same _
                (NoNul-append (take 8 id) ((48 + pos) ∷ []) (NoNul-take 8 id v) (digit, tt)),
          )
      | inr e ↦
          let short : length id < 8 = ground arith in
          let fill : List ℕ = replicate (8 - length id) 32 in
          rw e (
            omega
                (arith, length-append id ((48 + pos) ∷ fill), length-replicate (8 - length id) 32),
            until_nul_same _ (
                NoNul-append id ((48 + pos) ∷ fill) v
                  (digit, NoNul-replicate (8 - length id) 32 (λ e. omega arith))),
          )
    ]
