-- ===== src/Text/Tokens.antt =====
-- tokenize without merging, at strings without quotes: the tokens between the delimiters.
use arctic_tracker_teensy.Base.{
  ℕ, zero, suc, ◌+◌, ◌<◌, ◌≡◌, ◌≢◌, refl, ap, ◌∙◌, true, false, none, some, List, [], ◌∷◌, ◌++◌,
  arith, length, length-append, length-take, Bool-cases, inl, inr, ltb→lt, ltb→ge, ◌%◌, take, ne→==,
  ltb, lt→ltb, ge→ltb, if◌then◌else◌,
}
use arctic_tracker_teensy.Text.{
  is_delim, strsep, Scan, counted, overfull, returned, with_token, kept, last, stored, plain_token,
  next_token, follow, tokenize_loop, tokenize,
}
use native.Mathlib.Decide.{dec_lt}

-- A token without delimiters and quotes.
unfoldable pub IsToken : List ℕ → List ℕ → Type 0
IsToken delim [] = Unit
IsToken delim (c ∷ cs) = (c ≢ 34) × ((is_delim delim c ≡ false) × IsToken delim cs)

unfoldable pub AllTokens : List ℕ → List (List ℕ) → Type 0
AllTokens delim [] = Unit
AllTokens delim (t ∷ ts) = IsToken delim t × AllTokens delim ts

-- The tokens with the delimiter `d` between them, behind a first one.
unfoldable pub joined : ℕ → List ℕ → List (List ℕ) → List ℕ
joined d t [] = t
joined d t (u ∷ us) = t ++ (d ∷ joined d u us)

returned_same :
    (t : List ℕ) (ts : List (List ℕ)) (maxtokens : ℕ)
    → maxtokens < 256
    → returned (
        if ltb maxtokens (length (t ∷ ts))
        then overfull (take maxtokens (t ∷ ts))
        else counted (t ∷ ts))
      ≡ some (if ltb maxtokens (length (t ∷ ts)) then (maxtokens + 1) % 256 else length (t ∷ ts))
unfolding returned
returned_same t ts maxtokens byte = elim (Bool-cases (ltb maxtokens (suc (length ts)))) [
  | inl e ↦
      let more = ltb→lt maxtokens (suc (length ts)) e in
      let n : length (take maxtokens (t ∷ ts)) ≡ maxtokens =
        length-take maxtokens (t ∷ ts) (omega arith) in
      rw e (ap some (omega (arith, n)))
  | inr e ↦ let few = ltb→ge maxtokens (suc (length ts)) e in rw e (ap some (omega arith))
]

module _ (delim : List ℕ) where
  strsep_last : (t : List ℕ) → IsToken delim t → strsep delim t ≡ (t, none)
  unfolding strsep IsToken
  strsep_last [] v = refl
  strsep_last (c ∷ cs) (_, (e, v)) = rw (e, strsep_last cs v) refl

  module _ (d : ℕ) (sep : is_delim delim d ≡ true) (not_quote : d ≢ 34) where
    strsep_more : (t buf : List ℕ) → IsToken delim t → strsep delim (t ++ (d ∷ buf)) ≡ (t, some buf)
    unfolding strsep IsToken
    strsep_more [] buf v = rw sep refl
    strsep_more (c ∷ cs) buf (_, (e, v)) = rw (e, strsep_more cs buf v) refl

    next_last : (t : List ℕ) → IsToken delim t → next_token delim false t ≡ last t
    unfolding next_token plain_token IsToken
    next_last [] v = refl
    next_last (c ∷ cs) v = rw (ne→== c 34 v.0, strsep_last (c ∷ cs) v) refl

    next_more :
        (t buf : List ℕ) → IsToken delim t → next_token delim false (t ++ (d ∷ buf)) ≡ stored t buf
    unfolding next_token plain_token kept IsToken
    next_more [] buf v = rw (ne→== d 34 not_quote, strsep_more [] buf v) refl
    next_more (c ∷ cs) buf v = rw (ne→== c 34 v.0, strsep_more (c ∷ cs) buf v) refl

    -- Where there is room, all the tokens; otherwise those that there is room for.
    abbrev outcome : ℕ → List ℕ → List (List ℕ) → Scan
    outcome zero t ts = overfull []
    outcome (suc left) t [] = counted (t ∷ [])
    outcome (suc left) t (u ∷ us) = with_token t (outcome left u us)

    loop_tokens :
        (ts : List (List ℕ)) (t : List ℕ) (fuel left : ℕ)
        → length (joined d t ts) < fuel
        → IsToken delim t
        → AllTokens delim ts
        → tokenize_loop delim false fuel left (joined d t ts) ≡ outcome left t ts
    unfolding tokenize_loop follow kept joined AllTokens
    loop_tokens ts t zero left lt v all = absurd (omega arith)
    loop_tokens ts t (suc fuel) zero lt v all = refl
    loop_tokens [] t (suc fuel) (suc left) lt v all = rw (next_last t v) refl
    loop_tokens (u ∷ us) t (suc fuel) (suc left) lt v (w, all) =
        rw (next_more t (joined d u us) v) (
          ap (with_token t)
            (loop_tokens us u fuel left (omega (arith, length-append t (d ∷ joined d u us))) w all))

    outcome-eq :
        (ts : List (List ℕ)) (t : List ℕ) (left : ℕ)
        → outcome left t ts
          ≡ (if ltb left (suc (length ts)) then overfull (take left (t ∷ ts)) else counted (t ∷ ts))
    unfolding with_token
    outcome-eq ts t zero = let e = lt→ltb 0 (suc (length ts)) (omega arith) in rw e refl
    outcome-eq [] t (suc left) = let e = ge→ltb (suc left) 1 (omega arith) in rw e refl
    outcome-eq (u ∷ us) t (suc left) = elim (dec_lt left (suc (length us))) [
      | yes lt ↦
          rw
            (
              lt→ltb (suc left) (suc (suc (length us))) (omega arith),
              outcome-eq us u left,
              lt→ltb left (suc (length us)) lt,
            )
            refl
      | no ge ↦
          rw
            (
              ge→ltb (suc left) (suc (suc (length us))) (omega arith),
              outcome-eq us u left,
              ge→ltb left (suc (length us)) (omega arith),
            )
            refl
    ]

    -- Tokens without quotes that are joined by a delimiter are the tokens that tokenize finds, where
    -- it does not merge and they are at most `maxtokens`, and it returns their number. Where they are
    -- more, it stores the first `maxtokens` and returns one more than that, as a byte: 0 for 255.
    pub tokenize-joined :
        (t : List ℕ) (ts : List (List ℕ)) (maxtokens : ℕ)
        → IsToken delim t
        → AllTokens delim ts
        → maxtokens < 256
        → (tokenize (joined d t ts) maxtokens delim false ≡ (
            if ltb maxtokens (length (t ∷ ts))
            then overfull (take maxtokens (t ∷ ts))
            else counted (t ∷ ts)))
          × (returned (tokenize (joined d t ts) maxtokens delim false)
              ≡ some (
                  if ltb maxtokens (length (t ∷ ts))
                  then (maxtokens + 1) % 256
                  else length (t ∷ ts)))
    unfolding tokenize
    tokenize-joined t ts maxtokens v all byte =
        let found =
          loop_tokens ts t (2 + length (joined d t ts)) maxtokens (omega arith) v all
          ∙ outcome-eq ts t maxtokens in
        (found, rw found (returned_same t ts maxtokens byte))
