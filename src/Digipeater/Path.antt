-- ===== src/Digipeater/Path.antt =====
-- The path that check_frame gives to a frame.
use arctic_tracker_teensy.Base.{
  ℕ, suc, ◌+◌, ◌≡◌, ◌≢◌, ◌≤◌, refl, sym, ap, ◌∙◌, inl, inr, Bool, ◌&&◌, Option, none, some, List,
  [], ◌∷◌, ◌++◌, length, length-append, append_assoc, arith, Bool-cases, bit_and, ◌==◌, ==→eq,
  ==→ne, ltb, ltb→ge, lt→ltb,
}
use arctic_tracker_teensy.Ax25.{Addr}
use arctic_tracker_teensy.Digipeater.{
  flag_digi, in_front, alias, sar, wide1, is_used, used, unused, is_sar, is_wide1, without_sar,
  preempted, repeated, renewed, overrun, in_array, written, new_path,
}

used-unused : (digis : List Addr) → length (used digis) + length (unused digis) ≡ length digis
unfolding used unused
used-unused [] = refl
used-unused (d ∷ ds) = elim (Bool-cases (is_used d)) [
  | inl e ↦ rw e (omega (arith, used-unused ds))
  | inr e ↦ rw e (omega arith)
]

some_same : (xs ys : List Addr) → some xs ≡ some ys → xs ≡ ys
some_same xs ys e = cc e

in_front-length :
    (d : Addr) (o : Option (List Addr)) (rest : List Addr) (n : ℕ)
    → ((ds : List Addr) → o ≡ some ds → suc (length ds) ≡ n)
    → in_front d o ≡ some rest
    → length rest ≡ n
in_front-length d none rest n every e = cc e
in_front-length d (some ds) rest n every e =
    ap length (sym (some_same (d ∷ ds) rest e)) ∙ every ds refl

-- Bit 7 of the flags of all of them is set.
unfoldable pub AllUsed : List Addr → Type 0
AllUsed [] = Unit
AllUsed (d ∷ ds) = (bit_and d.flags 0x80 ≢ 0) × AllUsed ds

used-AllUsed : (digis : List Addr) → AllUsed (used digis)
unfolding used AllUsed
used-AllUsed [] = tt
used-AllUsed (d ∷ ds) = elim (Bool-cases (bit_and d.flags 0x80 == 0)) [
  | inl e ↦ rw e tt
  | inr e ↦ rw e (==→ne _ _ e, used-AllUsed ds)
]

unused_first :
    (digis : List Addr)
    → unused digis ≢ []
    → (d : Addr) × ((rest : List Addr) × ((digis ≡ used digis ++ (d ∷ rest))
          × (bit_and d.flags 0x80 ≡ 0)))
unfolding used unused
unused_first [] more = absurd (more refl)
unused_first (d ∷ ds) more = elim (Bool-cases (bit_and d.flags 0x80 == 0)) [
  | inl e ↦ (d, (ds, (rw e refl, ==→eq _ _ e)))
  | inr e ↦
      let (next, (rest, (parts, still))) = unused_first ds (λ none_left. more (rw e none_left)) in
      (next, (rest, (rw e (ap (λ xs. d ∷ xs) parts), still)))
]

-- How a path goes on from that of the frame.
pub record Repeated (own : Addr) (digis path : List Addr) : Type 0 where
  pub front : List Addr
  pub next : Addr
  pub rest : List Addr
  pub tail : List Addr
  pub parts : digis ≡ front ++ (next ∷ rest)
  pub been : AllUsed front
  pub still : bit_and next.flags 0x80 ≡ 0
  pub shape : path ≡ front ++ (own ∷ tail)
  pub longer : length path ≡ suc (length digis)
  pub fits : length path ≤ 7

renewed_same : (xs ys : List Addr) → renewed xs ≡ renewed ys → xs ≡ ys
renewed_same xs ys e = cc e

in_array-renewed :
    (o : Option (List Addr)) (path : List Addr)
    → in_array o ≡ renewed path
    → (o ≡ some path) × (length path ≤ 7)
in_array-renewed none path e = cc e
in_array-renewed (some ds) path e = elim (Bool-cases (ltb 7 (length ds))) [
  | inl t ↦ let e' = rw t at e in cc e'
  | inr t ↦
      let e' = rw t at e in
      let same = renewed_same ds path e' in (ap some same, rw same at (ltb→ge 7 (length ds) t))
]

module _ (strncasecmp : List ℕ → List ℕ → ℕ → ℕ) where
  without_sar-length :
      (ds rest : List Addr) → without_sar strncasecmp ds ≡ some rest → suc (length rest) ≡ length ds
  unfolding without_sar
  without_sar-length [] rest e = cc e
  without_sar-length (d ∷ ds) rest e = elim (Bool-cases (is_sar strncasecmp d)) [
    | inl t ↦
        let e' = rw t at e in ap (λ (xs : List Addr). suc (length xs)) (sym (some_same ds rest e'))
    | inr t ↦
        let e' = rw t at e in
        ap suc (
          in_front-length d (without_sar strncasecmp ds) rest (length ds) (without_sar-length ds)
            e')
  ]

  preempted-length :
      (sar_on : Bool) (digis rest : List Addr)
      → preempted strncasecmp sar_on digis ≡ some rest
      → (suc (length rest) ≡ length digis) × (used digis ≡ [])
  unfolding used
  preempted-length sar_on [] rest e = cc e
  preempted-length sar_on (d ∷ ds) rest e = elim (Bool-cases (is_used d)) [
    | inl t ↦
        let e' = rw t at e in
        elim (Bool-cases sar_on) [
          | inl on ↦ let e'' = rw on at e' in cc e''
          | inr off ↦ let e'' = rw off at e' in cc e''
        ]
    | inr t ↦
        let e' = rw t at e in
        elim (Bool-cases sar_on) [
          | inl on ↦ let e'' = rw on at e' in (without_sar-length (d ∷ ds) rest e'', rw t refl)
          | inr off ↦ let e'' = rw off at e' in cc e''
        ]
  ]

  repeated-length :
      (wide1_on : Bool) (front rest path : List Addr) (taken : Option (List Addr))
      → ((ds : List Addr) → taken ≡ some ds → suc (length ds) ≡ length rest)
      → repeated strncasecmp wide1_on front rest taken ≡ some path
      → length path ≡ length front + length rest
  repeated-length wide1_on front [] path taken every e = cc e
  repeated-length wide1_on front (d ∷ ds) path (some left) every e =
      let same = some_same (front ++ (alias sar ∷ left)) path e in
      let n = every left refl in
      let total = length-append front (alias sar ∷ left) in
      ap length (sym same) ∙ omega (arith, n, total)
  repeated-length wide1_on front (d ∷ ds) path none every e =
      elim (Bool-cases (wide1_on && is_wide1 strncasecmp d)) [
        | inl t ↦
            let e' = rw t at e in
            let same = some_same (front ++ (alias wide1 ∷ ds)) path e' in
            ap length (sym same) ∙ length-append front (alias wide1 ∷ ds)
        | inr t ↦ let e' = rw t at e in cc e'
      ]

  -- The path of a repeated frame is always one longer than the path that it came with.
  written-length :
      (wide1_on sar_on : Bool) (mycall : Addr) (digis path : List Addr)
      → written strncasecmp wide1_on sar_on mycall digis ≡ some path
      → length path ≡ suc (length digis)
  unfolding written
  written-length wide1_on sar_on mycall digis path e =
      let own : Addr = record mycall { flags = flag_digi } in
      let parts = used-unused digis in
      let every : (ds : List Addr)
          → preempted strncasecmp sar_on digis ≡ some ds
          → suc (length ds) ≡ length (unused digis) =
        λ ds t.
          let (n, none_used) = preempted-length sar_on digis ds t in
          let zero_used = ap (λ (xs : List Addr). length xs) none_used in
          omega (arith, n, zero_used, parts) in
      let n =
        repeated-length wide1_on (used digis ++ (own ∷ [])) (unused digis) path
          (preempted strncasecmp sar_on digis) every e in
      let m = length-append (used digis) (own ∷ []) in omega (arith, n, m, parts)

  repeated-front :
      (wide1_on : Bool) (front rest path : List Addr) (taken : Option (List Addr))
      → repeated strncasecmp wide1_on front rest taken ≡ some path
      → (ds : List Addr) × (path ≡ front ++ ds)
  repeated-front wide1_on front [] path taken e = cc e
  repeated-front wide1_on front (d ∷ ds) path (some left) e =
      (alias sar ∷ left, sym (some_same (front ++ (alias sar ∷ left)) path e))
  repeated-front wide1_on front (d ∷ ds) path none e =
      elim (Bool-cases (wide1_on && is_wide1 strncasecmp d)) [
        | inl t ↦
            let e' = rw t at e in
            (alias wide1 ∷ ds, sym (some_same (front ++ (alias wide1 ∷ ds)) path e'))
        | inr t ↦ let e' = rw t at e in cc e'
      ]

  written-front :
      (wide1_on sar_on : Bool) (mycall : Addr) (digis path : List Addr)
      → written strncasecmp wide1_on sar_on mycall digis ≡ some path
      → (unused digis ≢ [])
        × ((ds : List Addr) × (path ≡ used digis ++ (record mycall { flags = flag_digi } ∷ ds)))
  unfolding written
  written-front wide1_on sar_on mycall digis path e =
      let own : Addr = record mycall { flags = flag_digi } in
      let (ds, same) =
        repeated-front wide1_on (used digis ++ (own ∷ [])) (unused digis) path
          (preempted strncasecmp sar_on digis) e in
      (
        λ all_used. let e' = rw all_used at e in cc e',
        (ds, same ∙ append_assoc (used digis) (own ∷ []) ds),
      )

  -- A frame that check_frame repeats has been through some digipeaters, the first of its path, which
  -- have bit 7 of their flags set, and not through the next one, which has not. Its new path begins
  -- with those that it has been through, as they were, and then the own call, marked as used. It is
  -- one longer than the old one, and has at most seven addresses.
  pub new_path-front :
      (wide1_on sar_on : Bool) (mycall : Addr) (digis path : List Addr)
      → new_path strncasecmp wide1_on sar_on mycall digis ≡ renewed path
      → Repeated (record mycall { flags = 0x80 }) digis path
  unfolding new_path
  new_path-front wide1_on sar_on mycall digis path e =
      let w = in_array-renewed (written strncasecmp wide1_on sar_on mycall digis) path e in
      let (more, (tail, shape)) = written-front wide1_on sar_on mycall digis path w.0 in
      let n = written-length wide1_on sar_on mycall digis path w.0 in
      let (d, (rest, (parts, still))) = unused_first digis more in
      record {
        front = used digis;
        next = d;
        rest = rest;
        tail = tail;
        parts = parts;
        been = used-AllUsed digis;
        still = still;
        shape = shape;
        longer = n;
        fits = w.1;
      }

  -- Where check_frame repeats a frame with seven digipeaters, it writes behind its array.
  pub new_path-overrun :
      (wide1_on sar_on : Bool) (mycall : Addr) (digis path : List Addr)
      → length digis ≡ 7
      → written strncasecmp wide1_on sar_on mycall digis ≡ some path
      → new_path strncasecmp wide1_on sar_on mycall digis ≡ overrun
  unfolding new_path
  new_path-overrun wide1_on sar_on mycall digis path seven e =
      let n = written-length wide1_on sar_on mycall digis path e in
      rw (e, lt→ltb 7 (length path) (omega arith)) refl
