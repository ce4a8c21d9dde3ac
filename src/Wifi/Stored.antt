-- ===== src/Wifi/Stored.antt =====
-- A text setting that cmd_setParm stored is what cmd_getParm prints.
use arctic_tracker_teensy.Base.{
  ℕ, zero, suc, ◌<◌, ◌≤◌, ◌≡◌, refl, sym, ap, ◌∙◌, Option, some, List, [], ◌∷◌, ◌++◌, take, length,
  length-take, arith, ne→==, length-append, ap₂,
}
use arctic_tracker_teensy.Tracker.ObjectName.{NoNul}
use arctic_tracker_teensy.Config.{Eeprom, get_param, set_param}
use arctic_tracker_teensy.Config.Blocks.{AllBytes}
use arctic_tracker_teensy.Config.Store.{get_param-set_param}
use arctic_tracker_teensy.Config.Apart.{param_inside}
use arctic_tracker_teensy.Config.Layout.{Param, offset, size_of}
use arctic_tracker_teensy.Config.Params.{default, get, set}
use arctic_tracker_teensy.Wifi.{said, find, c_text, say}
use arctic_tracker_teensy.Wifi.Read.{getters, Getter, answer, answer_found, cmd_get_parm}
use arctic_tracker_teensy.Wifi.Write.{setters, Setter, block, store, store_found, cmd_set_parm}

-- The string in front of a NUL is read back, where the block has room for both.
c_text-block :
    (behind : List ℕ) (size : ℕ) (val : List ℕ)
    → NoNul val
    → length val < size
    → c_text (block behind size val) ≡ some val
unfolding c_text block NoNul
c_text-block behind zero val string room = absurd (omega arith)
c_text-block behind (suc size) [] string room = refl
c_text-block behind (suc size) (c ∷ cs) string room =
    rw (ne→== c 0 string.0, c_text-block behind size cs string.1 (omega arith)) refl

length-block :
    (behind : List ℕ) (size : ℕ) (val : List ℕ)
    → size ≤ length behind
    → length (block behind size val) ≡ size
unfolding block
length-block behind size val long =
    length-take size (val ++ (0 ∷ behind)) (omega (arith, length-append val (0 ∷ behind)))

take-AllBytes : (n : ℕ) (xs : List ℕ) → AllBytes xs → AllBytes (take n xs)
unfolding AllBytes
take-AllBytes zero xs all = tt
take-AllBytes (suc n) [] all = tt
take-AllBytes (suc n) (x ∷ xs) all = (all.0, take-AllBytes n xs all.1)

append-AllBytes : (xs ys : List ℕ) → AllBytes xs → AllBytes ys → AllBytes (xs ++ ys)
unfolding AllBytes
append-AllBytes [] ys xs_all ys_all = ys_all
append-AllBytes (x ∷ xs) ys xs_all ys_all = (xs_all.0, append-AllBytes xs ys xs_all.1 ys_all)

block-AllBytes :
    (behind : List ℕ) (size : ℕ) (val : List ℕ)
    → AllBytes val
    → AllBytes behind
    → AllBytes (block behind size val)
unfolding block AllBytes
block-AllBytes behind size val all behind_all =
    take-AllBytes size (val ++ (0 ∷ behind))
      (append-AllBytes val (0 ∷ behind) all (omega arith, behind_all))

module _ (ee : Eeprom) (behind : List ℕ) (strncasecmp : List ℕ → List ℕ → ℕ → ℕ)
    (scan : ℕ → List ℕ → Option ℕ) (x : Param) (val : List ℕ) (s : ee.State) where
  get-set :
      (bytes : List ℕ)
      → AllBytes bytes
      → length bytes ≡ size_of x
      → get ee x (set ee x bytes s) ≡ bytes
  unfolding get set
  get-set bytes all long =
      ap (λ n. (get_param ee (offset x) n (default x) (set_param ee (offset x) bytes s)).0)
        (sym long)
      ∙ ap (λ (r : List ℕ × ℕ). r.0)
          (get_param-set_param ee (offset x) s bytes (default x) all (rw long (param_inside x)))

  answer-store :
      NoNul val
      → AllBytes val
      → AllBytes behind
      → length val < size_of x
      → size_of x ≤ length behind
      → answer ee (Getter.text x) (store ee behind strncasecmp scan (Setter.text x) val s).1
        ≡ said val
  unfolding answer store say
  answer-store string all behind_all room long =
      let bytes = block behind (size_of x) val in
      let back =
        get-set bytes (block-AllBytes behind (size_of x) val all behind_all)
          (length-block behind (size_of x) val long) in
      ap (λ b. say (c_text b)) back ∙ ap say (c_text-block behind (size_of x) val string room)

  -- Where both commands know the name as that of one text parameter, and the value is a string
  -- that the parameter has room for, cmd_getParm prints what cmd_setParm stored.
  pub cmd_get_parm-cmd_set_parm :
      (p : List ℕ)
      → find p setters ≡ some (Setter.text x)
      → find p getters ≡ some (Getter.text x)
      → NoNul val
      → AllBytes val
      → AllBytes behind
      → length val < size_of x
      → size_of x ≤ length behind
      → cmd_get_parm ee p (cmd_set_parm ee behind strncasecmp scan p val s).1 ≡ said val
  unfolding cmd_get_parm cmd_set_parm
  cmd_get_parm-cmd_set_parm p set_text get_text string all behind_all room long =
      ap₂
        (λ (o : Option Setter) (f : Option Getter).
          answer_found ee f p (store_found ee behind strncasecmp scan o p val s).1)
        set_text get_text
      ∙ answer-store string all behind_all room long
