-- ===== src/Config/Tests.antt =====
-- A driver that keeps the bytes in an array, and parameters in it.
use arctic_tracker_teensy.Base.{ℕ, zero, suc, ◌+◌, ◌≡◌, refl, List, [], ◌∷◌, arith, inr}
use arctic_tracker_teensy.Run.{update}
use arctic_tracker_teensy.Fbuf.Chain.{update_self, update_ne}
use arctic_tracker_teensy.Config.{Eeprom, set_param, get_param}
use arctic_tracker_teensy.Config.Blocks.{AllBytes}
use arctic_tracker_teensy.Config.Layout.{Param, size_of}
use arctic_tracker_teensy.Config.Params.{default, get_param_i, set_param_i}
use arctic_tracker_teensy.Config.Apart.{get_param_i-set_param_i}
use arctic_tracker_teensy.Config.Store.{get_param-set_param}

abbrev read_array : (ℕ → ℕ) → ℕ → ℕ → List ℕ
read_array s a zero = []
read_array s a (suc n) = s a ∷ read_array s (a + 1) n

abbrev write_array : (ℕ → ℕ) → ℕ → List ℕ → ℕ → ℕ
write_array s a [] = s
write_array s a (v ∷ vs) = write_array (update s a v) (a + 1) vs

abbrev pub array : Eeprom
array = record {
  State = ℕ → ℕ;
  read_byte = λ s a. s a;
  write_byte = λ s a v. update s a v;
  read_block = read_array;
  write_block = write_array;
  read-write = λ s a v _ _. update_self s a v;
  read-write_other = λ s a b v ne. update_ne s a v b ne;
  read_block-zero = λ s a. refl;
  read_block-suc = λ s a n _. refl;
  write_block-nil = λ s a. refl;
  write_block-cons = λ s a v vs _. refl;
}

abbrev pub erased : ℕ → ℕ
erased = λ _. 255

two-AllBytes : AllBytes (7 ∷ 200 ∷ [])
unfolding AllBytes
two-AllBytes = (omega arith, (omega arith, tt))

get_param-set_param_example :
    get_param array 40 2 (1 ∷ 2 ∷ []) (set_param array 40 (7 ∷ 200 ∷ []) erased) ≡ (7 ∷ 200 ∷ [], 0)
get_param-set_param_example =
    get_param-set_param array 40 erased (7 ∷ 200 ∷ []) (1 ∷ 2 ∷ []) two-AllBytes (omega arith)

-- A password of an access point is set, and the one of another is read.
get_param_i-set_param_i_example :
    get_param_i array Param.wifiap 5
      (set_param_i array Param.wifiap 4 (default Param.wifiap) erased)
    ≡ get_param_i array Param.wifiap 5 erased
unfolding default size_of
get_param_i-set_param_i_example =
    get_param_i-set_param_i Param.wifiap Param.wifiap 4 5 (inr (refl, omega arith))
      (inr (refl, omega arith)) array (default Param.wifiap) erased (inr (λ e. omega arith)) refl
