-- ===== src/Hdlc/Window.antt =====
-- get_bit at the level of bits: what is left of the window and the queue is one list of bits, and
-- get_bit takes a flag or a bit off its front.
use arctic_tracker_teensy.Base.{
  ℕ, zero, suc, ◌+◌, ◌*◌, ◌/◌, ◌%◌, ◌^◌, ◌≤◌, ◌<◌, ◌≡◌, refl, sym, ap, ap₂, ◌∙◌, inl, inr, true,
  some, List, [], ◌∷◌, ◌++◌, append_assoc, arith, length, length-append, bit_or, ltb, ◌==◌, ==→eq,
  eq→==, lt→ltb, ltb→lt, ltb→ge, if◌then◌else◌, Bool-cases,
}
use arctic_tracker_teensy.Base.Bytes.{all_below, all_below_sound}
use arctic_tracker_teensy.Base.Bits.{bit_or_step, zero-bit_or}
use arctic_tracker_teensy.Hdlc.{hdlc_flag, bits, bits_of}
use arctic_tracker_teensy.Hdlc.Stuffing.{AllBytes, same_bits}
use arctic_tracker_teensy.Hdlc.Decoder.{Window, take_byte, fill}
use native.Mathlib.Nat.{pow-zero, two-pow-succ}

-- The bits still to come.
unfoldable pub ahead : Window → List ℕ
ahead w = bits w.bit_count w.bits ++ bits_of w.inq

-- The window has fewer than 16 bits, and none beyond its count.
pub record IsWindow (w : Window) : Type 0 where
  pub short : w.bit_count < 16
  pub clean : w.bits < 2 ^ w.bit_count
  pub bytes : AllBytes w.inq

pub length-bits : (n v : ℕ) → length (bits n v) ≡ n
unfolding bits
length-bits zero v = refl
length-bits (suc n) v = ap suc (length-bits n (v / 2))

pub bits-more : (k v : ℕ) → bits (k + 8) v ≡ bits 8 v ++ bits k (v / 256)
unfolding bits
bits-more k v =
    let e : k + 8 ≡ suc (suc (suc (suc (suc (suc (suc (suc k))))))) = omega arith in
    let q : v / 2 / 2 / 2 / 2 / 2 / 2 / 2 / 2 ≡ v / 256 = omega arith in rw (e, q) refl

pub head_same : (x y : ℕ) (xs ys : List ℕ) → x ∷ xs ≡ y ∷ ys → x ≡ y
head_same x y xs ys e = cc e

pub tail_same : (x y : ℕ) (xs ys : List ℕ) → x ∷ xs ≡ y ∷ ys → xs ≡ ys
tail_same x y xs ys e = cc e

same_bits_complete : (xs ys : List ℕ) → xs ≡ ys → same_bits xs ys ≡ true
unfolding same_bits
same_bits_complete [] [] e = refl
same_bits_complete [] (y ∷ ys) e = cc e
same_bits_complete (x ∷ xs) [] e = cc e
same_bits_complete (x ∷ xs) (y ∷ ys) e =
    rw (eq→== x y (head_same x y xs ys e)) (same_bits_complete xs ys (tail_same x y xs ys e))

-- A byte behind `c` bits.
bits-or :
    (c v byte : ℕ) → v < 2 ^ c → bits (c + 8) (bit_or v (byte * 2 ^ c)) ≡ bits c v ++ bits 8 byte
unfolding bits
bits-or zero v byte lt =
    let none_left : v ≡ 0 = omega (arith, pow-zero 2) in
    let whole : byte * 2 ^ zero ≡ byte = omega (arith, pow-zero 2) in
    rw (none_left, whole, zero-bit_or byte) refl
bits-or (suc c) v byte lt =
    let m = byte * 2 ^ c in
    let double : byte * 2 ^ suc c ≡ 2 * m = rw (two-pow-succ c) (omega arith) in
    let half : v / 2 < 2 ^ c = omega (arith, two-pow-succ c) in
    let step = bit_or_step v (2 * m) in
    let low : 2 * m % 2 ≡ 0 = omega arith in
    let high : 2 * m / 2 ≡ m = omega arith in
    let n : suc c + 8 ≡ suc (c + 8) = omega arith in
    let step' = rw (low, high) at step in
    let bit : bit_or v (2 * m) % 2 ≡ v % 2 = omega (arith, step') in
    let rest : bit_or v (2 * m) / 2 ≡ bit_or (v / 2) m = omega (arith, step') in
    rw (double, n, bit, rest) (ap (λ ys. v % 2 ∷ ys) (bits-or c (v / 2) byte half))

or-lt : (c v byte : ℕ) → v < 2 ^ c → byte < 256 → bit_or v (byte * 2 ^ c) < 2 ^ (c + 8)
or-lt zero v byte lt small =
    let none_left : v ≡ 0 = omega (arith, pow-zero 2) in
    let whole : byte * 2 ^ zero ≡ byte = omega (arith, pow-zero 2) in
    rw (none_left, whole, zero-bit_or byte) small
or-lt (suc c) v byte lt small =
    let m = byte * 2 ^ c in
    let double : byte * 2 ^ suc c ≡ 2 * m = rw (two-pow-succ c) (omega arith) in
    let half : v / 2 < 2 ^ c = omega (arith, two-pow-succ c) in
    let step = bit_or_step v (2 * m) in
    let low : 2 * m % 2 ≡ 0 = omega arith in
    let high : 2 * m / 2 ≡ m = omega arith in
    let n : suc c + 8 ≡ suc (c + 8) = omega arith in
    let step' = rw (low, high) at step in
    let ih = or-lt c (v / 2) byte half small in
    rw (double, n) (omega (arith, step', ih, two-pow-succ (c + 8)))

shift_table : all_below 8 (λ c. all_below 256 (λ b. ltb (b * 2 ^ c) 65536)) ≡ true
unfolding all_below
shift_table = refl

shift-lt : (c b : ℕ) → c < 8 → b < 256 → b * 2 ^ c % 65536 ≡ b * 2 ^ c
shift-lt c b p q =
    let t = all_below_sound 256 _ b (all_below_sound 8 _ c shift_table p) q in
    let lt = ltb→lt (b * 2 ^ c) 65536 t in omega (arith, lt)

-- The window after its queue has been read.
pub record Filled (w : Window) : Type 0 where
  pub next : Window
  pub result : fill w ≡ some next
  pub valid : IsWindow next
  pub enough : 8 ≤ next.bit_count
  pub same : ahead next ≡ ahead w

fill-take :
    (w : Window) (byte : ℕ) (rest : List ℕ)
    → w.inq ≡ byte ∷ rest
    → IsWindow w
    → w.bit_count < 8
    → Filled w
unfolding fill ahead AllBytes bits_of
fill-take w byte rest e v few =
    let clean = v.clean in
    let all : AllBytes (byte ∷ rest) = rw e at (v.bytes) in
    let byte_small : byte < 256 = all.0 in
    let whole = shift-lt w.bit_count byte few byte_small in
    let count : (w.bit_count + 8) % 256 ≡ w.bit_count + 8 = omega arith in
    record {
      next = take_byte byte rest w;
      result = rw (lt→ltb w.bit_count 8 few, e) refl;
      valid = record {
        short = omega arith;
        clean = rw (whole, count) (or-lt w.bit_count w.bits byte clean byte_small);
        bytes = all.1;
      };
      enough = omega arith;
      same =
          rw (whole, count, bits-or w.bit_count w.bits byte clean, e)
            (append_assoc (bits w.bit_count w.bits) (bits 8 byte) (bits_of rest));
    }

pub length-bits_of : (bs : List ℕ) → 0 < length (bits_of bs) → 0 < length bs
unfolding bits_of
length-bits_of [] lt = lt
length-bits_of (b ∷ bs) lt = omega arith

pub fill-Filled : (w : Window) → IsWindow w → 8 ≤ length (ahead w) → Filled w
unfolding fill ahead
fill-Filled w v long = elim (Bool-cases (ltb w.bit_count 8)) [
  | inr e ↦ record {
    next = w;
    result = rw e refl;
    valid = v;
    enough = ltb→ge w.bit_count 8 e;
    same = refl;
  }
  | inl e ↦
      let few = ltb→lt w.bit_count 8 e in
      let parts = length-append (bits w.bit_count w.bits) (bits_of w.inq) in
      let own = length-bits w.bit_count w.bits in
      let more = length-bits_of w.inq (omega (arith, parts, own)) in uncons w.inq refl more few
]
  where
    uncons : (bs : List ℕ) → w.inq ≡ bs → 0 < length bs → w.bit_count < 8 → Filled w
    uncons [] e lt few = absurd (omega arith)
    uncons (b ∷ bs) e lt few = fill-take w b bs e v few

pub append_same :
    (xs cs ys ds : List ℕ) → length xs ≡ length ys → xs ++ cs ≡ ys ++ ds → (xs ≡ ys) × (cs ≡ ds)
append_same [] cs [] ds n e = (refl, e)
append_same [] cs (y ∷ ys) ds n e = absurd (omega arith)
append_same (x ∷ xs) cs [] ds n e = absurd (omega arith)
append_same (x ∷ xs) cs (y ∷ ys) ds n e =
    let (same, rest) = append_same xs cs ys ds (omega arith) (tail_same x y _ _ e) in
    (ap₂ ◌∷◌ (head_same x y _ _ e) same, rest)

-- The flag, as a list of bits.
abbrev pub flag : List ℕ
flag = 0 ∷ 1 ∷ 1 ∷ 1 ∷ 1 ∷ 1 ∷ 1 ∷ 0 ∷ []

flag_table : all_below 256 (λ r. if same_bits (bits 8 r) flag then r == hdlc_flag else true) ≡ true
unfolding all_below same_bits bits
flag_table = refl

bits-low : (v : ℕ) → bits 8 v ≡ bits 8 (v % 256)
unfolding bits
bits-low v =
    let e0 : v % 256 % 2 ≡ v % 2 = omega arith in
    let e1 : v % 256 / 2 % 2 ≡ v / 2 % 2 = omega arith in
    let e2 : v % 256 / 2 / 2 % 2 ≡ v / 2 / 2 % 2 = omega arith in
    let e3 : v % 256 / 2 / 2 / 2 % 2 ≡ v / 2 / 2 / 2 % 2 = omega arith in
    let e4 : v % 256 / 2 / 2 / 2 / 2 % 2 ≡ v / 2 / 2 / 2 / 2 % 2 = omega arith in
    let e5 : v % 256 / 2 / 2 / 2 / 2 / 2 % 2 ≡ v / 2 / 2 / 2 / 2 / 2 % 2 = omega arith in
    let e6 : v % 256 / 2 / 2 / 2 / 2 / 2 / 2 % 2 ≡ v / 2 / 2 / 2 / 2 / 2 / 2 % 2 = omega arith in
    let e7 : v % 256 / 2 / 2 / 2 / 2 / 2 / 2 / 2 % 2 ≡ v / 2 / 2 / 2 / 2 / 2 / 2 / 2 % 2 =
      omega arith in
    rw (e0, e1, e2, e3, e4, e5, e6, e7) refl

pub is_flag : (v : ℕ) → bits 8 v ≡ flag → v % 256 ≡ hdlc_flag
is_flag v e =
    let t = all_below_sound 256 _ (v % 256) flag_table (omega arith) in
    let same = same_bits_complete (bits 8 (v % 256)) flag (sym (bits-low v) ∙ e) in
    let t' = rw same at t in ==→eq _ _ t'

pub bits_flag : (v : ℕ) → v % 256 ≡ hdlc_flag → bits 8 v ≡ flag
unfolding bits
bits_flag v e = rw (bits-low v, e) refl
