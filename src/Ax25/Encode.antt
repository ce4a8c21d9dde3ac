-- ===== src/Ax25/Encode.antt =====
-- ax25_encode_header writes the bytes of the header.
use arctic_tracker_teensy.Base.{
  ℕ, zero, suc, ◌≡◌, refl, sym, ap, ◌∙◌, inl, inr, List, [], ◌∷◌, ◌++◌, ◌==◌, bit_or, Bool-cases,
}
use arctic_tracker_teensy.Run.{Cmd, ◌>>=◌}
use arctic_tracker_teensy.Run.Monad.{bind_pure, bind_assoc}
use arctic_tracker_teensy.Fbuf.{Fbuf, put_char, write}
use arctic_tracker_teensy.Ax25.{
  Addr, flag_last, encode_addr_loop, ssid_byte, encode_addr, encode_digis, allowed, has_pid,
  encode_ctrl, encode_header,
}
use arctic_tracker_teensy.Ax25.Bytes.{
  callsign_bytes, addr_bytes, digis_bytes, ctrl_bytes, header_bytes,
}
use mathlib.Core.Path.{fun_ext}

-- The same command goes on in the same way.
pub then_same :
    {A B : Type 0} (m : Cmd A) {f g : A → Cmd B} → ((a : A) → f a ≡ g a) → (m >>= f) ≡ (m >>= g)
then_same {A} {B} m same = ap (λ (k : A → Cmd B). m >>= k) (fun_ext same)

pub write-one : (c : ℕ) (b : Fbuf) → write b (c ∷ []) ≡ put_char b c
unfolding write
write-one c b = bind_pure (put_char b c)

write-two : (xs ys : List ℕ) (b : Fbuf) → write b (xs ++ ys) ≡ (write b xs >>= λ b'. write b' ys)
unfolding write
write-two [] ys b = refl
write-two (x ∷ xs) ys b =
    then_same (put_char b x) (λ b'. write-two xs ys b') ∙ sym (bind_assoc (put_char b x) _ _)

-- One write, then another.
pub write_then :
    (xs ys : List ℕ) (b : Fbuf) {m : Cmd Fbuf} {k : Fbuf → Cmd Fbuf}
    → m ≡ write b xs
    → ((b' : Fbuf) → k b' ≡ write b' ys)
    → (m >>= k) ≡ write b (xs ++ ys)
write_then xs ys b {m} {k} e f =
    ap (λ (n : Cmd Fbuf). n >>= k) e ∙ then_same (write b xs) f ∙ sym (write-two xs ys b)

encode_addr_loop-write :
    (n : ℕ) (c : List ℕ) (b : Fbuf) → encode_addr_loop n c b ≡ write b (callsign_bytes n c)
unfolding encode_addr_loop callsign_bytes write
encode_addr_loop-write zero c b = refl
encode_addr_loop-write (suc n) [] b = then_same (put_char b _) (encode_addr_loop-write n [])
encode_addr_loop-write (suc n) (x ∷ c) b = elim (Bool-cases (x == 0)) [
  | inl e ↦ rw e (then_same (put_char b _) (encode_addr_loop-write n (x ∷ c)))
  | inr e ↦ rw e (then_same (put_char b _) (encode_addr_loop-write n c))
]

encode_addr-write :
    (a : Addr) (flags : ℕ) (b : Fbuf) → encode_addr a flags b ≡ write b (addr_bytes a flags)
unfolding encode_addr
encode_addr-write a flags b =
    write_then (callsign_bytes 6 a.callsign) (ssid_byte a.ssid flags ∷ []) b
      (encode_addr_loop-write 6 a.callsign b) (λ b'. sym (write-one _ b'))

encode_digis-write : (ds : List Addr) (b : Fbuf) → encode_digis ds b ≡ write b (digis_bytes ds)
unfolding encode_digis digis_bytes write
encode_digis-write [] b = refl
encode_digis-write (d ∷ []) b = encode_addr-write d (bit_or d.flags flag_last) b
encode_digis-write (d ∷ e ∷ ds) b =
    write_then (addr_bytes d (bit_or d.flags 0)) (digis_bytes (e ∷ ds)) b
      (encode_addr-write d (bit_or d.flags 0) b) (encode_digis-write (e ∷ ds))

encode_ctrl-write :
    (ctrl pid : ℕ) (b : Fbuf) → encode_ctrl ctrl pid b ≡ write b (ctrl_bytes ctrl pid)
unfolding encode_ctrl write
encode_ctrl-write ctrl pid b = elim (Bool-cases (has_pid ctrl)) [
  | inl e ↦ rw e (then_same (put_char b ctrl) (λ b'. sym (write-one pid b')))
  | inr e ↦ rw e refl
]

-- ax25_encode_header is fbuf_write of the header's bytes: destination, source, path, control field
-- and, in an I or UI frame, the PID. A path of more than seven addresses is left out.
pub encode_header-write :
    (from to : Addr) (digis : List Addr) (ctrl pid : ℕ) (b : Fbuf)
    → encode_header from to digis ctrl pid b ≡ write b (header_bytes from to digis ctrl pid)
unfolding encode_header
encode_header-write from to digis ctrl pid b =
    write_then (addr_bytes to 0) _ b (encode_addr-write to 0 b) λ b₁.
      write_then (addr_bytes from _) _ b₁ (encode_addr-write from _ b₁) λ b₂.
        write_then (digis_bytes (allowed digis)) (ctrl_bytes ctrl pid) b₂
          (encode_digis-write (allowed digis) b₂) (encode_ctrl-write ctrl pid)
