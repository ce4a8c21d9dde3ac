-- ===== src/Tracker/Written.antt =====
-- The bytes of an object report in the compressed format.
use arctic_tracker_teensy.Base.{
  ℕ, ◌+◌, ◌/◌, ◌%◌, ◌<◌, ◌≡◌, ◌≢◌, refl, ap, ◌∙◌, inl, inr, Bool, false, List, [], ◌∷◌, ◌++◌, arith,
  length, length-append, ne→==, Bool-cases, if◌then◌else◌,
}
use arctic_tracker_teensy.Run.{◌>>=◌}
use arctic_tracker_teensy.Fbuf.{Fbuf, put_char, write}
use arctic_tracker_teensy.Fbuf.Write.{until_nul, put_str-write}
use arctic_tracker_teensy.Floats.{Floats}
use arctic_tracker_teensy.Printf.Digits.{padded_two}
use arctic_tracker_teensy.Ax25.{ftype_ui}
use arctic_tracker_teensy.Ax25.Bytes.{header_bytes}
use arctic_tracker_teensy.Ax25.Encode.{then_same, write_then, write-one, encode_header-write}
use arctic_tracker_teensy.Gps.{PosData}
use arctic_tracker_teensy.Gps.Times.{hour_of, minute_of, second_of}
use arctic_tracker_teensy.Tracker.{Params}
use arctic_tracker_teensy.Tracker.Packets.{
  pid_no_l3, path, send_header, timestamp, send_timestamp, base91, send_latlong_compressed,
  with_altitude, in_feet, send_altitude, send_course, send_cst_compressed, send_compressed,
  send_pos_report,
}
use arctic_tracker_teensy.Tracker.Base91.{put_base91-write}
use arctic_tracker_teensy.Tracker.Reports.{object_name, object_packet}
use arctic_tracker_teensy.Tracker.ObjectName.{NoNul, until_nul_same, length-object_name}
use mathlib.Core.Path

write-three :
    (x y z : ℕ) (b : Fbuf)
    → (put_char b x >>= λ b₁. put_char b₁ y >>= λ b₂. put_char b₂ z) ≡ write b (x ∷ y ∷ z ∷ [])
unfolding write
write-three x y z b =
    then_same (put_char b x) λ b₁. then_same (put_char b₁ y) λ b₂. Path.sym (write-one z b₂)

timestamp-NoNul : (t : ℕ) → until_nul (timestamp t) ≡ timestamp t
unfolding timestamp NoNul hour_of minute_of second_of
timestamp-NoNul t =
    let lh : t / 3600 % 24 < 100 = omega arith in
    let lm : t / 60 % 60 < 100 = omega arith in
    let ls : t % 60 < 100 = omega arith in
    until_nul_same _ (
      rw (padded_two (t / 3600 % 24) lh, padded_two (t / 60 % 60) lm, padded_two (t % 60) ls)
        (
          (λ e. omega arith),
          (
            (λ e. omega arith),
            (
              (λ e. omega arith),
              (
                (λ e. omega arith),
                ((λ e. omega arith), ((λ e. omega arith), ((λ e. omega arith), tt))),
              ),
            ),
          ),
        ))

length-timestamp : (t : ℕ) → length (timestamp t) ≡ 7
unfolding timestamp hour_of minute_of second_of
length-timestamp t =
    let lh : t / 3600 % 24 < 100 = omega arith in
    let lm : t / 60 % 60 < 100 = omega arith in
    let ls : t % 60 < 100 = omega arith in
    rw (padded_two (t / 3600 % 24) lh, padded_two (t / 60 % 60) lm, padded_two (t % 60) ls) refl

module _ (fl : Floats) (pr : Params) where
  -- The three characters behind the symbol: the altitude, or the course and the speed.
  unfoldable pub cst_bytes : PosData fl.F → List ℕ
  cst_bytes pos =
      let alt = fl.to_uint 32 (fl.div (fl.log (in_feet fl pos.altitude)) (fl.literal 1998 6)) in
      let speed =
        fl.to_uint 8 (fl.div (fl.log (fl.add pos.speed (fl.number 1))) (fl.literal 76961 6)) in
      if with_altitude fl pr pos
      then (alt / 91 + 33) % 256 ∷ (alt % 91 + 33) % 256 ∷ 49 ∷ []
      else (pos.course / 4 + 33) % 256 ∷ (speed + 33) % 256 ∷ 57 ∷ []

  send_cst-write :
      (pos : PosData fl.F) (b : Fbuf) → send_cst_compressed fl pr pos b ≡ write b (cst_bytes pos)
  unfolding send_cst_compressed send_altitude send_course cst_bytes
  send_cst-write pos b = elim (Bool-cases (with_altitude fl pr pos)) [
    | inl e ↦ rw e (write-three _ _ _ b)
    | inr e ↦ rw e (write-three _ _ _ b)
  ]

  -- A position in the compressed format: 13 characters.
  unfoldable pub compressed_bytes : PosData fl.F → ℕ → ℕ → List ℕ
  compressed_bytes pos sym symtab =
      symtab
        ∷ base91 (fl.to_uint 32 (fl.mul (fl.number 380926) (fl.sub (fl.number 90) pos.latitude)))
      ++ (base91 (fl.to_uint 32 (fl.mul (fl.number 190463) (fl.add (fl.number 180) pos.longitude)))
          ++ (sym ∷ cst_bytes pos))

  send_compressed-write :
      (pos : PosData fl.F) (sym symtab : ℕ) (b : Fbuf)
      → send_compressed fl pr pos sym symtab b ≡ write b (compressed_bytes pos sym symtab)
  unfolding send_compressed compressed_bytes send_latlong_compressed
  send_compressed-write pos sym symtab b =
      write_then (symtab ∷ []) _ b (Path.sym (write-one symtab b)) λ b₁.
        write_then (base91 _) _ b₁ (put_base91-write _ b₁) λ b₂.
          write_then (base91 _) _ b₂ (put_base91-write _ b₂)
            λ b₃. write_then (sym ∷ []) _ b₃ (Path.sym (write-one sym b₃)) (send_cst-write pos)

  length-compressed :
      (pos : PosData fl.F) (sym symtab : ℕ) → length (compressed_bytes pos sym symtab) ≡ 13
  unfolding compressed_bytes cst_bytes base91
  length-compressed pos sym symtab = elim (Bool-cases (with_altitude fl pr pos)) [
    | inl e ↦ rw e refl
    | inr e ↦ rw e refl
  ]

  -- The body of an object report: its name, whether it is live, the time and the position.
  unfoldable pub object_body : PosData fl.F → ℕ → Bool → List ℕ
  object_body pos n add =
      59 ∷ object_name n (until_nul pr.obj_id)
      ++ ((if add then 42 else 95) ∷ timestamp pos.timestamp
          ++ compressed_bytes pos pr.obj_symbol pr.obj_symbol_table)

  -- With COMPRESS_ON, report_object writes the header and a body of 31 characters: a semicolon, the
  -- name of nine, a star or an underscore, the time of seven and the position of thirteen.
  pub object_packet-write :
      (pos : PosData fl.F) (n : ℕ) (add : Bool) (b : Fbuf)
      → (pr.compress_on ≢ 0)
      → (object_packet fl pr pos (object_name n (until_nul pr.obj_id)) add b
          ≡ write b (
              header_bytes pr.mycall pr.dest (path pr false) ftype_ui pid_no_l3
              ++ object_body pos n add))
        × (length (object_body pos n add) ≡ 31)
  unfolding object_packet object_body send_header send_timestamp send_pos_report
  object_packet-write pos n add b on =
      let name = object_name n (until_nul pr.obj_id) in
      let (nine, whole) = length-object_name n pr.obj_id in
      let flag : ℕ = if add then 42 else 95 in
      rw (ne→== pr.compress_on 0 on) (
        write_then _ _ b
            (encode_header-write pr.mycall pr.dest (path pr false) ftype_ui pid_no_l3 b)
            λ b₁. write_then (59 ∷ []) _ b₁ (Path.sym (write-one 59 b₁)) λ b₂.
              write_then name _ b₂ (put_str-write b₂ name ∙ ap (write b₂) whole) λ b₃.
                write_then (flag ∷ []) _ b₃ (Path.sym (write-one flag b₃)) λ b₄.
                  write_then (timestamp pos.timestamp) _ b₄
                    (put_str-write b₄ (timestamp pos.timestamp)
                      ∙ ap (write b₄) (timestamp-NoNul pos.timestamp))
                    (send_compressed-write pos pr.obj_symbol pr.obj_symbol_table),
        omega (
          arith,
          nine,
          length-append name (
              flag ∷ timestamp pos.timestamp
              ++ compressed_bytes pos pr.obj_symbol pr.obj_symbol_table),
          length-append (timestamp pos.timestamp)
              (compressed_bytes pos pr.obj_symbol pr.obj_symbol_table),
          length-timestamp pos.timestamp,
          length-compressed pos pr.obj_symbol pr.obj_symbol_table,
        ),
      )
