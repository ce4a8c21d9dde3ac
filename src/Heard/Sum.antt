-- ===== src/Heard/Sum.antt =====
-- checksum: what it comes to, and that it does not end on a long frame.
use arctic_tracker_teensy.Base.{
  ℕ, zero, suc, ◌+◌, ◌%◌, ◌≤◌, ◌<◌, ◌≡◌, ◌≢◌, refl, sym, ◌∙◌, ◌++◌, ◌==◌, inl, inr, List, [], ◌∷◌,
  arith, length, drop, length-drop, ltb, lt→ltb, ge→ltb, Bool-cases,
}
use arctic_tracker_teensy.Crc.{crc_ccitt_update, crc_bytes}
use arctic_tracker_teensy.Run.{Pool, Run, ok, fault, stuck, Cmd, pure, and_then, get_slot}
use arctic_tracker_teensy.Run.Returns
use arctic_tracker_teensy.Run.Returns.{Returns, returns}
use arctic_tracker_teensy.Fbuf.{Fbuf, rseek, get_char, advance}
use arctic_tracker_teensy.Fbuf.Buffer.{IsBuffer, all_bytes}
use arctic_tracker_teensy.Fbuf.Read.{ToRead, get_char-Got}
use arctic_tracker_teensy.Fbuf.Seek.{rseek-ToRead}
use arctic_tracker_teensy.Fbuf.Write.{until_nul}
use arctic_tracker_teensy.Ax25.{Addr}
use arctic_tracker_teensy.Heard.{sum_callsign, sum_addr, sum_loop, ax25_hdr_len, checksum}

-- The bytes that a packet is known by: the callsigns, each with its SSID behind it, and the
-- information field.
unfoldable pub known_by : Addr → Addr → List ℕ → List ℕ
known_by from to info =
    until_nul from.callsign ++ (from.ssid ∷ until_nul to.callsign ++ (to.ssid ∷ info))

crc-callsign :
    (crc : ℕ) (cs more : List ℕ)
    → crc_bytes crc (until_nul cs ++ more) ≡ crc_bytes (sum_callsign crc cs) more
unfolding crc_bytes sum_callsign until_nul
crc-callsign crc [] more = refl
crc-callsign crc (c ∷ cs) more = elim (Bool-cases (c == 0)) [
  | inl e ↦ rw e refl
  | inr e ↦ rw e (crc-callsign (crc_ccitt_update crc c) cs more)
]

crc-known_by :
    (from to : Addr) (info : List ℕ)
    → crc_bytes (sum_addr (sum_addr 0xFFFF from) to) info ≡ crc_bytes 0xFFFF (known_by from to info)
unfolding crc_bytes known_by
crc-known_by from to info = sym (
    crc-callsign 0xFFFF from.callsign _
    ∙ crc-callsign (sum_addr 0xFFFF from) to.callsign (to.ssid ∷ info))

sum_loop-crc :
    (n i crc : ℕ) (f : Fbuf) (p : Pool) (cs : List ℕ)
    → ToRead p.slot f cs
    → i + length cs ≡ f.length
    → f.length < 256
    → length cs < n
    → Returns (λ out q. (out.0 ≡ crc_bytes crc cs) × (q ≡ p)) (sum_loop n i crc f p)
unfolding sum_loop crc_bytes
sum_loop-crc zero i crc f p cs t count short enough = absurd (omega arith)
sum_loop-crc (suc n) i crc f p [] t count short enough =
    rw (ge→ltb i f.length (omega arith)) (returns (refl, refl))
sum_loop-crc (suc n) i crc f p (c ∷ cs) t count short enough =
    let step : (i + 1) % 256 ≡ i + 1 = omega arith in
    rw (lt→ltb i f.length (omega arith), step)
      (Returns.chain (get_char-Got p f c cs t) λ (c', f') q g.
        let same : f'.length ≡ f.length = g.same_chain.1 in
        let left = g.left in
        let rest =
          sum_loop-crc n (i + 1) (crc_ccitt_update crc c) f' p cs left (omega arith) (omega arith)
            (omega arith) in
        rw (g.same_pool, g.char) rest)

get_char-length :
    (f : Fbuf) (p : Pool) (out : ℕ × Fbuf) (q : Pool)
    → get_char f p ≡ ok out q
    → out.1.length ≡ f.length
unfolding get_char get_slot advance
get_char-length f p out q e = ground (arith, e)

moved-length :
    (b b' : Fbuf) (q : Pool) (r : Run (ℕ × ℕ))
    → and_then r (λ (s, i). pure (record b { rslot = s; rpos = i })) ≡ ok b' q
    → b'.length ≡ b.length
moved-length b b' q (ok (s, i) p) e = ground (arith, e)
moved-length b b' q fault e = ground (arith, e)
moved-length b b' q stuck e = ground (arith, e)

rseek-length :
    (b : Fbuf) (pos : ℕ) (p : Pool) (b' : Fbuf) (q : Pool)
    → rseek b pos p ≡ ok b' q
    → b'.length ≡ b.length
unfolding rseek
rseek-length b pos p b' q e = elim (Bool-cases (ltb b.length pos)) [
  | inl t ↦ let e' = rw t at e in ground (arith, e')
  | inr t ↦ let e' = rw t at e in moved-length b b' q _ e'
]

-- A command's result has also what holds of every result.
with_result :
    {A : Type 0} {P Q : A → Pool → Type 0} {r : Run A}
    → Returns P r
    → ((a : A) (q : Pool) → r ≡ ok a q → Q a q)
    → Returns (λ a q. P a q × Q a q) r
with_result (returns h) every = returns (h, every _ _ refl)

-- For a frame of at most 255 bytes that is longer than its header, with up to eight digipeaters,
-- checksum ends: it is the CRC of the callsign and the SSID of the source, those of the destination,
-- and the information field, from 0xFFFF on, and the pool is as it was.
pub checksum-crc :
    (p : Pool) (f : Fbuf) (front : List ℕ) (from to : Addr) (ndigis : ℕ)
    → IsBuffer p.slot f front
    → ndigis ≤ 8
    → ax25_hdr_len ndigis < f.length
    → f.length < 256
    → Returns
        (λ out q.
          (out.0
            ≡ crc_bytes 0xFFFF
                (known_by from to (drop (ax25_hdr_len ndigis) (all_bytes p.slot f front))))
          × (q ≡ p))
        (checksum 256 from to f ndigis p)
unfolding checksum
checksum-crc p f front from to ndigis v few long short =
    let start = ax25_hdr_len ndigis in
    let here : start % 256 ≡ start = omega arith in
    let counted = v.counted in
    let info = drop start (all_bytes p.slot f front) in
    let count = length-drop start (all_bytes p.slot f front) in
    let sought =
      with_result (rseek-ToRead p f front v start long (inl λ e. omega arith))
        (rseek-length f start p) in
    rw (here, ← (crc-known_by from to info))
      (Returns.chain sought λ f' q ((same_pool, ready), same). rw same_pool (
        sum_loop-crc 256 start (sum_addr (sum_addr 0xFFFF from) to) f' p info ready (omega arith)
          (omega arith) (omega arith)))

after_none :
    {A B : Type 0} {out : B} {q : Pool} (r : Run A) (k : A → Cmd B)
    → ((a : A) (p : Pool) → r ≡ ok a p → k a p ≢ ok out q)
    → and_then r k ≢ ok out q
after_none (ok a p) k none = none a p refl
after_none fault k none = λ e. cc
after_none stuck k none = λ e. cc

-- On a chain of more than 255 bytes the last loop of checksum never ends with a result, however
-- many rounds it is given: its 8-bit index never reaches the length.
pub sum_loop_endless :
    (n i crc : ℕ) (f : Fbuf) (p : Pool) (out : ℕ × Fbuf) (q : Pool)
    → i < 256
    → 255 < f.length
    → sum_loop n i crc f p ≢ ok out q
unfolding sum_loop
sum_loop_endless zero i crc f p out q byte long = λ e. cc
sum_loop_endless (suc n) i crc f p out q byte long = rw (lt→ltb i f.length (omega arith)) (
    after_none (get_char f p) _ λ (c, f') p' e.
      let same : f'.length ≡ f.length = get_char-length f p (c, f') p' e in
      sum_loop_endless n ((i + 1) % 256) (crc_ccitt_update crc c) f' p' out q (omega arith)
        (omega arith))
