-- ===== src/Digipeater/Repeat.antt =====
-- digipeater.c: check_frame as a whole, and a round of the digipeater's thread.
use arctic_tracker_teensy.Base.{ℕ, Bool, List, ltb, ◌==◌, if◌then◌else◌}
use arctic_tracker_teensy.Run.{fault, Cmd, pure, ◌>>=◌}
use arctic_tracker_teensy.Ax25.{Addr, Header, decode_header, encode_header}
use arctic_tracker_teensy.Heard.{HeardList, duplicate, ax25_hdr_len}
use arctic_tracker_teensy.Fbuf.{Fbuf, new, release}
use arctic_tracker_teensy.Fbuf.Join.{connect}
use arctic_tracker_teensy.Fbuf.Queue.{Fbq, put, get}
use arctic_tracker_teensy.Digipeater.{NewPath, silent, renewed, overrun, new_path}

-- The variables of digipeater.c that check_frame uses, and its parameters.
pub record Digi : Type 0 where
  pub wide1_on : Bool
  pub sar_on : Bool
  pub mycall : Addr

module _ (strncasecmp : List ℕ → List ℕ → ℕ → ℕ) (d : Digi) where
  -- The new header, the rest of the frame behind it, and the frame's way into the queue. A path of
  -- more than seven addresses is written outside its array.
  unfoldable pub send_repeated : Header → NewPath → Fbuf → Fbq → Cmd (Fbuf × Fbq)
  send_repeated h silent f out = pure (f, out)
  send_repeated h overrun f out = λ _. fault
  send_repeated h (renewed path) f out = do
    b ← new
    b ← encode_header h.from h.to path h.ctrl h.pid b
    (b, f) ← connect b f (ax25_hdr_len h.ndigis)
    out ← put out b
    pure (f, out)

  unfoldable pub repeat_if : Bool → Header → Fbuf → Fbq → Cmd (Fbuf × Fbq)
  repeat_if heard h f out =
      if heard
      then pure (f, out)
      else send_repeated h (new_path strncasecmp d.wide1_on d.sar_on d.mycall h.digis) f out

  -- check_frame: the frame, the heard list and the queue. With a count above seven it reads outside
  -- its array of addresses.
  unfoldable pub check_frame : Fbuf → HeardList → Fbq → Cmd (Fbuf × (HeardList × Fbq))
  check_frame f l out = do
    (h, f) ← decode_header f
    (f, (heard, l)) ← duplicate h.from h.to f h.ndigis l
    (f, out) ← (if ltb 7 h.ndigis then (λ _. fault) else repeat_if heard h f out)
    pure (f, (l, out))

  unfoldable pub check_if : Fbuf → HeardList → Fbq → Cmd (Fbuf × (HeardList × Fbq))
  check_if f l out = if f.length == 0 then pure (f, (l, out)) else check_frame f l out

  -- A round of the digipeater's thread, without the sounds.
  unfoldable pub digipeat : Fbq → HeardList → Fbq → Cmd (Fbq × (HeardList × Fbq))
  digipeat rxqueue l out = do
    (f, rxqueue) ← get rxqueue
    (f, (l, out)) ← check_if f l out
    _ ← release f
    pure (rxqueue, (l, out))
