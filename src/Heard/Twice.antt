-- ===== src/Heard/Twice.antt =====
-- hlist_duplicate, asked about a packet and then about one with the same addresses and the same
-- information field.
use arctic_tracker_teensy.Base.{ℕ, ◌≤◌, ◌<◌, ◌≡◌, List, drop}
use arctic_tracker_teensy.Crc.{crc_bytes}
use arctic_tracker_teensy.Run.{Pool}
use arctic_tracker_teensy.Run.Returns
use arctic_tracker_teensy.Run.Returns.{Returns}
use arctic_tracker_teensy.Fbuf.{Fbuf}
use arctic_tracker_teensy.Fbuf.Buffer.{IsBuffer, all_bytes}
use arctic_tracker_teensy.Ax25.{Addr}
use arctic_tracker_teensy.Heard.{ax25_hdr_len}
use arctic_tracker_teensy.Heard.Sum.{known_by}

-- A frame of at most 255 bytes in the buffer, longer than its header with up to eight digipeaters,
-- with this information field.
pub record IsPacket (p : Pool) (f : Fbuf) (ndigis : ℕ) (info : List ℕ) : Type 0 where
  pub front : List ℕ
  pub buffer : IsBuffer p.slot f front
  pub few : ndigis ≤ 8
  pub long : ax25_hdr_len ndigis < f.length
  pub short : f.length < 256
  pub behind : drop (ax25_hdr_len ndigis) (all_bytes p.slot f front) ≡ info

module _ (p : Pool) (from to : Addr) (info : List ℕ) where
  -- The CRC by which the packet is known.
  abbrev pub sum : ℕ
  sum = crc_bytes 0xFFFF (known_by from to info)
