-- ===== src/Tracker.antt =====
-- tracker.c and tracker.h: position, status and object reports, and when they are sent.
pub mod Positions
pub mod Buffered
pub mod Packets
pub mod Written
pub mod Base91
pub mod Reports
pub mod ObjectName
pub mod Beacon
pub mod Pause
pub mod Thread
mod Tests
use arctic_tracker_teensy.Base.{ℕ, Bool, Option, List}
use arctic_tracker_teensy.Run.{Cmd}
use arctic_tracker_teensy.Ax25.{Addr}
use arctic_tracker_teensy.Fbuf.Queue.{Fbq}
use arctic_tracker_teensy.Gps.{PosData}
use arctic_tracker_teensy.Tracker.Positions.{PosBuf}

-- What GET_PARAM and GET_BYTE_PARAM give. An array of characters ends where the list does.
pub record Params : Type 0 where
  pub mycall : Addr
  pub dest : Addr
  pub ndigis : ℕ
  pub digis : List Addr
  pub symbol : ℕ
  pub symbol_tab : ℕ
  pub tracker_on : ℕ
  pub turn_limit : ℕ
  pub maxpause : ℕ
  pub mindist : ℕ
  pub minpause : ℕ
  pub status_time : ℕ
  pub timestamp_on : ℕ
  pub compress_on : ℕ
  pub altitude_on : ℕ
  pub obj_symbol : ℕ
  pub obj_symbol_table : ℕ
  pub obj_id : List ℕ
  pub report_comment : List ℕ
  pub repeat_on : ℕ
  pub extraturn_on : ℕ
  pub igate_track_on : ℕ

-- What the rest of the program gives: whether the buffer of the HDLC encoder is empty, what a time
-- with the radio on leaves in the queue of outgoing frames, and what adc_read_batt measures.
pub record Device : Type 0 where
  pub buffer_empty : Bool
  pub transmit : Fbq → Cmd Fbq
  pub batt : ℕ

-- The variables of tracker.c. A course is a 16-bit number in two's complement, and `object_pos`
-- gives the position at each index below four.
pub record State (F : Type 0) : Type 0 where
  pub prev_pos : PosData F
  pub prev_pos_gps : PosData F
  pub course : ℕ
  pub prev_course : ℕ
  pub prev_gps_course : ℕ
  pub gate : Option Fbq
  pub outframes : Fbq
  pub maxpause_reached : Bool
  pub pause_count : ℕ
  pub waited : Bool
  pub positions : PosBuf (PosData F)
  pub object_pos : ℕ → PosData F
  pub n_objects : ℕ
  pub next_obj : ℕ
  pub ccount : ℕ
