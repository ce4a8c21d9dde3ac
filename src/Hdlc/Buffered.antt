-- ===== src/Hdlc/Buffered.antt =====
-- A frame that is sent from its buffer: the loop over the buffer ends, with the bits of the frame.
use arctic_tracker_teensy.Run.Returns
use arctic_tracker_teensy.Run.Returns.{Returns}
use arctic_tracker_teensy.Fbuf.{Fbuf}
use arctic_tracker_teensy.Hdlc.Encoder.{Encoder}
