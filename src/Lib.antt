-- ===== src/Lib.antt =====
-- ArcticTracker-Teensy: the packet store, the frame formats, the bit stream on the radio, the
-- tracker and what it takes from the GPS receiver.
--
-- The firmware of an APRS tracker and digipeater for the Teensy 3.1. Its packets live in buffer
-- chains (fbuf.c), which the receiver (hdlc_decoder.c), the tracker, the digipeater and the igate
-- fill and read; ax25.c writes and reads the headers in them; hdlc_encoder.c turns queued chains
-- into the bytes that the modulator sends.
--
-- Base holds what the modules share: the libraries' names, Boolean tests on native numbers, lists
-- by native index, and the binary operations on bytes.
--
-- Run models the state of fbuf.c, `_pool`, `_free_slots` and `memFullError`, as a record Pool and
-- an operation as a function from a pool to a result: ok with the new pool, fault for an access
-- outside an array, stuck for a loop that is out of fuel. Run/Returns states what a command that
-- ends well comes to.
--
-- Fbuf models fbuf.c and fbuf.h: an FBUF is the record Fbuf, and an operation that changes it
-- returns the new one. fbuf_new, fbuf_release, fbuf_newRef, fbuf_reset, fbuf_rseek, fbuf_putChar,
-- fbuf_write, fbuf_putstr, fbuf_getChar, fbuf_print are new, release, new_ref, reset, rseek,
-- put_char, write, put_str, get_char, print. Fbuf/Chain and Fbuf/Count say what a chain and a
-- consistent pool are, Fbuf/Buffer what the handle of a chain being written is, and the other
-- children prove the operations. A loop along a chain has fuel for 901 rounds, one more than
-- there are slots: a chain of distinct slots is shorter, and the theorems show that the loops
-- return. Integers keep the width that the source gives them (`% 256`, `% 65536`). The error
-- handler is only known to be set or not. Fbuf/Join has _split, fbuf_insert, fbuf_connect,
-- fbuf_streamRead, fbuf_read and fbuf_removeLast, and Fbuf/Queue the queue of chains, FBQ, with
-- the counters of its semaphores: a call that would wait at a semaphore is stuck. Fbuf/Split is
-- about _split, Fbuf/Walk and Fbuf/Splice are about fbuf_connect; Fbuf/Queued shows that the
-- queue is a bounded list.
--
-- Crc has what _crc_ccitt_update of util/crc16.h, a copy of a library's file, computes, for the
-- code that calls it.
--
-- Hdlc models hdlc.h, hdlc_encoder.c and hdlc_decoder.c: Hdlc/Encoder has hdlc_encode_byte and
-- hdlc_encode_frames, with the static variables of the first and the bytes put into the output
-- queue as the record Encoder. send_buffer sends a frame from its buffer, and Hdlc/Buffered shows
-- that its loop ends; in encode_frames a frame is given as the bytes that are read from its
-- buffer, the encoder queue as the list of frames that wait in it. hdlc_encode_byte has fuel for
-- 17 rounds: eight bits, at most eight stuffed ones and the last test. Hdlc/Stuffing describes
-- the bit stream. Hdlc/Decoder has get_bit and the loops of hdlc_rxdecoder, over the list of the
-- bytes that are still to come: a result says where the receiver goes on, and fuel bounds each
-- loop over flags; a frame has at most 290 octets. Hdlc/Link joins it to the encoder by way of
-- Hdlc/Window, GetBit, Unstuffing, Receiving, Octets and, for the start of the receiver, Start.
-- Hdlc/Delivery has crc_match, the delivery to the subscribers and hdlc_subscribe_rx, Hdlc/Match
-- and Hdlc/Accept the theorems on the checksum. The channel access before a transmission, the
-- test signal and the monitor's copy of a frame are not modelled.
--
-- Ax25 models ax25.c and ax25.h: the address field and the header over the operations of Fbuf.
-- The arrays of addresses are lists, and what ax25_decode_header stores and returns is the record
-- Header. Ax25/Text has the text form of addresses: str2addr, addr2str, digis2str, args2digis,
-- ax25_search_digis and addrCmp. Ax25/Wire lays the header out by arithmetic. The display of a
-- frame is not modelled.
--
-- Heard models heardlist.c: the static variables as the record HeardList, hlist_tick,
-- hlist_exists, hlist_add, hlist_duplicate and checksum as tick, exists, add, duplicate and
-- checksum. An index outside the array has the result none. The scans have fuel for 33 rounds,
-- one more than the array has entries; checksum takes its fuel, of which 256 rounds are enough
-- for a frame of at most 255 bytes. hlist_addPacket and the thread that calls hlist_tick are not
-- modelled. Heard/Scan and Heard/Ageing are about the ring, Heard/Sum about the checksum,
-- Heard/Twice about hlist_duplicate. Of a packet of more than 255 bytes the checksum does not
-- end.
--
-- Config models config.c over the interface Eeprom, which states what the code relies on in the
-- driver util/eeprom.c, for addresses below its EEPROM_SIZE. Config/Layout and Config/Params are
-- the parameters of config.h, their addresses, sizes and defaults; Config/Regions and
-- Config/Apart show that they lie apart. Fifo models fifo.h, with the ring as a bounded queue in
-- Fifo/Queue.
--
-- Digipeater models the path that check_frame in digipeater.c makes, as a list of at most seven
-- addresses, or a write behind its array; strncasecmp is a parameter. Digipeater/Path has its
-- theorems. Digipeater/Repeat has check_frame as a whole, with the header read, the heard list
-- asked, the new header joined to the frame and the frame queued, and a round of the thread.
--
-- Igate models rf2inet of igate.c, a round of igate_radio and igate_login; the writer to the
-- server is a parameter.
--
-- Printf has what the sources use of sprintf, atoi, toupper and sscanf, on lists of characters.
-- Floats is an interface to floating point numbers: the operations that gps.c and tracker.c call,
-- with the only law that a conversion to an unsigned type stays within its width; Floats/Naturals
-- is an instance for runs. Ring has the lemmas on arrays used as rings that Fifo, Fbuf/Queued and
-- Tracker/Buffered share.
--
-- Text models ui/text.c: settings are parsed into the EEPROM of Config, and tokenize splits a
-- string, with fuel for one round more than the string has characters and a last one. Text/Limits
-- and Text/Tokens have the theorems.
--
-- Gps models gps.c and gps.h: a round of nmeaListener from the line that readline gave, do_rmc
-- and do_gga on the tokens, the variables as the record Gps, distance and bearing, dates and
-- times as text. Gps/Times has the texts, Gps/Distance the distance and the bearing. Gps/Sentence
-- is about the checksum, Gps/Clock about times, Gps/Lock about the sentences skipped before a fix
-- counts.
--
-- Tracker models tracker.c: its variables as the record State, the parameters that it reads as
-- Params, and the calls into the radio and the battery as Device. Tracker/Positions is the
-- position buffer, Tracker/Packets writes the parts of a packet, Tracker/Reports the reports and
-- objects, Tracker/Beacon should_update and course_change, Tracker/Thread a round of the thread
-- without sleeps. Courses are 16-bit numbers in two's complement. Tracker/Buffered, Base91,
-- ObjectName, Written and Pause have the theorems. The start and stop of the thread are not
-- modelled.
--
-- Radio models sr_frs.c: its variables, pins and semaphore as the record Radio, with the lines
-- that it sends to the module; what the module replies and the parameters are the record Env. One
-- thread runs, and a call that would wait for another one has the result none. Radio/Power and
-- Radio/TxPower have the theorems.
--
-- Ui models the user interface on the device. Ui/Leds is the light of ui/ui.c, with -1 for
-- `cstate` as none; chandler takes its fuel, of which two rounds are enough where a part has a
-- length. Ui/Button is the push button, its interrupts and a round of its service thread.
-- Ui/Screen, Font, Shapes and Figures are ui/gui.c: a drawing routine goes from a screen to a
-- result, which is outside for an access behind its buffer. gui_line and gui_circle take their
-- fuel; for gui_line a round more than the greater distance is enough. Ui/Status is
-- ui/gui_status.c, with what is read of the device as the record Device, and Ui/Menu is
-- ui/gui_menu.c. Ui/Priority, Rounds, Mixing, Presses, Pixels, Boxes, Steps, Straight, Lines and
-- Selected have the theorems.
--
-- Shell models readline of ui/commands.c, with the stream as a list of characters, and the four
-- functions there that show or store a parameter.
--
-- Wifi models cmd_getParm, cmd_setParm and cmd_checkAp of ui/wifi.c: in Wifi/Read and Wifi/Write
-- the chains of comparisons with names are tables of names, with one function that does what
-- stands behind each. A string that is stored goes on in memory with bytes that are a parameter
-- of the model. Wifi/Stored has the theorem.
--
-- Not modelled: the modem hardware (afsk_rx.c, afsk_tx.c, tone.c, adc_input.c, util/DAC.c), the
-- threads, the display controller and the buzzer (ui/lcd.c, ui/buzzer.c), the handlers of the
-- shell commands (ui/commands.c), the serial line to the Wi-Fi module (the rest of ui/wifi.c),
-- the monitor, the connection to the internet server, the shell, USB set-up, and the build
-- configuration.
pub mod Ax25
pub mod Base
pub mod Config
pub mod Crc
pub mod Digipeater
pub mod Fbuf
pub mod Fifo
pub mod Floats
pub mod Gps
pub mod Hdlc
pub mod Heard
pub mod Igate
pub mod Printf
pub mod Radio
pub mod Ring
pub mod Run
pub mod Shell
pub mod Text
pub mod Tracker
pub mod Ui
pub mod Wifi
