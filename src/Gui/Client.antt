-- ===== src/Gui/Client.antt =====
-- vbus-gui/src/daemon_client.h and daemon_client.cpp: how the GUI reads the frames that the daemon
-- streams, one message to a frame.
pub mod Layout
pub mod Commands
mod Tests
use open_vbus.Base.{
  List, [], ◌∷◌, ◌≡◌, ◌≤◌, ◌<◌, ℕ, ◌+◌, ◌%◌, ◌^◌, Bool, ltb, if◌then◌else◌, Option, none, some,
  Bytes, length, take, drop,
}
use open_vbus.Vcap.{field}

-- `WireHdr`, packed: 24 bytes
pub record WireHdr : Type 0 where
  pub proto : ℕ
  pub flags : ℕ
  pub reserved : ℕ
  pub tag : ℕ
  pub ts_ns : ℕ
  pub len : ℕ

pub record RawFrame : Type 0 where
  pub proto : ℕ
  pub tag : ℕ
  pub ts_ns : ℕ
  pub payload : Bytes

unfoldable pub wire_hdr : Bytes → WireHdr
wire_hdr bs = record {
  proto = field 0 1 bs;
  flags = field 1 1 bs;
  reserved = field 2 2 bs;
  tag = field 4 8 bs;
  ts_ns = field 12 8 bs;
  len = field 20 4 bs;
}

raw_frame : WireHdr → Bytes → RawFrame
raw_frame hdr message = record {
  proto = hdr.proto;
  tag = hdr.tag;
  ts_ns = hdr.ts_ns;
  payload = take hdr.len (drop 24 message);
}

-- What the loop does with a message that `ReadFile` has put into its buffer whole; `none` is one that
-- is passed over. The header's size and the length are added in 64 bits, and cannot wrap.
unfoldable pub read_message : Bytes → Option RawFrame
unfolding raw_frame
read_message message =
    let hdr = wire_hdr message in
    if ltb (length message) 24
    then none
    else if ltb (length message) (24 + hdr.len)
    then none
    else some (raw_frame hdr message)

-- `buf(65536 + sizeof(WireHdr))`
abbrev pub buffer_size : ℕ
buffer_size = 65536 + 24

-- What a call of `ReadFile` gives: a message or the last part of one, a part with ERROR_MORE_DATA
-- behind which the message goes on, or another error.
pub data Reading : Type 0 where
  whole part : Bytes → Reading
  broken : Reading

unfoldable pub with_frame : Option RawFrame → List RawFrame → List RawFrame
with_frame none frames = frames
with_frame (some frame) frames = frame ∷ frames

-- The subscriber's loop, until it is stopped: the frames that it hands to the callback. The parts of a
-- message that is longer than the buffer are passed over, but its last part is taken for a message.
unfoldable pub read_frames : List Reading → List RawFrame
unfolding read_message with_frame
read_frames [] = []
read_frames (broken ∷ readings) = []
read_frames (part bytes ∷ readings) = read_frames readings
read_frames (whole bytes ∷ readings) = with_frame (read_message bytes) (read_frames readings)

-- A pipe in message mode, as the operating system documents it: what the calls with a buffer of some
-- size give of a message, here for one that two calls read.
pub record MessagePipe : Type 0 where
  pub readings : ℕ → Bytes → List Reading
  pub short :
      (size : ℕ) (message : Bytes)
      → length message ≤ size
      → readings size message ≡ whole message ∷ []
  pub long :
      (size : ℕ) (message : Bytes)
      → size < length message
      → length message ≤ size + size
      → readings size message ≡ part (take size message) ∷ whole (drop size message) ∷ []
