-- ===== src/Gui/Client/Tests.antt =====
-- A frame one second, and a frame a minute, after the clock's start.
use open_vbus.Base.{◌≤◌, ◌<◌, ◌+◌, ◌*◌, ◌/◌, ◌%◌, ◌^◌, ◌≡◌, [], ◌∷◌, take, drop, arith}
use open_vbus.Frame.{Frame, can20}
use open_vbus.Base.{Bytes, List, ltb, length, if◌then◌else◌, ℕ}
use open_vbus.Gui.Client.{Reading, whole, part, MessagePipe, buffer_size, read_frames, RawFrame}
use open_vbus.Gui.Client.Layout.{streamed, read_streamed}

abbrev early : Frame
early = record { proto = can20; tag = 0x123; ts_ns = 1_000_000_000; payload = 1 ∷ 2 ∷ [] }

-- a pipe that gives a message in one part or in two
abbrev two_calls : ℕ → Bytes → List Reading
two_calls size message =
    if ltb size (length message)
    then part (take size message) ∷ whole (drop size message) ∷ []
    else whole message ∷ []

two_calls-short :
    (size : ℕ) (message : Bytes)
    → length message ≤ size
    → two_calls size message ≡ whole message ∷ []
two_calls-short size message h = ground arith

two_calls-long :
    (size : ℕ) (message : Bytes)
    → size < length message
    → two_calls size message ≡ part (take size message) ∷ whole (drop size message) ∷ []
two_calls-long size message h = ground arith

abbrev a_pipe : MessagePipe
a_pipe = record {
  readings = two_calls;
  short = two_calls-short;
  long = λ size message h k. two_calls-long size message h;
}

read_streamed_example :
    (g : RawFrame) × (read_frames (a_pipe.readings buffer_size (streamed early))
      ≡ (if ltb 65528 (length early.payload) then [] else g ∷ []))
    × (g.tag ≡ early.tag % 2 ^ 32 * 2 ^ 32)
    × (g.ts_ns ≡ early.tag / 2 ^ 32 + early.ts_ns % 2 ^ 32 * 2 ^ 32)
    × (g.payload ≡ take (early.ts_ns / 2 ^ 32) (drop 24 (streamed early)))
read_streamed_example =
    read_streamed a_pipe early (omega arith) (omega arith) (omega arith) (omega arith)
