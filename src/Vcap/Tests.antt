-- ===== src/Vcap/Tests.antt =====
-- Recordings of two frames.
use open_vbus.Base.{◌+◌, ◌≤◌, ◌≡◌, some, List, [], ◌∷◌, ◌++◌, All, take, length, arith}
use open_vbus.Frame.{Frame, eth2, can20}
use open_vbus.Vcap.{rec_of_frame, rec_bytes, open_recorder, new_recorder, header_bytes, file_header}
use open_vbus.Vcap.Records.{IsStorable}
use open_vbus.Vcap.RoundTrip.{record_all, replay_file, replay_recording, replay_cut, IsFront, body}

abbrev two_frames : List Frame
two_frames =
    record { proto = eth2; tag = 0; ts_ns = 1000; payload = 1 ∷ 2 ∷ 3 ∷ [] }
    ∷ record { proto = can20; tag = 0x123; ts_ns = 2000; payload = 255 ∷ [] }
    ∷ []

two_frames-IsStorable : All IsStorable two_frames
two_frames-IsStorable = (
  record { proto = omega arith; tag = omega arith; ts_ns = omega arith; len = omega arith },
  (record { proto = omega arith; tag = omega arith; ts_ns = omega arith; len = omega arith }, tt),
)

enough_room : 16 + length (body two_frames) ≤ 100
unfolding rec_bytes rec_of_frame
enough_room = omega arith

replay_recording_example :
    replay_file (record_all two_frames (open_recorder (some 100) new_recorder).1).out.written
    ≡ some two_frames
replay_recording_example = replay_recording two_frames 100 two_frames-IsStorable enough_room

replay_cut_example :
    (gs : List Frame) × (replay_file (take 60 (header_bytes file_header ++ body two_frames))
      ≡ some gs)
    × IsFront gs two_frames
replay_cut_example = replay_cut two_frames 60 two_frames-IsStorable
