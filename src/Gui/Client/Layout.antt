-- ===== src/Gui/Client/Layout.antt =====
-- The client's header beside the daemon's record: they do not have the same layout.
use open_vbus.Base.{
  if_cases, length-drop, ltb, if◌then◌else◌, refl, [], ◌∷◌, ap, ◌≤◌, ◌+◌, ◌*◌, ◌/◌, ◌%◌, ◌^◌, ◌≡◌,
  ◌<◌, none, some, ◌++◌, Bytes, length, take, drop, arith,
}
use open_vbus.Frame.{Frame}
use open_vbus.Vcap.{rec_bytes, rec_of_frame}
use open_vbus.Gui.Client.{
  MessagePipe, buffer_size, read_frames, with_frame, RawFrame, wire_hdr, raw_frame, read_message,
}

-- The message that the daemon's subscriber callback writes for a frame.
abbrev pub streamed : Frame → Bytes
streamed f = rec_bytes (rec_of_frame f) ++ f.payload

wire_hdr-streamed :
    (f : Frame)
    → f.tag < 2 ^ 64
    → f.ts_ns < 2 ^ 64
    → let hdr = wire_hdr (streamed f) in
      (hdr.tag ≡ f.tag % 2 ^ 32 * 2 ^ 32)
      × (hdr.ts_ns ≡ f.tag / 2 ^ 32 + f.ts_ns % 2 ^ 32 * 2 ^ 32)
      × (hdr.len ≡ f.ts_ns / 2 ^ 32)
unfolding wire_hdr rec_bytes rec_of_frame
wire_hdr-streamed f ht hs = (omega arith, omega arith, omega arith)

length-streamed : (f : Frame) → length (streamed f) ≡ 32 + length f.payload
unfolding rec_bytes
length-streamed f = omega arith

-- The client passes over a frame whose time stamp, in units of 2^32 ns, is more than its payload's
-- length and 8.
pub read_streamed_late :
    (f : Frame)
    → f.tag < 2 ^ 64
    → f.ts_ns < 2 ^ 64
    → length f.payload + 8 < f.ts_ns / 2 ^ 32
    → read_message (streamed f) ≡ none
unfolding read_message
read_streamed_late f ht hs h =
    let (tag, time, len) = wire_hdr-streamed f ht hs in ground (arith, length-streamed f, len)

-- A message of fewer bytes than a header is passed over.
read_message-short : (message : Bytes) → length message < 24 → read_message message ≡ none
unfolding read_message
read_message-short message h = ground (arith, h)

read_message-streamed :
    (f : Frame)
    → f.tag < 2 ^ 64
    → f.ts_ns < 2 ^ 64
    → f.ts_ns / 2 ^ 32 ≤ length f.payload + 8
    → read_message (streamed f) ≡ some (raw_frame (wire_hdr (streamed f)) (streamed f))
unfolding read_message raw_frame
read_message-streamed f ht hs h =
    let (tag, time, len) = wire_hdr-streamed f ht hs in
    let size = length-streamed f in ground (arith, size, len)

module _ (pipe : MessagePipe) where
  -- A message that fits is read whole; of one that is a little longer, nothing is.
  frames-short :
      (message : Bytes) (g : RawFrame)
      → length message ≤ buffer_size
      → read_message message ≡ some g
      → read_frames (pipe.readings buffer_size message) ≡ g ∷ []
  unfolding read_frames with_frame
  frames-short message g h e = rw (pipe.short buffer_size message h, e) refl

  frames-long :
      (message : Bytes)
      → buffer_size < length message
      → length message < buffer_size + 24
      → read_frames (pipe.readings buffer_size message) ≡ []
  unfolding read_frames with_frame
  frames-long message h k =
      let rest : length (drop buffer_size message) < 24 =
        omega (arith, h, k, length-drop buffer_size message) in
      rw
        (
          pipe.long buffer_size message h (omega (arith, k)),
          read_message-short (drop buffer_size message) rest,
        )
        refl

  -- Of a frame that the daemon streams, with a payload of 65,536 bytes at most and a time stamp whose high
  -- half is the payload's length and 8 at most, the client hands on one frame, if the payload has
  -- 65,528 bytes at most, and none, if it has more; and the tag and the time of that frame are
  -- shifted by four bytes, and its payload is as long as the high half of the time stamp says.
  pub read_streamed :
      (f : Frame)
      → f.tag < 2 ^ 64
      → f.ts_ns < 2 ^ 64
      → length f.payload ≤ 65536
      → f.ts_ns / 2 ^ 32 ≤ length f.payload + 8
      → (g : RawFrame) × (read_frames (pipe.readings buffer_size (streamed f))
          ≡ (if ltb 65528 (length f.payload) then [] else g ∷ []))
        × (g.tag ≡ f.tag % 2 ^ 32 * 2 ^ 32)
        × (g.ts_ns ≡ f.tag / 2 ^ 32 + f.ts_ns % 2 ^ 32 * 2 ^ 32)
        × (g.payload ≡ take (f.ts_ns / 2 ^ 32) (drop 24 (streamed f)))
  unfolding raw_frame
  read_streamed f ht hs small h =
      let (tag, time, len) = wire_hdr-streamed f ht hs in
      let size = length-streamed f in
      let g = raw_frame (wire_hdr (streamed f)) (streamed f) in
      (
        g,
        if_cases (λ frames. read_frames (pipe.readings buffer_size (streamed f)) ≡ frames)
            (ltb 65528 (length f.payload)) [] (g ∷ [])
            (λ e. frames-long (streamed f) (ground (arith, size, e)) (omega (arith, size, small)))
            (λ e.
              frames-short (streamed f) g (ground (arith, size, e))
                (read_message-streamed f ht hs h)),
        tag,
        time,
        ap (λ n. take n (drop 24 (streamed f))) len,
      )
