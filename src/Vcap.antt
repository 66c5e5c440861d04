-- ===== src/Vcap.antt =====
-- vbus/src/taps/recorder.h and recorder.cpp: the VBUSCAP file. The structs are written as the x64
-- compiler lays them out: nothing packs `VCapRec`, so its `uint64_t` fields start at multiples of 8
-- and its size, 28 bytes and a tail, is rounded up to 32. The fillers are taken to be 0 (`r{}`); no
-- reader looks at them.
pub mod Records
pub mod RoundTrip
mod Tests
use open_vbus.Base.{
  ◌>>=◌, ℕ, zero, suc, ◌%◌, ◌^◌, Bool, true, false, not, ◌&&◌, Option, none, some, List, [], ◌∷◌,
  ◌++◌, ◌==◌, if◌then◌else◌, Bytes, Text, codes, text_eq, le_bytes, of_le, length, take, drop,
  replicate,
}
use open_vbus.Io
use open_vbus.Io.{OutStream, InStream}
use open_vbus.Frame.{Frame}

pub record VCapHeader : Type 0 where
  pub magic : Bytes
  pub version : ℕ
  pub reserved : ℕ

pub record VCapRec : Type 0 where
  pub proto : ℕ
  pub flags : ℕ
  pub reserved : ℕ
  pub tag : ℕ
  pub ts_ns : ℕ
  pub len : ℕ

abbrev pub header_size : ℕ
header_size = 16

-- `sizeof(VCapRec)`
abbrev pub rec_size : ℕ
rec_size = 32

unfoldable pub header_bytes : VCapHeader → Bytes
header_bytes h = h.magic ++ (le_bytes 4 h.version ++ le_bytes 4 h.reserved)

unfoldable pub rec_bytes : VCapRec → Bytes
rec_bytes r =
    le_bytes 1 r.proto
    ++ (le_bytes 1 r.flags
        ++ (le_bytes 2 r.reserved
            ++ (replicate 4 0
                ++ (le_bytes 8 r.tag
                    ++ (le_bytes 8 r.ts_ns ++ (le_bytes 4 r.len ++ replicate 4 0))))))

-- `n` bytes at `offset`, as an unsigned number
abbrev pub field : ℕ → ℕ → Bytes → ℕ
field offset n bs = of_le (take n (drop offset bs))

unfoldable pub rec_of_bytes : Bytes → VCapRec
rec_of_bytes bs = record {
  proto = field 0 1 bs;
  flags = field 1 1 bs;
  reserved = field 2 2 bs;
  tag = field 8 8 bs;
  ts_ns = field 16 8 bs;
  len = field 24 4 bs;
}

-- the `VCapRec` of a frame, as `Recorder::Write` and the daemon's subscriptions fill it
unfoldable pub rec_of_frame : Frame → VCapRec
rec_of_frame f = record {
  proto = f.proto;
  flags = 0;
  reserved = 0;
  tag = f.tag;
  ts_ns = f.ts_ns;
  len = length f.payload % 2 ^ 32;
}

abbrev pub file_header : VCapHeader
file_header = record { magic = codes "VBUSCAP" ++ (0 ∷ []); version = 1; reserved = 0 }

pub record Recorder : Type 0 where
  pub out : OutStream

abbrev pub new_recorder : Recorder
new_recorder = record { out = Io.closed_out }

-- `Recorder::Open`; the first argument says what the file system answers.
unfoldable pub open_recorder : Option ℕ → Recorder → Bool × Recorder
open_recorder target r =
    let out = Io.open_out target r.out in
    let out' = Io.write (header_bytes file_header) out in
    if out.failed then (false, record { out = out }) else (not out'.failed, record { out = out' })

-- `Recorder::Close`
unfoldable pub close_recorder : Recorder → Recorder
close_recorder r = if r.out.failed then r else record { out = Io.close_out r.out }

-- `Recorder::Write`
unfoldable pub write_frame : Frame → Recorder → Bool × Recorder
write_frame f r =
    let rec = rec_of_frame f in
    let out = Io.write (rec_bytes rec) r.out in
    let out' = if rec.len == 0 then out else Io.write (take rec.len f.payload) out in
    if r.out.failed then (false, r) else (not out'.failed, record { out = out' })

-- the tests of `Replayer::Open` on what it read
is_vcap : Bytes → Bool
is_vcap hdr = text_eq (take 7 hdr) (codes "VBUSCAP") && field 8 4 hdr == 1

with_file_header : Option Bytes × InStream → Bool × InStream
with_file_header (none, s) = (false, s)
with_file_header (some hdr, s) = (is_vcap hdr, s)

-- `Replayer::Open`: the header must be there, with the seven letters and the version.
unfoldable pub open_replayer : Option Bytes → Bool × InStream
unfolding is_vcap with_file_header
open_replayer file = with_file_header (Io.read header_size (Io.open_in file))

-- the frame that `Replayer::Next` fills from a record header and the bytes read behind it
with_payload : VCapRec → Option Bytes × InStream → Option Frame × InStream
with_payload r (none, s) = (none, s)
with_payload r (some bs, s) =
    (some (record { proto = r.proto; tag = r.tag; ts_ns = r.ts_ns; payload = bs }), s)

-- An empty payload is not read.
abbrev pub read_payload : ℕ → InStream → Option Bytes × InStream
read_payload n s = if n == 0 then (some [], s) else Io.read n s

with_header : Option Bytes × InStream → Option Frame × InStream
with_header (none, s) = (none, s)
with_header (some hdr, s) = let r = rec_of_bytes hdr in with_payload r (read_payload r.len s)

-- `Replayer::Next`: `none` is its answer `false`.
unfoldable pub next : InStream → Option Frame × InStream
unfolding with_header with_payload
next s = with_header (Io.read rec_size s)

abbrev pub drain_after :
    Option Frame × InStream → (InStream → Option (List Frame)) → Option (List Frame)
drain_after (none, s) more = some []
drain_after (some f, s) more = do fs ← more s; some (f ∷ fs)

-- `while (rep.Next(f)) …`: the frames in the order in which the body sees them. The outer `none`
-- says that the fuel ran out.
unfoldable pub drain : ℕ → InStream → Option (List Frame)
drain zero s = none
drain (suc fuel) s = drain_after (next s) (drain fuel)
