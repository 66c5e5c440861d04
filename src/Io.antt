-- ===== src/Io.antt =====
-- The file streams that the recorder and the replayer of vbus/src/taps use. A device takes `room`
-- more bytes; a write beyond that stores what fits and sets the stream's error state.
pub mod Streams
use open_vbus.Base.{
  ℕ, ◌-◌, Bool, true, false, not, ◌||◌, Option, none, some, leb, if◌then◌else◌, [], ◌++◌, Bytes,
  length, take, drop,
}

-- `std::ofstream`
pub record OutStream : Type 0 where
  pub is_open : Bool
  pub failed : Bool
  pub written : Bytes
  pub room : ℕ

abbrev pub closed_out : OutStream
closed_out = record { is_open = false; failed = false; written = []; room = 0 }

-- `open`: `none` is a path that cannot be opened, `some n` a new file on a device with room for
-- `n` bytes. A stream that is open already refuses.
unfoldable pub open_out : Option ℕ → OutStream → OutStream
open_out none s = record s { failed = true }
open_out (some n) s =
    if s.is_open
    then record s { failed = true }
    else record { is_open = true; failed = false; written = []; room = n }

unfoldable pub write : Bytes → OutStream → OutStream
write bs s =
    if s.failed || not s.is_open
    then record s { failed = true }
    else if leb (length bs) s.room
    then record s { written = s.written ++ bs; room = s.room - length bs }
    else record s { failed = true; written = s.written ++ take s.room bs; room = 0 }

unfoldable pub close_out : OutStream → OutStream
close_out s = record s { is_open = false; failed = s.failed || not s.is_open }

-- `std::ifstream`: what is left to read
pub record InStream : Type 0 where
  pub failed : Bool
  pub rest : Bytes

unfoldable pub open_in : Option Bytes → InStream
open_in none = record { failed = true; rest = [] }
open_in (some bs) = record { failed = false; rest = bs }

-- `read` of `n` bytes: `none` if the stream has failed or ends before.
unfoldable pub read : ℕ → InStream → Option Bytes × InStream
read n s =
    if s.failed
    then (none, s)
    else if leb n (length s.rest)
    then (some (take n s.rest), record s { rest = drop n s.rest })
    else (none, record { failed = true; rest = [] })
