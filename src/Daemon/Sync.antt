-- ===== src/Daemon/Sync.antt =====
-- `replay-sync` of vbusd.cpp: the streams of the command, the first time of all their files, and the
-- threads it starts.
pub mod Origin
use open_vbus.Base.{
  ◌-◌, ℕ, ◌+◌, ◌%◌, ◌^◌, Bool, Option, none, some, List, [], ◌∷◌, Text, length, ltb, ◌&&◌,
  if◌then◌else◌, ◌==◌, ◌>>=◌,
}
use open_vbus.Vcap.{open_replayer, next}
use open_vbus.Scheduler.{SimTime}
use open_vbus.Daemon.Numbers.{stoul}
use open_vbus.Daemon.Replies
use open_vbus.Daemon.State.{World, Os, in_sync, start_replay, log}
use open_vbus.Daemon.Handler.{Outcome, answer, terminated, scale_of, is_timed}

-- `StreamDesc`
pub record StreamDesc : Type 0 where
  pub file : Text
  pub host : Text
  pub port : ℕ

-- the streams of the arguments; `none` where `std::stoul` throws
unfoldable pub streams : List Text → Option (List StreamDesc)
streams (file ∷ host ∷ port ∷ rest) =
    let more = streams rest in
    stoul port >>= λ p.
    more >>= λ ds. some (record { file = file; host = host; port = p % 2 ^ 16 } ∷ ds)
streams _ = some []

-- the first frame's time, where a file has one that counts
pub peek : Os → Text → Option (Option SimTime)
peek os file =
    let (opened, i) = open_replayer (os.file file) in
    if opened then some (elim (next i).0 [ none ↦ none | some f ↦ some f.ts_ns ]) else none

earlier : Option SimTime → SimTime → SimTime
earlier none t = t
earlier (some s) t = if ltb 0 s && ltb s t then s else t

-- Phase 1: the earliest first time, or the file that does not open.
pub data Peeked : Type 0 where
  refused : Text → Peeked
  first_time : SimTime → Peeked

unfoldable pub peek_all : Os → List StreamDesc → SimTime → Peeked
unfolding peek earlier
peek_all os [] t = first_time t
peek_all os (d ∷ ds) t = elim (peek os d.file) [
  | none ↦ refused d.file
  | some s ↦ peek_all os ds (earlier s t)
]

-- Phase 2: one thread to a stream
unfoldable pub launch : List StreamDesc → SimTime → SimTime → Bool → ℕ → World → World
unfolding log
launch [] first begin timed scale w = w
launch (d ∷ ds) first begin timed scale w =
    launch ds first begin timed scale
      (log (start_replay (in_sync d.file d.host d.port first begin timed scale)) w)

unfoldable pub launch_all : Os → List StreamDesc → Bool → ℕ → World → Peeked → Outcome
unfolding launch
launch_all os ds timed scale w (refused file) = answer w (Replies.sync_open_failed file)
launch_all os ds timed scale w (first_time t) =
    let first = if t == 2 ^ 64 - 1 then 0 else t in
    answer (launch ds first ((os.now₁ + 50_000_000) % 2 ^ 64) timed scale w)
      (Replies.sync_started (length ds))

unfoldable pub sync_streams : Os → Bool → ℕ → World → Option (List StreamDesc) → Outcome
unfolding launch_all peek_all
sync_streams os timed k w none = terminated
sync_streams os timed k w (some ds) = launch_all os ds timed k w (peek_all os ds (2 ^ 64 - 1))

unfoldable pub scaled : Os → Bool → List Text → World → Option ℕ → Outcome
unfolding sync_streams streams
scaled os timed rest w none = answer w Replies.bad_scale
scaled os timed rest w (some k) = sync_streams os timed k w (streams rest)

unfoldable pub replay_sync : Os → Text → List Text → World → Outcome
unfolding scaled
replay_sync os mode rest w = scaled os (is_timed mode) rest w (scale_of os mode)
