-- ===== src/Daemon/Invariant/Replays.antt =====
-- The commands that start replays keep the invariant.
use open_vbus.Scheduler.{SimTime}
use open_vbus.Vcap.{open_replayer}
use open_vbus.Daemon.Numbers.{stoul}
use open_vbus.Daemon.Replies.{Reply}
use open_vbus.Daemon.Invariant.Wraps.{is_fault, IsSound}
use open_vbus.Daemon.State.{Replay, log, Os, World}
use open_vbus.Base.{Bool, ℕ, refl, Option, none, some, List, [], ◌∷◌, Text}
use open_vbus.Daemon.Handler
use open_vbus.Daemon.Handler.{
  with_sink, sink_with, forwarded, Outcome, answered, terminated, with_bus, with_number, add_bus,
  new_wrap, send_limited, install, start_sink,
}
use open_vbus.Daemon.Sync
use open_vbus.Daemon.Invariant.Fine.{
  IsFine, fine, stopped, with_bus-IsFine, with_number-IsFine, branches-IsFine,
}

-- A replay thread that starts changes nothing here.
pub started-IsFine :
    (k : Option ℕ) (make : ℕ → Replay) (r : Reply) (w : World)
    → IsSound w
    → IsFine (Handler.started k make r w)
unfolding Handler.started log is_fault
started-IsFine none make r w h = fine h
started-IsFine (some k) make r w (hb, hs, he) = fine (hb, hs, (refl, he))

pub replay-IsFine :
    (os : Os) (name file mode : Text) (w : World)
    → IsSound w
    → IsFine (Handler.replay os name file mode w)
unfolding Handler.replay
replay-IsFine os name file mode w h =
    with_bus-IsFine name w _ h λ b hl.
      branches-IsFine (open_replayer (os.file file)).0 _ _ (started-IsFine _ _ _ w h) (fine h)

pub replay_udp-IsFine :
    (os : Os) (file host port mode : Text) (w : World)
    → IsSound w
    → IsFine (Handler.replay_udp os file host port mode w)
unfolding Handler.replay_udp
replay_udp-IsFine os file host port mode w h =
    with_number-IsFine (stoul port) _
      λ p. branches-IsFine (open_replayer (os.file file)).0 _ _ (started-IsFine _ _ _ w h) (fine h)

launch-IsSound :
    (ds : List Sync.StreamDesc) (first begin : SimTime) (timed : Bool) (scale : ℕ) (w : World)
    → IsSound w
    → IsSound (Sync.launch ds first begin timed scale w)
unfolding Sync.launch is_fault log
launch-IsSound [] first begin timed scale w h = h
launch-IsSound (d ∷ ds) first begin timed scale w (hb, hs, he) =
    launch-IsSound ds first begin timed scale _ (hb, hs, (refl, he))

launch_all-IsFine :
    (os : Os) (ds : List Sync.StreamDesc) (timed : Bool) (scale : ℕ) (w : World) (p : Sync.Peeked)
    → IsSound w
    → IsFine (Sync.launch_all os ds timed scale w p)
unfolding Sync.launch_all
launch_all-IsFine os ds timed scale w (Sync.refused file) h = fine h
launch_all-IsFine os ds timed scale w (Sync.first_time t) h =
    fine (launch-IsSound ds _ _ timed scale w h)

pub sync_streams-IsFine :
    (os : Os) (timed : Bool) (k : ℕ) (ds : Option (List Sync.StreamDesc)) (w : World)
    → IsSound w
    → IsFine (Sync.sync_streams os timed k w ds)
unfolding Sync.sync_streams
sync_streams-IsFine os timed k none w h = stopped
sync_streams-IsFine os timed k (some ds) w h = launch_all-IsFine os ds timed k w _ h

pub scaled-IsFine :
    (os : Os) (timed : Bool) (k : Option ℕ) (rest : List Text) (w : World)
    → IsSound w
    → IsFine (Sync.scaled os timed rest w k)
unfolding Sync.scaled
scaled-IsFine os timed none rest w h = fine h
scaled-IsFine os timed (some k) rest w h = sync_streams-IsFine os timed k _ w h
