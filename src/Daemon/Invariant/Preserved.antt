-- ===== src/Daemon/Invariant/Preserved.antt =====
-- Every command keeps the invariant.
use open_vbus.Daemon.Serve.{execute}
use open_vbus.Frame.{hex_to_bytes}
use open_vbus.Daemon.Numbers.{stoull, stoul_any, stoul}
use open_vbus.Daemon.Invariant.Steps.{send_on-IsSound}
use open_vbus.Bus.{can, eth, new_bus, Kind}
use open_vbus.Daemon.Replies.{Reply}
use open_vbus.Daemon.Invariant.Wraps.{
  attach_sub-IsKept, All-erase, reset_sink-IsKept, All-insert, IsLinked, detach_recorder-IsLinked,
  stop_capture-IsKept, detach_sub-IsKept, put_bus-IsSound, attach_recorder-IsKept, IsSound,
}
use open_vbus.Daemon.State.{Os, put_bus, World}
use open_vbus.Base.{codes, text_eq, length, inr, inl, Option-cases, ltb, ℕ, refl, Text, lookup}
use open_vbus.Daemon.Handler
use open_vbus.Daemon.Handler.{
  with_sink, sink_with, forwarded, Outcome, answered, terminated, with_bus, with_number, add_bus,
  new_wrap, send_limited, install, start_sink,
}
use open_vbus.Daemon.Commands.{replay, Command}
use open_vbus.Daemon.Sync
use open_vbus.Daemon.Commands
use open_vbus.Daemon.Invariant.Fine.{
  IsFine, fine, with_bus-IsFine, with_number-IsFine, branches-IsFine,
}
use open_vbus.Daemon.Invariant.Endpoints.{
  stop_capturing-IsFine, capture_udp-IsFine, capture_tcp-IsFine, forward_udp-IsFine,
  stop_forward-IsFine,
}
use open_vbus.Daemon.Invariant.Replays.{replay-IsFine, replay_udp-IsFine, scaled-IsFine}

add_bus-IsSound :
    (name : Text) (kind : Kind) (w : World) → IsSound w → IsSound (add_bus name kind w)
unfolding add_bus put_bus new_wrap new_bus
add_bus-IsSound name kind w (hb, hs, he) =
    (All-insert IsLinked name (new_wrap w kind) w.buses (refl, refl, refl) hb, hs, he)

create-IsFine :
    (name type number : Text) (w : World) → IsSound w → IsFine (Handler.create name type number w)
unfolding Handler.create Handler.create_at
create-IsFine name type number w h = elim (Option-cases (lookup name w.buses)) [
  | inr (b, e) ↦ rw e (fine h)
  | inl e ↦ rw e (
      branches-IsFine (text_eq type (codes "eth")) _ _
        (with_number-IsFine (stoull number) _ (λ n. fine (add_bus-IsSound name (eth n) w h)))
        (branches-IsFine (text_eq type (codes "can")) _ _
          (with_number-IsFine (stoul number) _ (λ n. fine (add_bus-IsSound name (can n) w h)))
          (fine h)))
]

delete-IsFine : (name : Text) (w : World) → IsSound w → IsFine (Handler.delete name w)
unfolding Handler.delete
delete-IsFine name w h = with_bus-IsFine name w _ h λ b hl.
    let (l₁, s₁) = detach_sub-IsKept b w hl h in
    let (l₂, s₂) = stop_capture-IsKept _ _ (detach_recorder-IsLinked _ l₁) s₁ in
    let (l₃, (hb, hs, he)) = reset_sink-IsKept _ _ l₂ s₂ in
    fine (All-erase IsLinked name _ hb, hs, he)

record_on-IsFine :
    (os : Os) (name file : Text) (w : World) → IsSound w → IsFine (Handler.record_on os name file w)
unfolding Handler.record_on
record_on-IsFine os name file w h = with_bus-IsFine name w _ h λ b hl.
    let (l, s) = attach_recorder-IsKept os file b w hl h in fine (put_bus-IsSound name _ _ l s)

record_off-IsFine : (name : Text) (w : World) → IsSound w → IsFine (Handler.record_off name w)
unfolding Handler.record_off
record_off-IsFine name w h =
    with_bus-IsFine name w _ h
      λ b hl. fine (put_bus-IsSound name _ w (detach_recorder-IsLinked b hl) h)

send_limited-IsFine :
    (proto limit : ℕ) (refusal : Reply) (os : Os) (name id hex : Text) (w : World)
    → IsSound w
    → IsFine (send_limited proto limit refusal os name id hex w)
unfolding send_limited
send_limited-IsFine proto limit refusal os name id hex w h =
    branches-IsFine (ltb limit (length (hex_to_bytes hex))) _ _ (fine h) (
      with_bus-IsFine name w _ h (λ b hl.
        with_number-IsFine (stoul_any id) _ (λ n. fine (send_on-IsSound os name b _ w hl h))))

subscribe-IsFine :
    (p : ℕ) (name : Text) (w : World) → IsSound w → IsFine (Handler.subscribe p name w)
unfolding Handler.subscribe
subscribe-IsFine p name w h =
    with_bus-IsFine name w _ h
      λ b hl. let (l, s) = attach_sub-IsKept p b w hl h in fine (put_bus-IsSound name _ _ l s)

send_eth-IsFine :
    (os : Os) (name hex : Text) (w : World) → IsSound w → IsFine (Handler.send_eth os name hex w)
unfolding Handler.send_eth
send_eth-IsFine os name hex w h =
    with_bus-IsFine name w _ h (λ b hl. fine (send_on-IsSound os name b _ w hl h))

-- Every command leaves a sound world, or ends the program by an exception.
pub execute-IsFine :
    (os : Os) (p : ℕ) (c : Command) (w : World) → IsSound w → IsFine (execute os p c w)
unfolding execute Handler.list Handler.stats_of Handler.send_can Handler.send_canfd Sync.replay_sync
execute-IsFine os p Commands.empty_line w h = fine h
execute-IsFine os p Commands.unknown w h = fine h
execute-IsFine os p Commands.list w h = fine h
execute-IsFine os p Commands.quit w h = fine h
execute-IsFine os p (Commands.create name type number) w h = create-IsFine name type number w h
execute-IsFine os p (Commands.delete name) w h = delete-IsFine name w h
execute-IsFine os p (Commands.stop_rec name) w h = record_off-IsFine name w h
execute-IsFine os p (Commands.stats_of name) w h = with_bus-IsFine name w _ h (λ b hl. fine h)
execute-IsFine os p (Commands.stop_capturing name) w h = stop_capturing-IsFine name w h
execute-IsFine os p (Commands.stop_forward name) w h = stop_forward-IsFine name w h
execute-IsFine os p (Commands.subscribe name) w h = subscribe-IsFine p name w h
execute-IsFine os p (Commands.record_on name file) w h = record_on-IsFine os name file w h
execute-IsFine os p (Commands.record_off name) w h = record_off-IsFine name w h
execute-IsFine os p (Commands.send_eth name hex) w h = send_eth-IsFine os name hex w h
execute-IsFine os p (Commands.send_can name id hex) w h =
    send_limited-IsFine _ _ _ os name id hex w h
execute-IsFine os p (Commands.send_canfd name id hex) w h =
    send_limited-IsFine _ _ _ os name id hex w h
execute-IsFine os p (Commands.replay name file mode) w h = replay-IsFine os name file mode w h
execute-IsFine os p (Commands.capture_udp name host port) w h =
    capture_udp-IsFine os name host port w h
execute-IsFine os p (Commands.capture_tcp name host port target q) w h =
    capture_tcp-IsFine os name host port target q w h
execute-IsFine os p (Commands.forward_udp name host port) w h =
    forward_udp-IsFine os name host port w h
execute-IsFine os p (Commands.replay_udp file host port mode) w h =
    replay_udp-IsFine os file host port mode w h
execute-IsFine os p (Commands.replay_sync mode rest) w h = scaled-IsFine os _ _ rest w h
