-- ===== src/Daemon/Invariant/Endpoints.antt =====
-- The commands on captures and forwarders keep the invariant.
use open_vbus.Daemon.Numbers.{stoul}
use open_vbus.Net.{Sink, Socket, new_capture, start, Source}
use open_vbus.Bus.{set_fwd_cb}
use open_vbus.Daemon.Replies.{Reply}
use open_vbus.Daemon.Invariant.Wraps.{
  log_all-IsSound, reset_sink-IsKept, IsLinked, stop_capture-IsKept, put_bus-IsSound, IsSound,
}
use open_vbus.Daemon.State.{BusWrap, Os, World}
use open_vbus.Base.{ℕ, ◌+◌, ◌%◌, ◌^◌, refl, Option, none, some, Text}
use open_vbus.Daemon.Handler
use open_vbus.Daemon.Handler.{
  with_sink, sink_with, forwarded, Outcome, answered, terminated, with_bus, with_number, add_bus,
  new_wrap, send_limited, install, start_sink,
}
use open_vbus.Daemon.Invariant.Fine.{
  IsFine, fine, with_bus-IsFine, with_number-IsFine, branches-IsFine,
}

pub stop_capturing-IsFine :
    (name : Text) (w : World) → IsSound w → IsFine (Handler.stop_capturing name w)
unfolding Handler.stop_capturing
stop_capturing-IsFine name w h =
    with_bus-IsFine name w _ h
      λ b hl. let (l, s) = stop_capture-IsKept b w hl h in fine (put_bus-IsSound name _ _ l s)

install-IsFine :
    (os : Os) (name : Text) (source : Source) (host : Text) (port : ℕ) (good bad : Reply)
    (b : BusWrap) (w : World)
    → IsLinked b
    → IsSound w
    → IsFine (install os name source host port good bad b w)
unfolding install
install-IsFine os name source host port good bad b w hl h =
    let s = start os.sockets (new_capture source host (port % 2 ^ 16)) in
    let h' = log_all-IsSound s.closed w h in
    branches-IsFine s.success _ _ (fine (put_bus-IsSound name _ _ hl h'))
      (fine (put_bus-IsSound name b _ hl h'))

pub capture_udp-IsFine :
    (os : Os) (name host port : Text) (w : World)
    → IsSound w
    → IsFine (Handler.capture_udp os name host port w)
unfolding Handler.capture_udp
capture_udp-IsFine os name host port w h = with_bus-IsFine name w _ h λ b hl.
    let (l, s) = stop_capture-IsKept b w hl h in
    with_number-IsFine (stoul port) _ (λ p. install-IsFine os name _ host p _ _ _ _ l s)

pub capture_tcp-IsFine :
    (os : Os) (name host port target q : Text) (w : World)
    → IsSound w
    → IsFine (Handler.capture_tcp os name host port target q w)
unfolding Handler.capture_tcp
capture_tcp-IsFine os name host port target q w h = with_bus-IsFine name w _ h λ b hl.
    let (l, s) = stop_capture-IsKept b w hl h in
    with_number-IsFine (stoul port) _
      (λ p. with_number-IsFine (stoul q) _ (λ n. install-IsFine os name _ host p _ _ _ _ l s))

forwarded-IsFine :
    (k : Option Socket) (name host : Text) (port : ℕ) (b : BusWrap) (w : World)
    → IsLinked b
    → IsSound w
    → IsFine (forwarded name b w (sink_with k host port b w))
unfolding forwarded sink_with with_sink set_fwd_cb
forwarded-IsFine none name host port b w hl h = fine (put_bus-IsSound name b w hl h)
forwarded-IsFine (some k) name host port b w (ha, hr, hf) h =
    let sink : Sink = record { address = w.next; host = host; port = port; sock = k } in
    let w' : World = record w { next = w.next + 1 } in
    fine (put_bus-IsSound name (with_sink sink b) w' (ha, hr, refl) h)

pub forward_udp-IsFine :
    (os : Os) (name host port : Text) (w : World)
    → IsSound w
    → IsFine (Handler.forward_udp os name host port w)
unfolding Handler.forward_udp Handler.start_sink
forward_udp-IsFine os name host port w h = with_bus-IsFine name w _ h λ b hl.
    let (l, s) = reset_sink-IsKept b w hl h in
    with_number-IsFine (stoul port) _ (λ p. forwarded-IsFine _ name host (p % 2 ^ 16) _ _ l s)

pub stop_forward-IsFine :
    (name : Text) (w : World) → IsSound w → IsFine (Handler.stop_forward name w)
unfolding Handler.stop_forward
stop_forward-IsFine name w h =
    with_bus-IsFine name w _ h
      λ b hl. let (l, s) = reset_sink-IsKept b w hl h in fine (put_bus-IsSound name _ _ l s)
