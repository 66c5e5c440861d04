-- ===== src/Daemon/Invariant/Runs.antt =====
-- The daemon's life as a sequence of steps: commands, frames that come in, and turns of the main loop.
use open_vbus.Daemon.Commands.{split, parse}
use mathlib.Core.List.{not-mem-nil}
use open_vbus.Base.{
  inr, inl, Bool-cases, subst, arith, ℕ, ◌≡◌, Bool, false, some, none, List, [], ◌∷◌, Text, lookup,
  All, ◌==◌,
}
use open_vbus.Frame.{Frame}
use open_vbus.Vcap.{new_recorder}
use open_vbus.Scheduler.{SimTime}
use open_vbus.Net.{Capture}
use open_vbus.Daemon.State.{World, BusWrap, Os, Handle, send_on, bus_at}
use open_vbus.Daemon.Handler.{Outcome, answered, terminated}
use open_vbus.Daemon.Serve.{trim, serve, respond, tick, handle_cmd}
use open_vbus.Daemon.Invariant.Wraps.{IsSound, IsLinked, All-lookup}
use open_vbus.Daemon.Invariant.Steps.{send_on-IsSound, tick-IsSound}
use open_vbus.Daemon.Invariant.Fine.{IsFine, fine, stopped}
use open_vbus.Daemon.Invariant.Preserved.{execute-IsFine}

-- the globals of vbusd.cpp as the program starts
abbrev pub new_world : World
new_world = record {
  buses = [];
  sched = [];
  recorders = λ p. new_recorder;
  subs = λ p. record { pipe = none };
  next = 0;
  shutdown = false;
  events = [];
}

-- One step: a message of a client, a frame that the capture of a bus takes in, a frame of a replay
-- thread whose bus is still there, or a turn of the main loop.
pub data Step : World → World → Type 0 where
  message :
      (os : Os) (h : Handle) (text : Text) {w w' : World} {reply : Text} {stay : Bool}
      → serve os h text w ≡ some (w', reply, stay)
      → Step w w'
  captured :
      (os : Os) (name : Text) (b : BusWrap) (c : Capture) (f : Frame) {w : World}
      → lookup name w.buses ≡ some b
      → b.cap ≡ some c
      → Step w (send_on os name b f w)
  replayed :
      (os : Os) (a : ℕ) (name : Text) (b : BusWrap) (f : Frame) {w : World}
      → bus_at a w.buses ≡ some (name, b)
      → Step w (send_on os name b f w)
  turn : (os : Os) (now : SimTime) {w : World} → Step w (tick os now w)

pub data Reaches : World → World → Type 0 where
  here : {w : World} → Reaches w w
  step : {u v w : World} → Reaches u v → Step v w → Reaches u w

respond-IsSound :
    (o : Outcome) (w : World) (reply : Text) (stay : Bool)
    → IsFine o
    → respond o ≡ some (w, reply, stay)
    → IsSound w
unfolding respond
respond-IsSound (answered v r s) w reply stay (fine h) e =
    let same : v ≡ w = cc in subst IsSound same h
respond-IsSound terminated w reply stay stopped e = cc

bus_at-IsLinked :
    (a : ℕ) (bs : List (Text × BusWrap)) (n : Text) (b : BusWrap)
    → All (λ e. IsLinked e.1) bs
    → bus_at a bs ≡ some (n, b)
    → IsLinked b
unfolding bus_at
bus_at-IsLinked a [] n b h e = ground arith
bus_at-IsLinked a ((m, c) ∷ bs) n b (hc, h) e = elim (Bool-cases (c.bus.address == a)) [
  | inl t ↦ let same : c ≡ b = ground arith in subst IsLinked same hc
  | inr t ↦ bus_at-IsLinked a bs n b h (ground arith)
]

Step-IsSound : {w w' : World} → Step w w' → IsSound w → IsSound w'
unfolding serve handle_cmd
Step-IsSound {w = w} (message os p text e) h =
    respond-IsSound _ _ _ _ (execute-IsFine os p (parse (split (trim text))) w h) e
Step-IsSound {w = w} (captured os name b c f e q) h =
    send_on-IsSound os name b f w (All-lookup IsLinked name w.buses b h.0 e) h
Step-IsSound {w = w} (replayed os a name b f e) h =
    send_on-IsSound os name b f w (bus_at-IsLinked a w.buses name b h.0 e) h
Step-IsSound {w = w} (turn os now) h = tick-IsSound os now w h

-- Every world that the daemon reaches, with replay threads that send only while their bus is there,
-- is sound: the record and forward callbacks of each bus are
-- those of the recorder and the sink that it holds, no bus has endpoints, no scheduled delivery has
-- targets, and no step has called a sink or counted on a bus that is gone.
pub reachable-IsSound : {w : World} → Reaches new_world w → IsSound w
reachable-IsSound here = (tt, (λ i m. absurd (not-mem-nil m)), tt)
reachable-IsSound (step r s) = Step-IsSound s (reachable-IsSound r)
