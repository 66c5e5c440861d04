-- ===== src/Daemon/State.antt =====
-- The globals of vbusd.cpp, and the helpers that attach and detach recorders and subscribers.
-- Heap objects behind shared pointers have addresses; a bus, its capture and its sink are owned by
-- their `BusWrap`. The map's order of iteration is unspecified; here it is the order of creation.
use open_vbus.Base.{
  ℕ, ◌+◌, ◌%◌, ◌^◌, Bool, true, false, Option, none, some, List, [], ◌∷◌, ◌++◌, Text, Bytes, Heap,
  update, insert, if◌then◌else◌, ◌==◌,
}
use open_vbus.Frame.{Frame}
use open_vbus.Vcap.{Recorder, new_recorder, open_recorder, write_frame, rec_bytes, rec_of_frame}
use open_vbus.Scheduler.{SimTime, Item, post}
use open_vbus.Scheduler.Insertion.{insertion_queue}
use open_vbus.Bus.{
  Bus, Job, Effect, record_frame, stream_frame, receive, count_rx, set_record_cb, set_sub_cb,
  set_fwd_cb, send, deliver,
}
use open_vbus.Net.{Capture, Sink, Socket, Answers, stop, forward}

abbrev pub Handle : Type 0
Handle = ℕ

-- `SubInfo`: the pipe, `none` for INVALID_HANDLE_VALUE
pub record SubInfo : Type 0 where
  pub pipe : Option Handle

pub record BusWrap : Type 0 where
  pub bus : Bus
  pub rec : Option ℕ
  pub cap : Option Capture
  pub sink : Option Sink
  pub sub : ℕ

-- What a detached replay thread was started with: where the frames go, the file, and the timing.
pub data Replay : Type 0 where
  onto_bus : ℕ → Text → Bool → ℕ → Replay
  as_datagrams : Text → Text → ℕ → Bool → ℕ → Replay
  in_sync : Text → Text → ℕ → ℕ → SimTime → Bool → ℕ → Replay

-- What the daemon does to the world outside, latest first. A `fault` is a use of an object that has
-- been destroyed.
pub data Event : Type 0 where
  fault : Event
  close_handle : Handle → Event
  close_socket : Socket → Event
  pipe_message : Handle → Bytes → Event
  datagram : Socket → Bytes → Event
  reception : ℕ → Frame → Event
  start_replay : Replay → Event

pub record World : Type 0 where
  pub buses : List (Text × BusWrap)
  pub sched : List (Item Job)
  pub recorders : Heap Recorder
  pub subs : Heap SubInfo
  pub next : ℕ
  pub shutdown : Bool
  pub events : List Event

-- What the system answers while one command or one step runs. A scale factor is a double, by its
-- bit pattern; `stod` is `none` where `std::stod` throws.
pub record Os : Type 0 where
  pub now₁ : SimTime
  pub now₂ : SimTime
  pub file : Text → Option Bytes
  pub device : Text → Option ℕ
  pub sockets : Answers
  pub resolves : Bool
  pub pipe_accepts : Bool
  pub stod : Text → Option ℕ

unfoldable pub log : Event → World → World
log e w = record w { events = e ∷ w.events }

unfoldable pub put_bus : Text → BusWrap → World → World
put_bus name b w = record w { buses = insert name b w.buses }

-- `detachRecorder`
unfoldable pub detach_recorder : BusWrap → BusWrap
detach_recorder b = record b { bus = set_record_cb none b.bus; rec = none }

unfoldable pub install_recorder : Bool → ℕ → BusWrap → BusWrap
install_recorder true r b = record b { bus = set_record_cb (some r) b.bus; rec = some r }
install_recorder false r b = b

-- `attachRecorder`: `w.rec` is a new `Recorder`, kept if it opens.
unfoldable pub attach_recorder : Os → Text → BusWrap → World → BusWrap × World
unfolding detach_recorder install_recorder
attach_recorder os path b w =
    let b' = detach_recorder b in
    let (opened, r) = open_recorder (os.device path) new_recorder in
    let w' = record w { recorders = update w.recorders w.next r; next = w.next + 1 } in
    (install_recorder opened w.next b', w')

-- closes the subscriber's pipe, if there is one
unfoldable pub close_pipe : Option Handle → ℕ → World → World
unfolding log
close_pipe none s w = w
close_pipe (some h) s w =
    log (close_handle h) (record w { subs = update w.subs s (record { pipe = none }) })

unfoldable pub close_sub : ℕ → World → World
unfolding close_pipe
close_sub s w = close_pipe (w.subs s).pipe s w

-- `attachSub`
unfoldable pub attach_sub : Handle → BusWrap → World → BusWrap × World
unfolding close_sub
attach_sub h b w =
    let w' = close_sub b.sub w in
    (
      record b { bus = set_sub_cb (some b.sub) b.bus },
      record w' { subs = update w'.subs b.sub (record { pipe = some h }) },
    )

-- `detachSub`
unfoldable pub detach_sub : BusWrap → World → BusWrap × World
unfolding close_sub
detach_sub b w = (record b { bus = set_sub_cb none b.bus }, close_sub b.sub w)

unfoldable pub log_all : List Socket → World → World
log_all [] w = w
log_all (s ∷ ss) w = log_all ss (record w { events = close_socket s ∷ w.events })

-- `if (cap) cap->stop();`
unfoldable pub stop_cap : Option Capture → BusWrap → World → BusWrap × World
unfolding log_all stop
stop_cap none b w = (b, w)
stop_cap (some c) b w = (record b { cap = some (stop c).1 }, log_all (stop c).0 w)

unfoldable pub stop_capture : BusWrap → World → BusWrap × World
unfolding stop_cap
stop_capture b w = stop_cap b.cap b w

-- `sink.reset()`: the destructor clears the forward callback and closes the socket.
unfoldable pub destroy_sink : Option Sink → BusWrap → World → BusWrap × World
unfolding log
destroy_sink none b w = (b, w)
destroy_sink (some k) b w =
    (record b { bus = set_fwd_cb none b.bus; sink = none }, log (close_socket k.sock) w)

unfoldable pub reset_sink : BusWrap → World → BusWrap × World
unfolding destroy_sink
reset_sink b w = destroy_sink b.sink b w

-- the forward callback, called by `Send` on the sender's thread; it was made by the sink at `cb`
unfoldable pub send_datagram : Option (Socket × Bytes) → World → World
unfolding log
send_datagram none w = w
send_datagram (some (s, bytes)) w = log (datagram s bytes) w

unfoldable pub run_forward : Option Sink → Option (ℕ × Frame) → World → World
unfolding log forward send_datagram
run_forward sink none w = w
run_forward none (some (cb, f)) w = log fault w
run_forward (some k) (some (cb, f)) w =
    if k.address == cb then send_datagram (forward k f) w else log fault w

-- `bus->Send(nullptr, f)` on the bus `name`
unfoldable pub send_on : Os → Text → BusWrap → Frame → World → World
unfolding run_forward put_bus
send_on os name b f w =
    let s = send os.now₁ os.now₂ none f b.bus in
    let w' = run_forward b.sink s.forwarded w in
    put_bus name (record b { bus = s.bus })
      (record w' { sched = post (insertion_queue Job) s.item.t s.item.fn w'.sched })

-- the bus at an address, with its name
unfoldable pub bus_at : ℕ → List (Text × BusWrap) → Option (Text × BusWrap)
bus_at a [] = none
bus_at a ((n, b) ∷ bs) = if b.bus.address == a then some (n, b) else bus_at a bs

-- the callback that `attachSub` makes: one message, and the pipe is closed when it does not take it
unfoldable pub write_pipe : Bool → Option Handle → ℕ → Frame → World → World
unfolding log close_pipe
write_pipe accepts none s f w = w
write_pipe true (some h) s f w = log (pipe_message h (rec_bytes (rec_of_frame f) ++ f.payload)) w
write_pipe false (some h) s f w = close_pipe (some h) s w

unfoldable pub run_sub : Os → ℕ → Frame → World → World
unfolding write_pipe
run_sub os s f w = write_pipe os.pipe_accepts (w.subs s).pipe s f w

unfoldable pub run_effect : Os → Effect → World → World
unfolding log run_sub put_bus
run_effect os (record_frame r f) w = record w {
  recorders = update w.recorders r (write_frame f (w.recorders r)).1;
}
run_effect os (stream_frame s f) w = run_sub os s f w
run_effect os (receive ep f) w = log (reception ep f) w
run_effect os (count_rx a) w = elim (bus_at a w.buses) [
  | none ↦ log fault w
  | some (n, b) ↦
      let stats = b.bus.stats in
      let stats' = record stats { rx_frames = (stats.rx_frames + 1) % 2 ^ 64 } in
      put_bus n (record b { bus = record b.bus { stats = stats' } }) w
]

unfoldable pub run_effects : Os → List Effect → World → World
run_effects os [] w = w
run_effects os (e ∷ es) w = run_effects os es (run_effect os e w)

-- the scheduled lambda
unfoldable pub run_job : Os → Job → World → World
unfolding run_effects
run_job os j w = run_effects os (deliver j) w
