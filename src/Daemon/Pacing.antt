-- ===== src/Daemon/Pacing.antt =====
-- The detached threads of `replay`, `replay-udp` and `replay-sync` in vbusd.cpp. The readings of the
-- clock come as a list, in the order in which a thread takes them; where it is used up, the thread
-- still waits. `product n scale` is `static_cast<uint64_t>(n * scale)` with a double.
pub mod Timely
pub mod Exact
pub mod Recorded
mod Tests
use open_vbus.Base.{
  length, ◌<◌, ◌≡◌, ◌>>=◌, ◌++◌, ◌-◌, ℕ, ◌+◌, ◌%◌, ◌^◌, Bool, true, false, Option, none, some, List,
  [], ◌∷◌, Text, Bytes, map, ltb, ◌==◌, if◌then◌else◌,
}
use open_vbus.Frame.{Frame}
use open_vbus.Vcap.RoundTrip.{replay_file}
use open_vbus.Scheduler.{SimTime}
use open_vbus.Daemon.State.{Replay, onto_bus, as_datagrams, in_sync}

-- A frame that a thread has sent, with the last reading of the clock before.
pub record Sending : Type 0 where
  pub seen : SimTime
  pub frame : Frame

-- What a thread has sent, and whether its loop has ended.
pub record Play : Type 0 where
  pub sent : List Sending
  pub over : Bool

-- `bus->Send(nullptr, f)` on a bus by its address, a call of `sendto` with the address, the port, the
-- payload and whether it goes out, or `closesocket`.
pub data Output : Type 0 where
  onto : ℕ → Frame → Output
  datagram : ℕ → ℕ → Bytes → Bool → Output
  closed : Output

-- What `inet_pton` and `sendto` answer: the address that a text stands for, if it does, and whether a
-- call of `sendto`, by its number, sends its payload to an address and port. A datagram of IPv4 holds
-- 65,507 bytes.
pub record Network : Type 0 where
  pub inet_pton : Text → Option ℕ
  pub sendto : ℕ → ℕ → ℕ → Bytes → Bool
  pub too_long :
      (n address port : ℕ) (payload : Bytes)
      → 65507 < length payload
      → sendto n address port payload ≡ false

-- `sockaddr_in dst{};` and `inet_pton`, whose result is not looked at
unfoldable pub address_of : Option ℕ → ℕ
address_of none = 0
address_of (some address) = address

-- `while (g_clk.Now() < fire_at) sleep_for(100 us);`: the first reading that ends it, and the later ones
unfoldable pub wait_until : SimTime → List SimTime → Option (SimTime × List SimTime)
wait_until fire_at [] = none
wait_until fire_at (now ∷ later) =
    let more = wait_until fire_at later in if ltb now fire_at then more else some (now, later)

-- `if (first_cap_ts == 0) first_cap_ts = f.Ts_ns;`, and the shared origin of the streams
unfoldable pub own_first : SimTime → SimTime → SimTime
own_first first ts = if first == 0 then ts else first

unfoldable pub shared_first : SimTime → SimTime → SimTime
shared_first first ts = first

unfoldable pub sent_one : SimTime → Frame → Play → Play
sent_one seen f p = record { sent = record { seen = seen; frame = f } ∷ p.sent; over = p.over }

unfoldable pub after_wait :
    Frame → Option (SimTime × List SimTime) → (SimTime → List SimTime → Play) → Play
unfolding sent_one
after_wait f none k = record { sent = []; over = false }
after_wait f (some (seen, later)) k = sent_one seen f (k seen later)

module _ (product : ℕ → ℕ → ℕ) where
  unfoldable pub fire_at : ℕ → SimTime → SimTime → SimTime → SimTime
  fire_at scale begin first ts = (begin + product ((ts + 2 ^ 64 - first) % 2 ^ 64) scale) % 2 ^ 64

  -- The loop over the frames: `first` is the origin so far, and `now` the last reading.
  unfoldable pub play_loop :
      (SimTime → SimTime → SimTime)
      → Bool
      → ℕ
      → SimTime
      → SimTime
      → SimTime
      → List Frame
      → List SimTime
      → Play
  unfolding fire_at wait_until after_wait sent_one
  play_loop origin timed scale begin first now [] readings = record { sent = []; over = true }
  play_loop origin timed scale begin first now (f ∷ fs) readings =
      let first' = origin first f.ts_ns in
      let paced =
        after_wait f (wait_until (fire_at scale begin first' f.ts_ns) readings)
          λ seen later. play_loop origin timed scale begin first' seen fs later in
      let at_once = sent_one now f (play_loop origin timed scale begin first now fs readings) in
      if timed then paced else at_once

  -- `replay` and `replay-udp`: the start is the first reading.
  unfoldable pub play_own : Bool → ℕ → List Frame → List SimTime → Play
  unfolding play_loop own_first
  play_own timed scale fs [] = record { sent = []; over = false }
  play_own timed scale fs (begin ∷ readings) =
      play_loop own_first timed scale begin 0 begin fs readings

  -- `replay-sync`: the thread waits for the common start.
  started_at : Bool → ℕ → SimTime → SimTime → List Frame → Option (SimTime × List SimTime) → Play
  unfolding play_loop shared_first
  started_at timed scale begin first fs none = record { sent = []; over = false }
  started_at timed scale begin first fs (some (now, later)) =
      play_loop shared_first timed scale begin first now fs later

  unfoldable pub play_shared : Bool → ℕ → SimTime → SimTime → List Frame → List SimTime → Play
  unfolding started_at wait_until
  play_shared timed scale begin first fs readings =
      started_at timed scale begin first fs (wait_until begin readings)

  -- the frames of the file, as the thread opens it; a file that does not open ends the thread
  frames_of : Option Bytes → Option (List Frame)
  unfolding replay_file
  frames_of none = some []
  frames_of (some bytes) = replay_file bytes

  played : Replay → List Frame → List SimTime → Play
  unfolding play_own play_shared
  played (onto_bus address file timed scale) fs readings = play_own timed scale fs readings
  played (as_datagrams file host port timed scale) fs readings = play_own timed scale fs readings
  played (in_sync file host port first begin timed scale) fs readings =
      play_shared timed scale begin first fs readings

module _ (product : ℕ → ℕ → ℕ) (net : Network) where
  -- the result of `sendto` is not looked at
  send_payload : Text → ℕ → ℕ → Bytes → Output
  unfolding address_of
  send_payload host port n payload =
      let address = address_of (net.inet_pton host) in
      datagram address port payload (net.sendto n address port payload)

  output_of : Replay → ℕ → Sending → Output
  unfolding send_payload
  output_of (onto_bus address file timed scale) n s = onto address s.frame
  output_of (as_datagrams file host port timed scale) n s = send_payload host port n s.frame.payload
  output_of (in_sync file host port first begin timed scale) n s =
      send_payload host port n s.frame.payload

  -- the outputs of the frames that are sent, by their numbers
  outputs_of : Replay → ℕ → List Sending → List Output
  unfolding output_of
  outputs_of r n [] = []
  outputs_of r n (s ∷ sent) = output_of r n s ∷ outputs_of r (n + 1) sent

  -- what a thread with a socket has done: at its end it closes the socket
  with_socket : List Output → Bool → List Output
  with_socket outputs over = if over then outputs ++ closed ∷ [] else outputs

  -- a thread without a socket, and one that asks for it
  done_by : Replay → Bool → Play → List Output × Bool
  unfolding outputs_of with_socket
  done_by (onto_bus address file timed scale) has_socket p =
      (outputs_of (onto_bus address file timed scale) 0 p.sent, p.over)
  done_by r has_socket p =
      if has_socket then (with_socket (outputs_of r 0 p.sent) p.over, p.over) else ([], true)

  -- A thread from its start, with the file that it finds, the answer to its call of `socket`, and the
  -- readings of the clock: what it has done, and whether it has ended.
  unfoldable pub run_replay :
      Replay → Option Bytes → Bool → List SimTime → Option (List Output × Bool)
  unfolding frames_of played done_by
  run_replay r file has_socket readings =
      frames_of product file >>= λ fs. some (done_by r has_socket (played product r fs readings))
