-- ===== src/Daemon/Tests.antt =====
-- Runs of the daemon.
use open_vbus.Daemon.Replies.{render}
use open_vbus.Daemon.Commands.{split, parse}
use open_vbus.Frame.{Frame, hex_pairs, hex_to_bytes}
use open_vbus.Daemon.Sync.{StreamDesc, peek_all}
use open_vbus.Daemon.Sync.Origin.{IsOrigin, peek_all-IsOrigin}
use open_vbus.Vcap.{rec_bytes, rec_of_frame, open_recorder, new_recorder}
use open_vbus.Vcap.Records.{IsStorable}
use open_vbus.Vcap.RoundTrip.{body, record_all, replay_file}
use open_vbus.Scheduler.{snapshot_until}
use open_vbus.Daemon.Serve.{tick}
use open_vbus.Daemon.Recording.{recorded, due_at, tick-recorded}
use open_vbus.Base.{
  ◌+◌, ◌<◌, ◌++◌, ℕ, All, ◌^◌, ◌-◌, List, [], arith, ◌≤◌, length, ◌∷◌, insert, ◌≡◌, refl, true,
  false, none, some, Text, codes, text_eq, lookup, if◌then◌else◌,
}
use open_vbus.Bus.{eth}
use open_vbus.Daemon.Replies
use open_vbus.Daemon.Numbers.{stoull}
use open_vbus.Daemon.State.{World, Os}
use open_vbus.Daemon.Sending.{IsDelivery, send_can_lem}
use open_vbus.Frame.{can20}
use open_vbus.Scheduler.{Item}
use open_vbus.Scheduler.Insertion.{pop_list, earliest}
use open_vbus.Bus.{Job}
use open_vbus.Daemon.Numbers.{stoul_any}
use open_vbus.Daemon.Handler.{send_can, answered, create, delete, add_bus, new_wrap}
use open_vbus.Daemon.Serve.{trim, handle_cmd, respond, serve, execute}
use open_vbus.Daemon.Buses.{Asks, for_eth, delete_lem, create-delete}
use open_vbus.Daemon.Invariant.Wraps.{IsSound}
use open_vbus.Daemon.Invariant.Runs.{new_world, here, step, message, reachable-IsSound}

abbrev os : Os
os = record {
  now₁ = 5;
  now₂ = 6;
  file = λ path. none;
  device = λ path. some 1000;
  sockets = record { socket = some 3; bind = true; listen = true };
  resolves = true;
  pipe_accepts = true;
  stod = λ text. none;
}

abbrev one_bus : World
one_bus = add_bus (codes "a") (eth 1000) new_world

served :
    serve os 1 (codes "create a eth 1000\n") new_world
    ≡ some (one_bus, codes "OK created eth\n", false)
unfolding serve respond handle_cmd execute parse split trim create lookup stoull render text_eq
served = refl

asked : Asks (codes "eth") (codes "1000") (eth 1000) Replies.created_eth
unfolding stoull
asked = for_eth refl refl

unknown_name : lookup (codes "a") new_world.buses ≡ none
unfolding lookup
unknown_name = refl

known_name : lookup (codes "a") one_bus.buses ≡ some (new_wrap new_world (eth 1000))
unfolding lookup text_eq add_bus insert
known_name = refl

reachable-IsSound_example : IsSound one_bus
reachable-IsSound_example =
    reachable-IsSound (step here (message os 1 (codes "create a eth 1000\n") served))

delete_lem_example :
    (w' : World) × (delete (codes "a") one_bus ≡ answered w' Replies.deleted false)
    × ((j : Text)
        → lookup j w'.buses ≡ (if text_eq (codes "a") j then none else lookup j one_bus.buses))
delete_lem_example = delete_lem (codes "a") one_bus (new_wrap new_world (eth 1000)) known_name

create-delete_example :
    (w' : World) × (w'' : World) × (create (codes "a") (codes "eth") (codes "1000") new_world
      ≡ answered w' Replies.created_eth false)
    × ((type₂ number₂ : Text)
        → create (codes "a") type₂ number₂ w' ≡ answered w' Replies.already_exists false)
    × (delete (codes "a") w' ≡ answered w'' Replies.deleted false)
    × ((j : Text) → lookup j w''.buses ≡ lookup j new_world.buses)
create-delete_example =
    create-delete (codes "a") (codes "eth") (codes "1000") new_world (eth 1000) Replies.created_eth
      unknown_name asked

can_number : stoul_any (codes "0x12") ≡ some 18
unfolding stoul_any
can_number = refl

short_enough : length (hex_to_bytes (codes "ff")) ≤ 8
unfolding hex_to_bytes hex_pairs
short_enough = omega arith

send_can_lem_example :
    (w' : World) × (i : Item Job) × (send_can os (codes "a") (codes "0x12") (codes "ff") one_bus
      ≡ answered w' Replies.sent false)
    × (w'.sched ≡ i ∷ one_bus.sched)
    × IsDelivery (new_wrap new_world (eth 1000)) can20 18 (codes "ff") i
send_can_lem_example =
    send_can_lem os (codes "a") (codes "0x12") (codes "ff") one_bus (new_wrap new_world (eth 1000))
      18 known_name short_enough can_number

abbrev two_streams : List StreamDesc
two_streams =
    record { file = codes "a.vbuscap"; host = codes "127.0.0.1"; port = 9000 }
    ∷ record { file = codes "b.vbuscap"; host = codes "127.0.0.1"; port = 9001 }
    ∷ []

peek_all-IsOrigin_example :
    IsOrigin os two_streams (2 ^ 64 - 1) (peek_all os two_streams (2 ^ 64 - 1))
peek_all-IsOrigin_example = peek_all-IsOrigin os two_streams (2 ^ 64 - 1)

abbrev a_frame : ℕ → Frame
a_frame ts = record { proto = can20; tag = 3; ts_ns = ts; payload = 1 ∷ [] }

-- a delivery to the recorder at `cb`
abbrev to_recorder : ℕ → ℕ → Item Job
to_recorder t cb = record {
  t = t;
  fn = record { targets = []; frame = a_frame t; rec_cb = some cb; sub_cb = none; stats = 1 };
}

-- a recorder that has one frame, and four deliveries, one of them for another recorder and one late
abbrev recording_world : World
recording_world = record new_world {
  recorders = λ r. record_all (a_frame 2 ∷ []) (open_recorder (some 200) new_recorder).1;
  sched = to_recorder 9 5 ∷ to_recorder 30 5 ∷ to_recorder 7 6 ∷ to_recorder 4 5 ∷ [];
}

frames_due : recorded 5 (due_at 10 recording_world) ≡ a_frame 4 ∷ a_frame 9 ∷ []
unfolding snapshot_until pop_list earliest
frames_due = refl

a_frame-IsStorable : (ts : ℕ) → ts < 2 ^ 64 → IsStorable (a_frame ts)
a_frame-IsStorable ts h = record {
  proto = omega arith;
  tag = omega arith;
  ts_ns = h;
  len = omega arith;
}

IsStorable-due :
    (fs : List Frame)
    → fs ≡ a_frame 4 ∷ a_frame 9 ∷ []
    → All IsStorable (a_frame 2 ∷ fs) × (16 + length (body (a_frame 2 ∷ fs)) ≤ 200)
unfolding rec_bytes rec_of_frame
IsStorable-due fs e =
    let two = a_frame-IsStorable 2 (omega arith) in
    let four = a_frame-IsStorable 4 (omega arith) in
    let nine = a_frame-IsStorable 9 (omega arith) in rw e ((two, (four, (nine, tt))), omega arith)

tick-recorded_example :
    ((tick os 10 recording_world).recorders 5
      ≡ record_all
          ((a_frame 2 ∷ []) ++ recorded 5 (due_at 10 recording_world))
          (open_recorder (some 200) new_recorder).1)
    × (replay_file ((tick os 10 recording_world).recorders 5).out.written
        ≡ some ((a_frame 2 ∷ []) ++ recorded 5 (due_at 10 recording_world)))
tick-recorded_example =
    tick-recorded os 10 recording_world 5 200 (a_frame 2 ∷ []) refl
      (IsStorable-due (recorded 5 (due_at 10 recording_world)) frames_due).0
      (IsStorable-due (recorded 5 (due_at 10 recording_world)) frames_due).1
