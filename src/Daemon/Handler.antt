-- ===== src/Daemon/Handler.antt =====
-- `handle_cmd` of vbusd.cpp, one function to a branch. An exception that `std::stoul` or `std::stoull`
-- throws leaves the connection's thread, and the program with it: `terminated`.
use open_vbus.Base.{
  ℕ, ◌+◌, ◌%◌, ◌^◌, Bool, true, false, not, Option, none, some, List, Text, codes, text_eq,
  starts_with, lookup, erase, map, if◌then◌else◌, ltb, length, drop, ◌==◌,
}
use open_vbus.Frame.{blank, eth2, can20, canfd, hex_to_bytes}
use open_vbus.Vcap.{open_replayer}
use open_vbus.Bus.{Kind, eth, can, new_bus, set_fwd_cb}
use open_vbus.Net.{Sink, Socket, Source, udp_endpoint, tcp_proxy, new_capture, start}
use open_vbus.Daemon.Numbers.{stoul, stoul_any, stoull}
use open_vbus.Daemon.Replies.{Reply}
use open_vbus.Daemon.Replies
use open_vbus.Daemon.State.{
  Replay, Handle, BusWrap, World, Os, onto_bus, as_datagrams, start_replay, log, put_bus,
  detach_recorder, attach_recorder, attach_sub, detach_sub, stop_capture, reset_sink, send_on,
  log_all,
}

-- `resp` and `stay_open` beside the new state
pub data Outcome : Type 0 where
  answered : World → Reply → Bool → Outcome
  terminated : Outcome

abbrev pub answer : World → Reply → Outcome
answer w r = answered w r false

-- `auto it = g_buses.find(name); if (it == g_buses.end()) { resp = "ERR no bus"; return; }`
abbrev pub with_bus : Text → World → (BusWrap → Outcome) → Outcome
with_bus name w k = elim (lookup name w.buses) [ none ↦ answer w Replies.no_bus | some b ↦ k b ]

abbrev pub with_number : Option ℕ → (ℕ → Outcome) → Outcome
with_number none k = terminated
with_number (some n) k = k n

unfoldable pub new_wrap : World → Kind → BusWrap
new_wrap w kind = record {
  bus = new_bus w.next kind;
  rec = none;
  cap = none;
  sink = none;
  sub = w.next + 1;
}

-- The bus and its `SubInfo` are new objects.
unfoldable pub add_bus : Text → Kind → World → World
unfolding new_wrap put_bus
add_bus name kind w = put_bus name (new_wrap w kind) (record w {
  next = w.next + 2;
  subs = λ p. if p == w.next + 1 then record { pipe = none } else w.subs p;
})

unfoldable pub create_at : Option BusWrap → Text → Text → Text → World → Outcome
unfolding add_bus
create_at (some b) name type number w = answer w Replies.already_exists
create_at none name type number w =
    if text_eq type (codes "eth")
    then with_number (stoull number) (λ n. answer (add_bus name (eth n) w) Replies.created_eth)
    else if text_eq type (codes "can")
    then with_number (stoul number) (λ n. answer (add_bus name (can n) w) Replies.created_can)
    else answer w Replies.err_type

unfoldable pub create : Text → Text → Text → World → Outcome
unfolding create_at
create name type number w = create_at (lookup name w.buses) name type number w

unfoldable pub delete : Text → World → Outcome
delete name w = with_bus name w λ b.
    let (b₁, w₁) = detach_sub b w in
    let (b₂, w₂) = stop_capture (detach_recorder b₁) w₁ in
    let (b₃, w₃) = reset_sink b₂ w₂ in
    answer (record w₃ { buses = erase name w₃.buses }) Replies.deleted

names : World → List Text
names w = map (λ e. e.0) w.buses

unfoldable pub list : World → Outcome
unfolding names
list w = answer w (Replies.listing (names w))

unfoldable pub record_on : Os → Text → Text → World → Outcome
record_on os name file w = with_bus name w λ b.
    let (b', w') = attach_recorder os file b w in
    answer (put_bus name b' w')
      (elim b'.rec [ none ↦ Replies.open_failed | some r ↦ Replies.rec_on ])

-- `record <name> off` and `stoprec <name>`
unfoldable pub record_off : Text → World → Outcome
record_off name w = with_bus name w λ b. answer (put_bus name (detach_recorder b) w) Replies.rec_off

unfoldable pub stats_of : Text → World → Outcome
stats_of name w =
    with_bus name w
      λ b. let s = b.bus.stats in answer w (Replies.stats s.tx_frames s.rx_frames s.drops)

unfoldable pub send_eth : Os → Text → Text → World → Outcome
send_eth os name hex w = with_bus name w λ b.
    answer (send_on os name b (record blank { proto = eth2; payload = hex_to_bytes hex }) w)
      Replies.sent

-- the two CAN branches, which differ in the protocol, the limit and the refusal
unfoldable pub send_limited : ℕ → ℕ → Reply → Os → Text → Text → Text → World → Outcome
send_limited proto limit refusal os name id hex w =
    let payload = hex_to_bytes hex in
    if ltb limit (length payload)
    then answer w refusal
    else with_bus name w λ b. with_number (stoul_any id) λ n.
      answer (send_on os name b (record { proto = proto; tag = n; ts_ns = 0; payload = payload }) w)
        Replies.sent

unfoldable pub send_can : Os → Text → Text → Text → World → Outcome
unfolding send_limited
send_can = send_limited can20 8 Replies.too_long_can

unfoldable pub send_canfd : Os → Text → Text → Text → World → Outcome
unfolding send_limited
send_canfd = send_limited canfd 64 Replies.too_long_canfd

-- `mode != "burst"`
unfoldable pub is_timed : Text → Bool
is_timed mode = not (text_eq mode (codes "burst"))

-- 1.0, as a double
abbrev pub scale_one : ℕ
scale_one = 0x3ff0_0000_0000_0000

-- the scale of a mode: 1.0, or what follows `scale:`; `none` where `std::stod` throws
unfoldable pub scale_of : Os → Text → Option ℕ
scale_of os mode =
    if starts_with (codes "scale:") mode then os.stod (drop 6 mode) else some scale_one

-- a thread is started, unless the scale is bad
unfoldable pub started : Option ℕ → (ℕ → Replay) → Reply → World → Outcome
started none make r w = answer w Replies.bad_scale
started (some k) make r w = answer (log (start_replay (make k)) w) r

-- `replay <name> <file> <mode>`: the thread keeps the bus by its address.
unfoldable pub replay : Os → Text → Text → Text → World → Outcome
unfolding started
replay os name file mode w = with_bus name w λ b.
    if (open_replayer (os.file file)).0
    then started (scale_of os mode) (onto_bus b.bus.address file (is_timed mode))
        Replies.replay_started w
    else answer w (Replies.err_open file)

-- the second half of the capture branches: a new endpoint replaces the old one if it starts
unfoldable pub install : Os → Text → Source → Text → ℕ → Reply → Reply → BusWrap → World → Outcome
install os name source host port good bad b w =
    let s = start os.sockets (new_capture source host (port % 2 ^ 16)) in
    let w' = log_all s.closed w in
    if s.success
    then answer (put_bus name (record b { cap = some s.capture }) w') good
    else answer (put_bus name b w') bad

unfoldable pub capture_udp : Os → Text → Text → Text → World → Outcome
capture_udp os name host port w = with_bus name w λ b.
    let (b', w') = stop_capture b w in
    with_number (stoul port)
      λ p. install os name udp_endpoint host p Replies.capturing_udp Replies.bind_failed b' w'

unfoldable pub capture_tcp : Os → Text → Text → Text → Text → Text → World → Outcome
capture_tcp os name host port target target_port w = with_bus name w λ b.
    let (b', w') = stop_capture b w in
    with_number (stoul port) λ p. with_number (stoul target_port) λ q.
      install os name (tcp_proxy target (q % 2 ^ 16)) host p Replies.capturing_tcp
        Replies.listen_failed b' w'

unfoldable pub stop_capturing : Text → World → Outcome
stop_capturing name w = with_bus name w λ b.
    let (b', w') = stop_capture b w in
    answer (put_bus name (record b' { cap = none }) w') Replies.capture_stopped

-- `UdpSink::start`: the host must resolve and a socket must be had; then the sink becomes the
-- forward callback.
unfoldable pub with_sink : Sink → BusWrap → BusWrap
with_sink k b = record b { bus = set_fwd_cb (some k.address) b.bus; sink = some k }

unfoldable pub sink_with : Option Socket → Text → ℕ → BusWrap → World → Option (BusWrap × World)
unfolding with_sink
sink_with none host port b w = none
sink_with (some s) host port b w = some (
  with_sink (record { address = w.next; host = host; port = port; sock = s }) b,
  record w { next = w.next + 1 },
)

unfoldable pub start_sink : Os → Text → ℕ → BusWrap → World → Option (BusWrap × World)
unfolding sink_with
start_sink os = sink_with (if os.resolves then os.sockets.socket else none)

-- the sink is kept if it starts
unfoldable pub forwarded : Text → BusWrap → World → Option (BusWrap × World) → Outcome
forwarded name b w none = answer (put_bus name b w) Replies.forward_failed
forwarded name b w (some (b', w')) = answer (put_bus name b' w') Replies.forwarding_udp

unfoldable pub forward_udp : Os → Text → Text → Text → World → Outcome
unfolding start_sink forwarded
forward_udp os name host port w = with_bus name w λ b.
    let (b', w') = reset_sink b w in
    with_number (stoul port) λ p. forwarded name b' w' (start_sink os host (p % 2 ^ 16) b' w')

unfoldable pub stop_forward : Text → World → Outcome
stop_forward name w =
    with_bus name w
      λ b. let (b', w') = reset_sink b w in answer (put_bus name b' w') Replies.forward_stopped

unfoldable pub subscribe : Handle → Text → World → Outcome
subscribe h name w =
    with_bus name w
      λ b. let (b', w') = attach_sub h b w in answered (put_bus name b' w') Replies.stream true

-- `replay-udp`: the port is read before the file is opened.
unfoldable pub replay_udp : Os → Text → Text → Text → Text → World → Outcome
unfolding started
replay_udp os file host port mode w = with_number (stoul port) λ p.
    if (open_replayer (os.file file)).0
    then started (scale_of os mode) (as_datagrams file host (p % 2 ^ 16) (is_timed mode))
        Replies.replay_udp_started w
    else answer w (Replies.err_open file)
