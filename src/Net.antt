-- ===== src/Net.antt =====
-- vbus/src/net: the capture endpoints (udp_endpoint.*, tcp_proxy.*, capture_base.h) and the forwarder
-- (udp_sink.*). What the socket calls answer are arguments; sockets are known by number, `none` is
-- INVALID_SOCKET. Each operation also says which sockets it closed.
pub mod Tags
pub mod Lifecycle
pub mod Relay
mod Tests
use open_vbus.Base.{
  ℕ, ◌+◌, ◌*◌, ◌^◌, ◌%◌, Bool, true, false, Option, none, some, List, [], ◌∷◌, ◌++◌, if◌then◌else◌,
  Bytes, Text,
}
use open_vbus.Frame.{Frame, udp, tcp}

abbrev pub Socket : Type 0
Socket = ℕ

-- `UdpEndpoint`, or `TcpProxy` with its listener; the target is where the proxy connects to.
pub data Source : Type 0 where
  udp_endpoint : Source
  tcp_proxy : Text → ℕ → Source

pub record Capture : Type 0 where
  pub source : Source
  pub bind_host : Text
  pub port : ℕ
  pub sock : Option Socket
  pub running : Bool

unfoldable pub new_capture : Source → Text → ℕ → Capture
new_capture source host port = record {
  source = source;
  bind_host = host;
  port = port;
  sock = none;
  running = false;
}

-- what the calls in a `start` answer: `socket`, `bind` and, for the proxy, `listen`
pub record Answers : Type 0 where
  pub socket : Option Socket
  pub bind : Bool
  pub listen : Bool

-- the calls after `socket` that must succeed
abbrev pub bound : Source → Answers → Bool
bound udp_endpoint a = a.bind
bound (tcp_proxy host port) a = if a.bind then a.listen else false

pub record Started : Type 0 where
  pub success : Bool
  pub closed : List Socket
  pub capture : Capture

open_socket : Answers → Option Socket → Capture → Started
open_socket a none c = record { success = false; closed = []; capture = record c { sock = none } }
open_socket a (some s) c =
    if bound c.source a
    then record {
      success = true;
      closed = [];
      capture = record c { sock = some s; running = true };
    }
    else record { success = false; closed = s ∷ []; capture = record c { sock = none } }

-- `UdpEndpoint::start` and `TcpProxy::start`
unfoldable pub start : Answers → Capture → Started
unfolding open_socket
start a c =
    if c.running
    then record { success = true; closed = []; capture = c }
    else open_socket a a.socket c

abbrev pub to_list : Option Socket → List Socket
to_list none = []
to_list (some s) = s ∷ []

-- `UdpEndpoint::stop` and `TcpProxy::stop`
unfoldable pub stop : Capture → List Socket × Capture
stop c = if c.running then (to_list c.sock, record c { sock = none; running = false }) else ([], c)

-- The frame of a datagram in `UdpEndpoint::recvLoop`. The three fields of the tag do not overlap, so
-- `|` is `+`; `src_ip` is the address as `s_addr` holds it.
unfoldable pub udp_frame : ℕ → ℕ → ℕ → ℕ → Bytes → Frame
udp_frame src_ip src_port port ts datagram = record {
  proto = udp;
  tag = src_ip * 2 ^ 32 + src_port * 2 ^ 16 + port;
  ts_ns = ts;
  payload = datagram;
}

-- The frame of a chunk in `TcpProxy::relayHalf`: direction 0 is from the client, 1 from the server.
unfoldable pub tcp_frame : ℕ → ℕ → Bytes → Frame
tcp_frame direction ts chunk = record { proto = tcp; tag = direction; ts_ns = ts; payload = chunk }

-- `UdpSink`; its address is what the forward callback captures as `this`.
pub record Sink : Type 0 where
  pub address : ℕ
  pub host : Text
  pub port : ℕ
  pub sock : Socket

-- `UdpSink::forward`: the datagram that is sent, if any.
unfoldable pub forward : Sink → Frame → Option (Socket × Bytes)
forward k f = elim f.payload [ [] ↦ none | b ∷ bs ↦ some (k.sock, f.payload) ]
