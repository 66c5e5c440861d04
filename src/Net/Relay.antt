-- ===== src/Net/Relay.antt =====
-- The loops of vbus/src/net: `UdpEndpoint::recvLoop`, and `relayHalf`, `connectTo`, `proxyConnection`
-- and `acceptLoop` of `TcpProxy`. A loop runs over what the calls of its rounds answer; it waits in the
-- next call where the list ends.
pub mod Transparent
pub mod Closing
mod Tests
use open_vbus.Base.{
  zero, suc, ℕ, Bool, true, false, Option, none, some, List, [], ◌∷◌, ◌++◌, if◌then◌else◌, Bytes,
  take,
}
use open_vbus.Frame.{Frame}
use open_vbus.Net.{Socket, udp_frame, tcp_frame}

-- One round of `recvLoop`: `m_Running`, and what `recvfrom` gives, no bytes for `n <= 0`.
pub record Datagram : Type 0 where
  pub running : Bool
  pub src_ip : ℕ
  pub src_port : ℕ
  pub now : ℕ
  pub bytes : Bytes

unfoldable pub datagram_frame : ℕ → Datagram → List Frame
datagram_frame port d = elim d.bytes [
  | [] ↦ []
  | b ∷ bs ↦ udp_frame d.src_ip d.src_port port d.now d.bytes ∷ []
]

-- `recvLoop` of an endpoint on `port`: the frames that it sends on its bus
unfoldable pub recv_loop : ℕ → List Datagram → List Frame
unfolding datagram_frame
recv_loop port [] = []
recv_loop port (d ∷ ds) =
    let rest = recv_loop port ds in if d.running then datagram_frame port d ++ rest else []

-- One round of `relayHalf`: `m_Running`, the bytes that `recv` gives, none for `n <= 0`, how many of
-- them `send` takes, 0 for `sent <= 0`, and the time.
pub record Round : Type 0 where
  pub running : Bool
  pub received : Bytes
  pub sent : ℕ
  pub now : ℕ

-- What a relay does: bytes go to the other side, and a frame to the bus.
pub data RelayEvent : Type 0 where
  passed_on : Bytes → RelayEvent
  recorded : Frame → RelayEvent

-- The round after `recv`: the source sends once, whatever `send` takes of it.
unfoldable pub relay_round : ℕ → ℕ → ℕ → Bytes → List RelayEvent → List RelayEvent
relay_round direction now sent [] rest = []
relay_round direction now zero (b ∷ bs) rest = []
relay_round direction now (suc k) (b ∷ bs) rest =
    passed_on (take (suc k) (b ∷ bs)) ∷ recorded (tcp_frame direction now (b ∷ bs)) ∷ rest

unfoldable pub relay_half : ℕ → List Round → List RelayEvent
unfolding relay_round
relay_half direction [] = []
relay_half direction (r ∷ rs) =
    let rest = relay_half direction rs in
    if r.running then relay_round direction r.now r.sent r.received rest else []

-- What `getaddrinfo`, `socket` and `connect` answer.
pub record Dialling : Type 0 where
  pub resolved : Bool
  pub socket : Option Socket
  pub connected : Bool

-- `connectTo`: the socket, and the sockets that it closed
unfoldable pub connect_socket : Bool → Option Socket → Option Socket × List Socket
connect_socket connected none = (none, [])
connect_socket true (some s) = (some s, [])
connect_socket false (some s) = (none, s ∷ [])

unfoldable pub connect_to : Dialling → Option Socket × List Socket
unfolding connect_socket
connect_to d = connect_socket d.connected (if d.resolved then d.socket else none)

-- `proxyConnection`: both sockets are closed once the first half ends.
unfoldable pub proxy_connection : Socket → Socket → List Socket
proxy_connection client server = client ∷ server ∷ []

-- One round of `acceptLoop`: `m_Running`, what `accept` gives, and the answers of `connectTo`.
pub record Accepting : Type 0 where
  pub running : Bool
  pub client : Option Socket
  pub dialling : Dialling

-- The sockets that a round closes, in order, from the answer of `connectTo` on.
unfoldable pub after_dialling : Socket → Option Socket × List Socket → List Socket
unfolding proxy_connection
after_dialling client (none, closed) = closed ++ client ∷ []
after_dialling client (some server, closed) =
    closed ++ (proxy_connection client server ++ client ∷ server ∷ [])

unfoldable pub after_accept : Option Socket → Dialling → List Socket → List Socket
unfolding connect_to after_dialling
after_accept none d rest = []
after_accept (some client) d rest = after_dialling client (connect_to d) ++ rest

-- `acceptLoop`: every socket that it closes, in order
unfoldable pub accept_loop : List Accepting → List Socket
unfolding after_accept
accept_loop [] = []
accept_loop (a ∷ more) =
    let rest = accept_loop more in if a.running then after_accept a.client a.dialling rest else []
