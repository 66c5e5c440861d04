-- ===== src/Net/Lifecycle.antt =====
-- Starting and stopping the capture endpoints of vbus/src/net.
use open_vbus.Base.{◌≡◌, Bool, true, false, Option, none, some, List, [], ◌++◌, arith}
use open_vbus.Net.{Capture, Answers, Socket, to_list, start, stop}

-- An endpoint holds a socket exactly while it runs.
abbrev pub is_held : Option Socket → Bool
is_held none = false
is_held (some s) = true

abbrev pub IsConsistent : Capture → Type 0
IsConsistent c = c.running ≡ is_held c.sock

-- the socket that the system handed out in a call of `start`
abbrev pub handed_out : Answers → Capture → List Socket
handed_out a c = elim c.running [ true ↦ [] | false ↦ to_list a.socket ]

-- A start succeeds only running, keeps the endpoint consistent, and leaks no socket: what it held
-- before and what it was handed out is what it holds then and what it has closed.
pub start_lem :
    (a : Answers) (c : Capture)
    → IsConsistent c
    → let r = start a c in
      IsConsistent r.capture
      × (r.success ≡ r.capture.running)
      × (to_list r.capture.sock ++ r.closed ≡ to_list c.sock ++ handed_out a c)
unfolding start
start_lem a c h = (ground arith, ground arith, ground arith)

-- A stop leaves nothing running, closes the socket that was held, and does nothing a second time.
pub stop_lem :
    (c : Capture)
    → IsConsistent c
    → let (closed, c') = stop c in
      IsConsistent c'
      × (c'.running ≡ false)
      × (c'.sock ≡ none)
      × (closed ≡ to_list c.sock)
      × (stop c' ≡ ([], c'))
unfolding stop
stop_lem c h = (ground arith, ground arith, ground arith, ground arith, ground arith)
