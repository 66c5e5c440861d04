-- ===== src/Bench/Sockets.antt =====
-- The whole runs of vbus_bench.cpp: the sockets that `run_udp_send`, `run_tcp_send` and `run_recv` ask
-- for and close, around their loops, and the exit status. INVALID_SOCKET is `none`, and closing it does
-- nothing.
pub mod Tidy
pub mod Whole
use open_vbus.Base.{
  ℕ, Bool, true, false, ◌&&◌, ◌||◌, not, Option, none, some, List, [], ◌∷◌, ◌++◌, ltb, ◌==◌, Text,
  to_string, if◌then◌else◌,
}
use open_vbus.Bench.Sender.{Stats, Turn, Sender, run_udp_send, run_tcp_send}
use open_vbus.Bench.Report.{Receipt, Client, Visit, udp_sink, tcp_sink}
use open_vbus.Bench.Arguments.{Doubles, Plan, usage, terminated, receive, send_udp, send_tcp, plan}

pub data Call : Type 0 where
  opened : ℕ → Call
  closed : Option ℕ → Call

-- A run: its exit status once it has ended, its calls in order, and the counters.
pub record Run : Type 0 where
  pub status : Option ℕ
  pub calls : List Call
  pub stats : Stats

-- `Stats st;`
unfoldable pub new_stats : Stats
new_stats = record { bytes = 0; packets = 0; errors = 0 }

-- a run that returns 1, or shows its usage, before it counts anything
unfoldable pub refused : List Call → Run
unfolding new_stats
refused calls = record { status = some 1; calls = calls; stats = new_stats }

-- What `getaddrinfo` gives: its code, and the first address of its list, if there is one.
pub record Resolution (A : Type 0) : Type 0 where
  pub code : ℕ
  pub first : Option A

-- What the operating system answers in a run: `socket` for a datagram and for a stream, the resolver,
-- `connect`, and `bind` on a port, with 0 for success, and what comes turn by turn.
pub record Answers (A : Type 0) : Type 0 where
  pub datagram : Option ℕ
  pub stream : Option ℕ
  pub getaddrinfo : Text → Text → Resolution A
  pub connect_code : A → ℕ
  pub bind_datagram : ℕ → ℕ
  pub bind_stream : ℕ → ℕ
  pub turns : List Turn
  pub receipts : List Receipt
  pub visits : List Visit

-- the loop of a sender, and what follows it
unfoldable pub send_with : ℕ → Sender → Run
send_with s sender = record {
  status = if sender.over then some 0 else none;
  calls = opened s ∷ (if sender.over then closed (some s) ∷ [] else []);
  stats = sender.stats;
}

module _ {A : Type 0} (os : Answers A) where
  unfoldable pub resolve_addr : Text → ℕ → Option A
  resolve_addr host port =
      let found = os.getaddrinfo host (to_string port) in
      if not (found.code == 0) then none else found.first

  unfoldable pub udp_to : ℕ → ℕ → ℕ → Option A → Run
  unfolding refused send_with
  udp_to s rate duration none = refused (opened s ∷ closed (some s) ∷ [])
  udp_to s rate duration (some dst) = send_with s (run_udp_send rate duration os.turns)

  unfoldable pub udp_run : Option ℕ → Text → ℕ → ℕ → ℕ → Run
  unfolding udp_to resolve_addr refused
  udp_run none host port rate duration = refused []
  udp_run (some s) host port rate duration = udp_to s rate duration (resolve_addr host port)

  unfoldable pub tcp_to : ℕ → ℕ → ℕ → Option A → Run
  unfolding refused send_with
  tcp_to s rate duration none = refused (opened s ∷ closed (some s) ∷ [])
  tcp_to s rate duration (some dst) =
      if os.connect_code dst == 0
      then send_with s (run_tcp_send rate duration os.turns)
      else refused (opened s ∷ closed (some s) ∷ [])

  unfoldable pub tcp_run : Option ℕ → Text → ℕ → ℕ → ℕ → Run
  unfolding tcp_to resolve_addr refused
  tcp_run none host port rate duration = refused []
  tcp_run (some s) host port rate duration = tcp_to s rate duration (resolve_addr host port)

-- whether the UDP thread, a client's loop and the TCP thread end with what they are given
unfoldable pub udp_over : List Receipt → Bool
udp_over [] = false
udp_over (r ∷ rs) = let rest = udp_over rs in if r.stop then true else rest

unfoldable pub client_over : List Receipt → Bool
client_over [] = false
client_over (r ∷ rs) =
    let rest = client_over rs in if r.stop then true else if ltb 0 r.bytes then rest else true

unfoldable pub visit_over : Option Client → Bool → Bool
unfolding client_over
visit_over none rest = rest
visit_over (some c) rest = client_over c.receipts && rest

unfoldable pub tcp_over : List Visit → Bool
unfolding visit_over
tcp_over [] = false
tcp_over (v ∷ vs) = let rest = visit_over v.client (tcp_over vs) in if v.stop then true else rest

-- the sockets of the clients
unfoldable pub visit_calls : Option Client → List Call → List Call
unfolding client_over
visit_calls none rest = rest
visit_calls (some c) rest =
    opened c.socket ∷ (if client_over c.receipts then closed (some c.socket) ∷ rest else [])

unfoldable pub tcp_calls : List Visit → List Call
unfolding visit_calls
tcp_calls [] = []
tcp_calls (v ∷ vs) = let rest = visit_calls v.client (tcp_calls vs) in if v.stop then [] else rest

-- the TCP thread, which does nothing without its socket
unfoldable pub stream_stats : Option ℕ → List Visit → Stats → Stats
unfolding tcp_sink
stream_stats none vs s = s
stream_stats (some tcp) vs s = tcp_sink vs s

unfoldable pub stream_over : Option ℕ → List Visit → Bool
unfolding tcp_over
stream_over none vs = true
stream_over (some tcp) vs = tcp_over vs

unfoldable pub stream_calls : Option ℕ → List Visit → List Call
unfolding tcp_calls
stream_calls none vs = []
stream_calls (some tcp) vs = tcp_calls vs

-- what the call of `socket` has opened
unfoldable pub obtained : Option ℕ → List Call
obtained none = []
obtained (some s) = opened s ∷ []

-- The threads of the sink, and the closings behind them, with the stream's socket or without it.
unfoldable pub sink_run : Option ℕ → Option ℕ → List Receipt → List Visit → List Call → Run
unfolding udp_sink stream_stats udp_over stream_over stream_calls new_stats
sink_run udp tcp rs vs calls =
    let over = udp_over rs && stream_over tcp vs in
    record {
      status = if over then some 0 else none;
      calls = calls ++ (stream_calls tcp vs ++ (if over then closed udp ∷ closed tcp ∷ [] else []));
      stats = stream_stats tcp vs (udp_sink rs new_stats);
    }

-- `run_recv`: the UDP port must be had; without the TCP port its socket is closed and given up.
unfoldable pub run_recv : {A : Type 0} → Answers A → ℕ → Run
unfolding obtained sink_run refused
run_recv os port =
    let udp = os.datagram in
    let tcp = os.stream in
    let calls = obtained udp ++ obtained tcp in
    if not (os.bind_datagram port == 0)
    then refused (calls ++ closed udp ∷ closed tcp ∷ [])
    else if not (os.bind_stream port == 0)
    then sink_run udp none os.receipts os.visits (calls ++ closed tcp ∷ [])
    else sink_run udp tcp os.receipts os.visits calls

-- `main`, behind the choice of its arguments; `none` is an exception that nothing catches.
unfoldable pub run_plan : {A : Type 0} → Answers A → Plan → Option Run
unfolding refused run_recv udp_run tcp_run
run_plan os usage = some (refused [])
run_plan os terminated = none
run_plan os (receive port) = some (run_recv os port)
run_plan os (send_udp host port rate ns) = some (udp_run os os.datagram host port rate ns)
run_plan os (send_tcp host port rate ns) = some (tcp_run os os.stream host port rate ns)

unfoldable pub main : {A D : Type 0} → Answers A → Doubles D → List Text → Option Run
unfolding run_plan plan
main os doubles args = run_plan os (plan doubles args)
