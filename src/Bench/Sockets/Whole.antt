-- ===== src/Bench/Sockets/Whole.antt =====
-- Every run of the program ends, and closes the sockets that it has opened.
use open_vbus.Base.{
  refl, none, ◌∷◌, ◌==◌, not, if_cases, [], ◌≢◌, some, ◌++◌, Text, true, List, Option, ◌≡◌, ℕ,
}
use open_vbus.Bench.Sender.{run_udp_send, run_tcp_send}
use open_vbus.Bench.Arguments.{Doubles, Plan, usage, terminated, receive, send_udp, send_tcp, plan}
use open_vbus.Bench.Sockets.{
  Run, Answers, closed, refused, resolve_addr, udp_to, udp_run, tcp_to, tcp_run, udp_over, tcp_over,
  obtained, run_recv, run_plan, main,
}
use open_vbus.Bench.Sockets.Tidy.{
  IsTidy, told_to_stop, held-append, opens_both, closes_both, gives_up, run-over, send_with-IsTidy,
  refused-IsTidy, closes_one, sink-IsTidy,
}

module _ {A : Type 0} (os : Answers A) where
  run_recv-IsTidy :
      (port : ℕ)
      → udp_over os.receipts ≡ true
      → tcp_over os.visits ≡ true
      → IsTidy (run_recv os port)
  unfolding run_recv
  run_recv-IsTidy port h k =
      let udp = os.datagram in
      let tcp = os.stream in
      let calls = obtained udp ++ obtained tcp in
      if_cases IsTidy (not (os.bind_datagram port == 0)) _ _
        (λ _. refused-IsTidy (calls ++ closed udp ∷ closed tcp ∷ []) (
          rw (held-append calls (closed udp ∷ closed tcp ∷ []) [], opens_both udp tcp)
            (closes_both udp tcp)))
        (λ _.
          if_cases IsTidy (not (os.bind_stream port == 0)) _ _
            (λ _.
              sink-IsTidy udp none os.receipts os.visits (calls ++ closed tcp ∷ []) h k
                (gives_up udp tcp))
            (λ _. sink-IsTidy udp tcp os.receipts os.visits calls h k (opens_both udp tcp)))

  udp_to-IsTidy :
      (s rate ns : ℕ) (dst : Option A)
      → told_to_stop os.turns ≡ true
      → IsTidy (udp_to os s rate ns dst)
  unfolding udp_to run_udp_send
  udp_to-IsTidy s rate ns none h = refused-IsTidy _ (closes_one s)
  udp_to-IsTidy s rate ns (some dst) h =
      send_with-IsTidy s (run_udp_send rate ns os.turns) (run-over _ rate ns os.turns _ h)

  tcp_to-IsTidy :
      (s rate ns : ℕ) (dst : Option A)
      → told_to_stop os.turns ≡ true
      → IsTidy (tcp_to os s rate ns dst)
  unfolding tcp_to run_tcp_send
  tcp_to-IsTidy s rate ns none h = refused-IsTidy _ (closes_one s)
  tcp_to-IsTidy s rate ns (some dst) h =
      if_cases IsTidy (os.connect_code dst == 0) _ _
        (λ _. send_with-IsTidy s (run_tcp_send rate ns os.turns) (run-over _ rate ns os.turns _ h))
        (λ _. refused-IsTidy _ (closes_one s))

  udp_run-IsTidy :
      (s : Option ℕ) (host : Text) (port rate ns : ℕ)
      → told_to_stop os.turns ≡ true
      → IsTidy (udp_run os s host port rate ns)
  unfolding udp_run
  udp_run-IsTidy none host port rate ns h = refused-IsTidy [] refl
  udp_run-IsTidy (some s) host port rate ns h =
      udp_to-IsTidy s rate ns (resolve_addr os host port) h

  tcp_run-IsTidy :
      (s : Option ℕ) (host : Text) (port rate ns : ℕ)
      → told_to_stop os.turns ≡ true
      → IsTidy (tcp_run os s host port rate ns)
  unfolding tcp_run
  tcp_run-IsTidy none host port rate ns h = refused-IsTidy [] refl
  tcp_run-IsTidy (some s) host port rate ns h =
      tcp_to-IsTidy s rate ns (resolve_addr os host port) h

  run_plan-IsTidy :
      (p : Plan)
      → told_to_stop os.turns ≡ true
      → udp_over os.receipts ≡ true
      → tcp_over os.visits ≡ true
      → p ≢ terminated
      → (r : Run) × (run_plan os p ≡ some r) × IsTidy r
  unfolding run_plan
  run_plan-IsTidy usage h k l n = (refused [], refl, refused-IsTidy [] refl)
  run_plan-IsTidy terminated h k l n = absurd (n refl)
  run_plan-IsTidy (receive port) h k l n = (run_recv os port, refl, run_recv-IsTidy port k l)
  run_plan-IsTidy (send_udp host port rate ns) h k l n = (
    udp_run os os.datagram host port rate ns,
    refl,
    udp_run-IsTidy os.datagram host port rate ns h,
  )
  run_plan-IsTidy (send_tcp host port rate ns) h k l n =
      (tcp_run os os.stream host port rate ns, refl, tcp_run-IsTidy os.stream host port rate ns h)

-- Whatever `socket`, `getaddrinfo`, `bind`, `connect` and the network answer, a run of vbus_bench that
-- no exception ends, and whose loops are told to stop, returns an exit status and has closed each
-- socket that it opened exactly once: on every error path, with or without the TCP port, and for
-- every client that it accepted.
pub main-IsTidy :
    {A D : Type 0} (os : Answers A) (doubles : Doubles D) (args : List Text)
    → plan doubles args ≢ terminated
    → told_to_stop os.turns ≡ true
    → udp_over os.receipts ≡ true
    → tcp_over os.visits ≡ true
    → (r : Run) × (main os doubles args ≡ some r) × IsTidy r
unfolding main
main-IsTidy os doubles args n h k l = run_plan-IsTidy os (plan doubles args) h k l n
