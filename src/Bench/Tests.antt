-- ===== src/Bench/Tests.antt =====
-- Both senders at one Gbit/s, and the passive sink with one client.
use open_vbus.Base.{◌≢◌, Text, ℕ, ◌+◌, ◌≡◌, true, false, none, some, List, [], ◌∷◌, All, arith}
use open_vbus.Bench.Sender.{
  Turn, payload_size_for_rate, sent, failed, pkt_bits, run_udp_send, run_tcp_send,
}
use open_vbus.Bench.Sender.Bucket.{IsFair, IsWithin, refills, senders-IsFair}
use open_vbus.Bench.Report.{Receipt, Visit}
use open_vbus.Bench.Sender.{Stats}
use open_vbus.Daemon.Numbers.{stoul}
use open_vbus.Bench.Arguments.{Doubles, Plan, receive, terminated, plan}
use open_vbus.Bench.Sockets.{Answers, Run, udp_over, tcp_over, main}
use open_vbus.Bench.Sockets.Tidy.{IsTidy}
use open_vbus.Bench.Sockets.Whole.{main-IsTidy}
use open_vbus.Base.{refl, ◌++◌, ◌*◌, codes, text_eq}

abbrev three_turns : List Turn
three_turns =
    record { stop = false; refill = 0; age = 0; answer = sent 16384 }
    ∷ record { stop = false; refill = 5000; age = 5000; answer = failed }
    ∷ record { stop = false; refill = 200_000; age = 9000; answer = failed }
    ∷ []

three_turns-IsWithin : All (λ t. IsWithin 1_000_000_000 t.answer) three_turns
unfolding payload_size_for_rate
three_turns-IsWithin = (omega arith, (tt, (tt, tt)))

senders-IsFair_example :
    IsFair 1_000_000_000
      (pkt_bits 1_000_000_000 + refills three_turns)
      (run_udp_send 1_000_000_000 0 three_turns)
    × IsFair 1_000_000_000
        (pkt_bits 1_000_000_000 + refills three_turns)
        (run_tcp_send 1_000_000_000 0 three_turns)
senders-IsFair_example = senders-IsFair 1_000_000_000 0 three_turns three_turns-IsWithin

abbrev no_stats : Stats
no_stats = record { bytes = 0; packets = 0; errors = 0 }

abbrev some_receipts : List Receipt
some_receipts =
    record { stop = false; bytes = 5 }
    ∷ record { stop = false; bytes = 0 }
    ∷ record { stop = true; bytes = 0 }
    ∷ []

abbrev some_visits : List Visit
some_visits =
    record { stop = false; client = some (record { socket = 12; receipts = some_receipts }) }
    ∷ record { stop = true; client = none }
    ∷ []

-- A machine that gives the sockets 7 and 8 and one client, and a resolver that knows every host.
abbrev a_machine : Answers Text
a_machine = record {
  datagram = some 7;
  stream = some 8;
  getaddrinfo = λ host port. record { code = 0; first = some host };
  connect_code = λ host. 0;
  bind_datagram = λ port. 0;
  bind_stream = λ port. 0;
  turns = three_turns ++ record { stop = true; refill = 0; age = 9500; answer = failed } ∷ [];
  receipts = some_receipts;
  visits = some_visits;
}

abbrev whole_numbers : Doubles ℕ
whole_numbers = record { stod = stoul; times = λ v n. v * n; to_u64 = λ v. v }

abbrev recv_arguments_5000 : List Text
recv_arguments_5000 = codes "recv" ∷ codes "5000" ∷ []

receives_on_5000 : plan whole_numbers recv_arguments_5000 ≡ receive 5000
unfolding plan text_eq
receives_on_5000 = refl

receives : (p : Plan) (n : ℕ) → p ≡ receive n → p ≢ terminated
receives p n e f = cc

main-IsTidy_example :
    (r : Run) × (main a_machine whole_numbers recv_arguments_5000 ≡ some r) × IsTidy r
unfolding udp_over tcp_over
main-IsTidy_example =
    main-IsTidy a_machine whole_numbers recv_arguments_5000
      (receives (plan whole_numbers recv_arguments_5000) 5000 receives_on_5000) refl refl refl
