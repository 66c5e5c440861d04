-- ===== src/Net/Tests.antt =====
-- A capture of UDP on port 9000.
use open_vbus.Base.{◌≡◌, refl, true, false, none, some, ◌++◌, codes}
use open_vbus.Net.{Capture, Answers, udp_endpoint, start, to_list}
use open_vbus.Net.Lifecycle.{IsConsistent, handed_out, start_lem}

abbrev answers : Answers
answers = record { socket = some 4; bind = true; listen = true }

abbrev running : Capture
running = record {
  source = udp_endpoint;
  bind_host = codes "127.0.0.1";
  port = 9000;
  sock = some 4;
  running = true;
}

abbrev idle : Capture
idle = record {
  source = udp_endpoint;
  bind_host = codes "127.0.0.1";
  port = 9000;
  sock = none;
  running = false;
}

start_lem_example :
    let r = start answers idle in
    IsConsistent r.capture
    × (r.success ≡ r.capture.running)
    × (to_list r.capture.sock ++ r.closed ≡ to_list idle.sock ++ handed_out answers idle)
start_lem_example = start_lem answers idle refl
