-- ===== src/Net/Relay/Tests.antt =====
-- A relay of two chunks, and an accept loop with a proxied and a refused connection.
use open_vbus.Base.{◌+◌, ◌≡◌, refl, true, false, some, List, [], ◌∷◌, All, inl, inr, arith}
use open_vbus.Bus.Delivery.{times}
use open_vbus.Net.Relay.{Round, Accepting, relay_half, accept_loop}
use open_vbus.Net.Relay.Transparent.{captured, delivered, IsLabelled, IsWhole, relay_transparent}
use open_vbus.Net.Relay.Closing.{opened, proxied, accept_loop_closes}

abbrev two_rounds : List Round
two_rounds =
    record { running = true; received = 1 ∷ 2 ∷ []; sent = 2; now = 5 }
    ∷ record { running = true; received = 3 ∷ []; sent = 0; now = 6 }
    ∷ []

two_rounds-IsWhole : All IsWhole two_rounds
two_rounds-IsWhole = (inr (omega arith), (inl refl, tt))

relay_transparent_example :
    (captured (relay_half 1 two_rounds) ≡ delivered (relay_half 1 two_rounds))
    × All (IsLabelled 1) (relay_half 1 two_rounds)
relay_transparent_example = relay_transparent 1 two_rounds two_rounds-IsWhole

abbrev two_connections : List Accepting
two_connections =
    record {
      running = true;
      client = some 4;
      dialling = record { resolved = true; socket = some 5; connected = true };
    }
    ∷ record {
      running = true;
      client = some 6;
      dialling = record { resolved = true; socket = some 7; connected = false };
    }
    ∷ []

accept_loop_closes_example :
    times 4 (accept_loop two_connections)
    ≡ times 4 (opened two_connections) + times 4 (proxied two_connections)
accept_loop_closes_example = accept_loop_closes 4 two_connections
