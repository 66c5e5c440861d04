-- ===== src/Daemon/Replies.antt =====
-- The answers of `handle_cmd` in vbusd.cpp, and their texts.
use open_vbus.Base.{ℕ, List, [], ◌∷◌, ◌++◌, Text, codes, to_string}

pub data Reply : Type 0 where
  err_empty already_exists created_eth created_can err_type no_bus deleted : Reply
  listing : List Text → Reply
  rec_on open_failed rec_off : Reply
  stats : ℕ → ℕ → ℕ → Reply
  sent too_long_can too_long_canfd : Reply
  err_open : Text → Reply
  bad_scale replay_started capturing_udp bind_failed capturing_tcp listen_failed : Reply
  capture_stopped forwarding_udp forward_failed forward_stopped replay_udp_started : Reply
  sync_open_failed : Text → Reply
  sync_started : ℕ → Reply
  stream bye err_cmd : Reply

-- `list_buses`: one name to a line
unfoldable pub lines : List Text → Text
lines [] = []
lines (n ∷ ns) = n ++ (10 ∷ lines ns)

unfoldable pub render : Reply → Text
unfolding lines to_string
render err_empty = codes "ERR empty"
render already_exists = codes "ERR already exists"
render created_eth = codes "OK created eth"
render created_can = codes "OK created can"
render err_type = codes "ERR type"
render no_bus = codes "ERR no bus"
render deleted = codes "OK deleted"
render (listing ns) = lines ns
render rec_on = codes "OK rec on"
render open_failed = codes "ERR open failed"
render rec_off = codes "OK rec off"
render (stats tx rx drops) =
    codes "tx="
    ++ (to_string tx ++ (codes " rx=" ++ (to_string rx ++ (codes " drops=" ++ to_string drops))))
render sent = codes "OK sent"
render too_long_can = codes "ERR payload too long (max 8 bytes for CAN 2.0)"
render too_long_canfd = codes "ERR payload too long (max 64 bytes for CAN FD)"
render (err_open file) = codes "ERR open: " ++ file
render bad_scale = codes "ERR bad scale"
render replay_started = codes "OK replay started"
render capturing_udp = codes "OK capturing udp"
render bind_failed = codes "ERR bind failed"
render capturing_tcp = codes "OK capturing tcp"
render listen_failed = codes "ERR listen failed"
render capture_stopped = codes "OK capture stopped"
render forwarding_udp = codes "OK forwarding udp"
render forward_failed = codes "ERR forward failed"
render forward_stopped = codes "OK forward stopped"
render replay_udp_started = codes "OK replay-udp started"
render (sync_open_failed file) = codes "ERR open failed: " ++ file
render (sync_started n) = codes "OK sync started " ++ (to_string n ++ codes " streams")
render stream = codes "OK stream"
render bye = codes "OK bye"
render err_cmd = codes "ERR cmd"
