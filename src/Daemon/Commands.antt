-- ===== src/Daemon/Commands.antt =====
-- The command line of vbusd.cpp: tokens, and the choice of a branch of `handle_cmd`. The verbs are
-- different words, so a line with too few arguments for its verb falls through to `ERR cmd`.
use open_vbus.Base.{
  ℕ, ◌%◌, Bool, ◌&&◌, ◌||◌, List, [], ◌∷◌, ◌++◌, leb, ◌==◌, if◌then◌else◌, Text, codes, text_eq,
  length,
}

-- `isspace` in the classic locale
unfoldable pub is_space : ℕ → Bool
is_space c = c == 32 || leb 9 c && leb c 13

unfoldable pub finish : Text → List Text → List Text
finish [] rest = rest
finish (c ∷ cs) rest = (c ∷ cs) ∷ rest

-- `word` is the token being read
unfoldable pub split_from : Text → Text → List Text
unfolding finish
split_from word [] = finish word []
split_from word (c ∷ cs) =
    let more = split_from (if is_space c then [] else word ++ c ∷ []) cs in
    if is_space c then finish word more else more

-- `split`: the words between white space
unfoldable pub split : Text → List Text
unfolding split_from is_space
split s = split_from [] s

pub data Command : Type 0 where
  empty_line unknown list quit : Command
  create : Text → Text → Text → Command
  delete stop_rec stats_of stop_capturing stop_forward subscribe : Text → Command
  record_on : Text → Text → Command
  record_off : Text → Command
  send_eth : Text → Text → Command
  send_can send_canfd : Text → Text → Text → Command
  replay : Text → Text → Text → Command
  capture_udp : Text → Text → Text → Command
  capture_tcp : Text → Text → Text → Text → Text → Command
  forward_udp : Text → Text → Text → Command
  replay_udp : Text → Text → Text → Text → Command
  replay_sync : Text → List Text → Command

one : (Text → Command) → List Text → Command
one c (a ∷ rest) = c a
one c _ = unknown

two : (Text → Text → Command) → List Text → Command
two c (a ∷ b ∷ rest) = c a b
two c _ = unknown

three : (Text → Text → Text → Command) → List Text → Command
three c (a ∷ b ∷ d ∷ rest) = c a b d
three c _ = unknown

-- `record <name> on <file>`; any other third word, and `on` without a file, switch off
recording : List Text → Command
recording (name ∷ word ∷ file ∷ rest) =
    if text_eq word (codes "on") then record_on name file else record_off name
recording (name ∷ word ∷ []) = record_off name
recording _ = unknown

tcp_arguments : List Text → Command
tcp_arguments (name ∷ host ∷ port ∷ target ∷ target_port ∷ rest) =
    capture_tcp name host port target target_port
tcp_arguments _ = unknown

-- `replay-udp <name> <file> <dsthost> <dstport> <mode>`; the name is not used
udp_arguments : List Text → Command
udp_arguments (name ∷ file ∷ host ∷ port ∷ mode ∷ rest) = replay_udp file host port mode
udp_arguments _ = unknown

-- the mode, and one triple at least
sync_arguments : List Text → Command
sync_arguments [] = unknown
sync_arguments (mode ∷ rest) =
    if leb 3 (length rest) && length rest % 3 == 0 then replay_sync mode rest else unknown

choose : Text → List Text → Command
unfolding one two three recording tcp_arguments udp_arguments sync_arguments
choose v rest =
    if text_eq v (codes "create")
    then three create rest
    else if text_eq v (codes "delete")
    then one delete rest
    else if text_eq v (codes "list")
    then list
    else if text_eq v (codes "record")
    then recording rest
    else if text_eq v (codes "stoprec")
    then one stop_rec rest
    else if text_eq v (codes "stats")
    then one stats_of rest
    else if text_eq v (codes "send-eth")
    then two send_eth rest
    else if text_eq v (codes "send-can")
    then three send_can rest
    else if text_eq v (codes "send-canfd")
    then three send_canfd rest
    else if text_eq v (codes "replay")
    then three replay rest
    else if text_eq v (codes "capture-udp")
    then three capture_udp rest
    else if text_eq v (codes "capture-tcp")
    then tcp_arguments rest
    else if text_eq v (codes "stop-capture")
    then one stop_capturing rest
    else if text_eq v (codes "forward-udp")
    then three forward_udp rest
    else if text_eq v (codes "stop-forward")
    then one stop_forward rest
    else if text_eq v (codes "replay-udp")
    then udp_arguments rest
    else if text_eq v (codes "replay-sync")
    then sync_arguments rest
    else if text_eq v (codes "subscribe")
    then one subscribe rest
    else if text_eq v (codes "quit")
    then quit
    else unknown

unfoldable pub parse : List Text → Command
unfolding choose text_eq
parse [] = empty_line
parse (v ∷ rest) = choose v rest
