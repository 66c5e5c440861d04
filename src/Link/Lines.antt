-- ===== src/Link/Lines.antt =====
-- The command lines that the GUI makes, as the daemon reads them.
use open_vbus.Base.{
  Bool, true, not, ◌&&◌, ℕ, zero, suc, ◌+◌, ◌/◌, ◌%◌, ◌^◌, ◌<◌, ◌≡◌, refl, ap, ◌∙◌, false, List, [],
  ◌∷◌, ◌++◌, append_assoc, Text, codes, text_eq, to_string, digits_of, All, arith, if_cases, ltb,
}
use open_vbus.Daemon.Numbers.Print.{Begins, begins, digits_of-Begins}
use open_vbus.Daemon.Commands.{is_space, split, split_from, parse, Command}
use open_vbus.Daemon.Commands
use open_vbus.Cli.{join}
use open_vbus.Cli.Words.{IsWord, word, split-join}
use open_vbus.Gui.Client.Commands.{list_command, subscribe_command}
use open_vbus.Gui.Model.{Bus, Surroundings}
use open_vbus.Gui.Model.Buses.{create_command, delete_command}
use open_vbus.Gui.Model.Records.{
  forward_command, record_command, stop_record_command, stop_forward_command,
}
use open_vbus.Gui.Model.Capture.{stop_capture_command, address, udp_command, tcp_command}
use open_vbus.Gui.Model.Replays.{replay_command}

digit_no_space : (d : ℕ) → is_space (48 + d) ≡ false
unfolding is_space
digit_no_space d = ground arith

digits_of_spaceless :
    (f n : ℕ) (s : Text)
    → All (λ x. is_space x ≡ false) s
    → All (λ x. is_space x ≡ false) (digits_of f n s)
unfolding digits_of
digits_of_spaceless zero n s h = h
digits_of_spaceless (suc f) n s h =
    if_cases (All (λ x. is_space x ≡ false)) (ltb n 10) ((48 + n) ∷ s)
      (digits_of f (n / 10) ((48 + n % 10) ∷ s)) (λ _. (digit_no_space n, h))
      (λ _. digits_of_spaceless f (n / 10) ((48 + n % 10) ∷ s) (digit_no_space (n % 10), h))

begun : (s : Text) → Begins s → All (λ x. is_space x ≡ false) s → IsWord s
begun _ (begins d s h) a = word (48 + d) s a

to_string-IsWord : (n : ℕ) → n < 2 ^ 16 → IsWord (to_string n)
unfolding to_string
to_string-IsWord n h =
    begun (digits_of 20 n []) (digits_of-Begins 20 n [] (omega (arith, h)) (omega arith))
      (digits_of_spaceless 20 n [] tt)

-- The fields that the GUI puts into command lines are words, and the ports have 16 bits.
pub record IsPlain (b : Bus) : Type 0 where
  pub name : IsWord b.name
  pub bind_host : IsWord b.bind_host
  pub bind_port : b.bind_port < 2 ^ 16
  pub target_host : IsWord b.target_host
  pub target_port : b.target_port < 2 ^ 16
  pub forward_host : IsWord b.forward_host
  pub forward_port : b.forward_port < 2 ^ 16

read_line : (args : List Text) → All IsWord args → parse (split (join args)) ≡ parse args
read_line args ws = ap parse (split-join args ws)

abbrev spaceless : Text → Bool
spaceless [] = true
spaceless (c ∷ s) = not (is_space c) && spaceless s

All-spaceless : (s : Text) → spaceless s ≡ true → All (λ x. is_space x ≡ false) s
All-spaceless [] h = tt
All-spaceless (c ∷ s) h = (ground arith, All-spaceless s (ground arith))

literal-IsWord : (c : ℕ) (s : Text) → spaceless (c ∷ s) ≡ true → IsWord (c ∷ s)
literal-IsWord c s h = word c s (All-spaceless (c ∷ s) h)

create-IsWord : IsWord (codes "create")
unfolding is_space
create-IsWord = literal-IsWord b'c' (codes "reate") refl

eth-IsWord : IsWord (codes "eth")
unfolding is_space
eth-IsWord = literal-IsWord b'e' (codes "th") refl

rate-IsWord : IsWord (codes "1000000000")
unfolding is_space
rate-IsWord = literal-IsWord b'1' (codes "000000000") refl

forward-IsWord : IsWord (codes "forward-udp")
unfolding is_space
forward-IsWord = literal-IsWord b'f' (codes "orward-udp") refl

udp-IsWord : IsWord (codes "capture-udp")
unfolding is_space
udp-IsWord = literal-IsWord b'c' (codes "apture-udp") refl

tcp-IsWord : IsWord (codes "capture-tcp")
unfolding is_space
tcp-IsWord = literal-IsWord b'c' (codes "apture-tcp") refl

replay-IsWord : IsWord (codes "replay")
unfolding is_space
replay-IsWord = literal-IsWord b'r' (codes "eplay") refl

record-IsWord : IsWord (codes "record")
unfolding is_space
record-IsWord = literal-IsWord b'r' (codes "ecord") refl

on-IsWord : IsWord (codes "on")
unfolding is_space
on-IsWord = literal-IsWord b'o' (codes "n") refl

stop_record-IsWord : IsWord (codes "stoprec")
unfolding is_space
stop_record-IsWord = literal-IsWord b's' (codes "toprec") refl

delete-IsWord : IsWord (codes "delete")
unfolding is_space
delete-IsWord = literal-IsWord b'd' (codes "elete") refl

stop_capture-IsWord : IsWord (codes "stop-capture")
unfolding is_space
stop_capture-IsWord = literal-IsWord b's' (codes "top-capture") refl

stop_forward-IsWord : IsWord (codes "stop-forward")
unfolding is_space
stop_forward-IsWord = literal-IsWord b's' (codes "top-forward") refl

subscribe-IsWord : IsWord (codes "subscribe")
unfolding is_space
subscribe-IsWord = literal-IsWord b's' (codes "ubscribe") refl

module _ {S : Type 0} (gui : Surroundings S) where
  tcp_line :
      (b : Bus)
      → tcp_command gui b
        ≡ join (
            codes "capture-tcp"
            ∷ b.name
            ∷ b.bind_host
            ∷ to_string b.bind_port
            ∷ b.target_host
            ∷ to_string b.target_port
            ∷ [])
  unfolding tcp_command address join
  tcp_line b =
      ap (λ t. codes "capture-tcp " ++ (b.name ++ 32 ∷ t))
        (append_assoc b.bind_host (32 ∷ to_string b.bind_port)
          (32 ∷ (b.target_host ++ 32 ∷ to_string b.target_port)))

  -- The daemon reads every line that the GUI and its client send it, without the line end, as the command
  -- that is meant, with the bus's own name, hosts and ports and the path that was given, if these are
  -- words and the ports have 16 bits: create, delete, record, stoprec, forward-udp, stop-forward,
  -- capture-udp, capture-tcp, stop-capture, replay, subscribe and list.
  pub commands_lem :
      (b : Bus) (file mode : Text)
      → IsPlain b
      → IsWord file
      → IsWord mode
      → (parse (split (create_command b.name))
          ≡ Commands.create b.name (codes "eth") (codes "1000000000"))
        × (parse (split (forward_command gui b))
            ≡ Commands.forward_udp b.name b.forward_host (to_string b.forward_port))
        × (parse (split (udp_command gui b))
            ≡ Commands.capture_udp b.name b.bind_host (to_string b.bind_port))
        × (parse (split (tcp_command gui b))
            ≡ Commands.capture_tcp b.name b.bind_host
                (to_string b.bind_port)
                b.target_host
                (to_string b.target_port))
        × (parse (split (replay_command b.name file mode)) ≡ Commands.replay b.name file mode)
        × (parse (split (record_command b.name file)) ≡ Commands.record_on b.name file)
        × (parse (split (stop_record_command b.name)) ≡ Commands.stop_rec b.name)
        × (parse (split (delete_command b.name)) ≡ Commands.delete b.name)
        × (parse (split (stop_capture_command b.name)) ≡ Commands.stop_capturing b.name)
        × (parse (split (stop_forward_command b.name)) ≡ Commands.stop_forward b.name)
        × (parse (split (subscribe_command b.name)) ≡ Commands.subscribe b.name)
        × (parse (split list_command) ≡ Commands.list)
  unfolding is_space split split_from create_command forward_command udp_command tcp_command
      replay_command address join parse text_eq
  commands_lem b file mode p wf wm =
      let bind = to_string-IsWord b.bind_port p.bind_port in
      let target = to_string-IsWord b.target_port p.target_port in
      let forward = to_string-IsWord b.forward_port p.forward_port in
      (
        read_line (codes "create" ∷ b.name ∷ codes "eth" ∷ codes "1000000000" ∷ [])
            (create-IsWord, (p.name, (eth-IsWord, (rate-IsWord, tt)))),
        read_line (codes "forward-udp" ∷ b.name ∷ b.forward_host ∷ to_string b.forward_port ∷ [])
            (forward-IsWord, (p.name, (p.forward_host, (forward, tt)))),
        read_line (codes "capture-udp" ∷ b.name ∷ b.bind_host ∷ to_string b.bind_port ∷ [])
            (udp-IsWord, (p.name, (p.bind_host, (bind, tt)))),
        ap (λ line. parse (split line)) (tcp_line b)
            ∙ read_line
                (codes "capture-tcp"
                  ∷ b.name
                  ∷ b.bind_host
                  ∷ to_string b.bind_port
                  ∷ b.target_host
                  ∷ to_string b.target_port
                  ∷ [])
                (tcp-IsWord, (p.name, (p.bind_host, (bind, (p.target_host, (target, tt)))))),
        read_line (codes "replay" ∷ b.name ∷ file ∷ mode ∷ [])
            (replay-IsWord, (p.name, (wf, (wm, tt)))),
        read_line (codes "record" ∷ b.name ∷ codes "on" ∷ file ∷ [])
            (record-IsWord, (p.name, (on-IsWord, (wf, tt)))),
        read_line (codes "stoprec" ∷ b.name ∷ []) (stop_record-IsWord, (p.name, tt)),
        read_line (codes "delete" ∷ b.name ∷ []) (delete-IsWord, (p.name, tt)),
        read_line (codes "stop-capture" ∷ b.name ∷ []) (stop_capture-IsWord, (p.name, tt)),
        read_line (codes "stop-forward" ∷ b.name ∷ []) (stop_forward-IsWord, (p.name, tt)),
        read_line (codes "subscribe" ∷ b.name ∷ []) (subscribe-IsWord, (p.name, tt)),
        refl,
      )
