-- ===== src/Link/Tests.antt =====
-- vbusctl makes a bus.
use open_vbus.Base.{◌≡◌, refl, true, none, some, [], ◌∷◌, codes, All}
use open_vbus.Daemon.State.{Os}
use open_vbus.Daemon.Commands.{is_space, parse}
use open_vbus.Daemon.Serve.{execute, respond}
use open_vbus.Daemon.Invariant.Runs.{new_world}
use open_vbus.Cli.{run}
use open_vbus.Cli.Words.{IsWord, word}
use open_vbus.Link.{daemon_pipes}
use open_vbus.Link.Ctl.{up, outcome, run_lem}

abbrev quiet_os : Os
quiet_os = record {
  now₁ = 5;
  now₂ = 6;
  file = λ path. none;
  device = λ path. some 1000;
  sockets = record { socket = some 3; bind = true; listen = true };
  resolves = true;
  pipe_accepts = true;
  stod = λ text. none;
}

four_words : All IsWord (codes "create" ∷ codes "a" ∷ codes "eth" ∷ codes "1000" ∷ [])
unfolding is_space
four_words = (
  word b'c' (codes "reate") (refl, (refl, (refl, (refl, (refl, (refl, tt)))))),
  (
    word b'a' (codes "") (refl, tt),
    (
      word b'e' (codes "th") (refl, (refl, (refl, tt))),
      (word b'1' (codes "000") (refl, (refl, (refl, (refl, tt)))), tt),
    ),
  ),
)

run_lem_example :
    run
      (daemon_pipes quiet_os 1)
      (codes "create" ∷ codes "a" ∷ codes "eth" ∷ codes "1000" ∷ [])
      (up new_world)
    ≡ outcome (
        respond (
          execute quiet_os 1
            (parse (codes "create" ∷ codes "a" ∷ codes "eth" ∷ codes "1000" ∷ []))
            new_world))
run_lem_example =
    run_lem quiet_os 1 (codes "create") (codes "a" ∷ codes "eth" ∷ codes "1000" ∷ []) new_world
      four_words
