-- ===== src/Link/Ctl.antt =====
-- vbusctl at the daemon's pipe.
use open_vbus.Base.{
  false, ◌≡◌, refl, Option, none, some, Bool, List, [], ◌∷◌, ◌++◌, Text, All, take,
}
use open_vbus.Daemon.State.{Os, Handle, World}
use open_vbus.Daemon.Commands.{parse}
use open_vbus.Daemon.Serve.{serve, execute, respond}
use open_vbus.Cli.{join, Exit, no_contact, printed, run}
use open_vbus.Cli.Words.{IsWord, serve-join}
use open_vbus.Link.{Session, daemon_pipes}

-- A session with a daemon that runs, and one with a daemon that has ended.
abbrev pub up : World → Session
up w = record { world = some w; whole = false; waiting = none }

abbrev pub down : Session
down = record { world = none; whole = false; waiting = none }

-- What vbusctl makes of the daemon's answer, and the daemon afterwards.
abbrev pub outcome : Option (World × Text × Bool) → Exit × Session
outcome none = (no_contact, down)
outcome (some (w, reply, stay)) = (printed (take 4095 reply), up w)

run_served :
    (o : Option (World × Text × Bool)) (os : Os) (h : Handle) (a : Text) (args : List Text)
    (w : World)
    → serve os h (join (a ∷ args) ++ 10 ∷ []) w ≡ o
    → run (daemon_pipes os h) (a ∷ args) (up w) ≡ outcome o
unfolding run daemon_pipes
run_served none os h a args w e = rw e refl
run_served (some (w', reply, stay)) os h a args w e = rw e refl

-- vbusctl with the words of a command prints the first 4,095 bytes of the answer that `handle_cmd`
-- gives to these words, and leaves the daemon in the state that it gives. Where the command ends the
-- daemon it has no contact.
pub run_lem :
    (os : Os) (h : Handle) (a : Text) (args : List Text) (w : World)
    → All IsWord (a ∷ args)
    → run (daemon_pipes os h) (a ∷ args) (up w)
      ≡ outcome (respond (execute os h (parse (a ∷ args)) w))
run_lem os h a args w ws = run_served _ os h a args w (serve-join os h (a ∷ args) w ws)
