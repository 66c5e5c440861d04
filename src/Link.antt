-- ===== src/Link.antt =====
-- The pipe of vbusd with the daemon of the model at its other end: one connection at a time, each
-- message answered by `serve` before it is read back.
pub mod Ctl
pub mod Lines
mod Tests
use open_vbus.Base.{
  ℕ, Bool, true, false, not, ◌||◌, Option, none, some, [], Text, Bytes, length, take, leb,
}
use open_vbus.Pipe.{Pipes, Opening, opened, not_found}
use open_vbus.Daemon.State.{Os, Handle, World}
use open_vbus.Daemon.Serve.{serve}

-- The daemon's state, `none` once an exception has ended it; whether the client reads whole
-- messages; and the message that waits for it.
pub record Session : Type 0 where
  pub world : Option World
  pub whole : Bool
  pub waiting : Option Text

unfoldable pub served : Option (World × Text × Bool) → Session → Session
served none s = record s { world = none; waiting = none }
served (some (w, reply, stay)) s = record s { world = some w; waiting = some reply }

module _ (os : Os) (h : Handle) where
  accept : Option World → Session → Opening × Session
  accept none s = (not_found, s)
  accept (some w) s = (opened h, record s { whole = false; waiting = none })

  give : Option World → Text → Session → Bool × Session
  unfolding served serve
  give none line s = (false, s)
  give (some w) line s = (true, served (serve os h line w) s)

  -- A message that does not fit in the buffer is an error for a client that reads whole messages.
  take_reply : Option Text → ℕ → Session → (Bool × Bytes) × Session
  take_reply none n s = ((false, []), s)
  take_reply (some reply) n s =
      ((not s.whole || leb (length reply) n, take n reply), record s { waiting = none })

  unfoldable pub daemon_pipes : Pipes Session
  unfolding accept give take_reply
  daemon_pipes = record {
    create_file = λ s. accept s.world s;
    message_mode = λ h s. record s { whole = true };
    write_file = λ h line s. give s.world line s;
    read_file = λ h n s. take_reply s.waiting n s;
    close_handle = λ h s. record s { waiting = none };
    pause = λ s. s;
  }
