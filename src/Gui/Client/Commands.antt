-- ===== src/Gui/Client/Commands.antt =====
-- The commands of daemon_client.cpp: `openPipe`, `sendCmd`, `subscribe`, `unsubscribe` and
-- `isConnected`, over the operating system's pipes.
use open_vbus.Base.{
  ℕ, zero, suc, Bool, true, false, ◌&&◌, Option, none, some, [], ◌∷◌, ◌++◌, Text, Bytes, codes,
  starts_with, if◌then◌else◌,
}
use open_vbus.Pipe.{Pipes, Opening, opened, busy, not_found, refused}
use open_vbus.Daemon.Serve.{trim}

-- A `DaemonClient` that may hold a subscription.
pub record DaemonClient : Type 0 where
  pub sub_pipe : Option ℕ
  pub running : Bool

unfoldable pub new_client : DaemonClient
new_client = record { sub_pipe = none; running = false }

abbrev pub list_command : Text
list_command = codes "list"

abbrev pub subscribe_command : Text → Text
subscribe_command name = codes "subscribe " ++ name

module _ {S : Type 0} (pipes : Pipes S) where
  -- one attempt, with what follows it where the pipe is busy or not there
  again : (S → Option ℕ × S) → Opening × S → Option ℕ × S
  again next (opened h, s) = (some h, s)
  again next (busy, s) = next (pipes.pause s)
  again next (not_found, s) = next (pipes.pause s)
  again next (refused, s) = (none, s)

  -- the loop of `openPipe` with `n` attempts left
  attempt : ℕ → S → Option ℕ × S
  unfolding again
  attempt zero s = (none, s)
  attempt (suc n) s = again (attempt n) (pipes.create_file s)

  unfoldable pub open_pipe : S → Option ℕ × S
  unfolding attempt
  open_pipe s = attempt 5 s

  -- the response without its line ends; the result of `ReadFile` is not looked at
  reply_to : ℕ → (Bool × Bytes) × S → Option Text × S
  unfolding trim
  reply_to h ((read, bytes), s) = (some (trim bytes), pipes.close_handle h s)

  commanded : ℕ → Bool × S → Option Text × S
  unfolding reply_to
  commanded h (true, s) = reply_to h (pipes.read_file h 4095 s)
  commanded h (false, s) = (none, pipes.close_handle h s)

  command_on : Text → Option ℕ × S → Option Text × S
  unfolding commanded
  command_on cmd (none, s) = (none, s)
  command_on cmd (some h, s) =
      commanded h (pipes.write_file h (cmd ++ 10 ∷ []) (pipes.message_mode h s))

  -- `sendCmd`: `none` is the result false
  unfoldable pub send_cmd : Text → S → Option Text × S
  unfolding command_on open_pipe
  send_cmd cmd s = command_on cmd (open_pipe s)

  unfoldable pub is_connected : S → Bool × S
  unfolding send_cmd
  is_connected s = answered (send_cmd list_command s)
    where
      answered : Option Text × S → Bool × S
      answered (none, s') = (false, s')
      answered (some resp, s') = (true, s')

  close_sub_pipe : Option ℕ → S → S
  close_sub_pipe none s = s
  close_sub_pipe (some h) s = pipes.close_handle h s

  -- `unsubscribe`, and the destructor; the reading thread ends with it
  unfoldable pub unsubscribe : DaemonClient → S → DaemonClient × S
  unfolding close_sub_pipe
  unsubscribe c s =
      if c.running
      then (record { sub_pipe = none; running = false }, close_sub_pipe c.sub_pipe s)
      else (c, s)

  acknowledged : ℕ → DaemonClient → (Bool × Bytes) × S → (Bool × DaemonClient) × S
  unfolding starts_with
  acknowledged h c ((read, ack), s) =
      if read && starts_with (codes "OK") ack
      then ((true, record { sub_pipe = some h; running = true }), s)
      else ((false, c), pipes.close_handle h s)

  asked_to_stream : ℕ → DaemonClient → Bool × S → (Bool × DaemonClient) × S
  unfolding acknowledged
  asked_to_stream h c (written, s) = acknowledged h c (pipes.read_file h 63 s)

  subscribe_on : Text → DaemonClient → Option ℕ × S → (Bool × DaemonClient) × S
  unfolding asked_to_stream
  subscribe_on name c (none, s) = ((false, c), s)
  subscribe_on name c (some h, s) =
      asked_to_stream h c
        (pipes.write_file h (subscribe_command name ++ 10 ∷ []) (pipes.message_mode h s))

  -- `subscribe`: the result, and the client
  unfoldable pub subscribe : Text → DaemonClient → S → (Bool × DaemonClient) × S
  unfolding unsubscribe subscribe_on open_pipe
  subscribe name c s = let (c', s') = unsubscribe c s in subscribe_on name c' (open_pipe s')
