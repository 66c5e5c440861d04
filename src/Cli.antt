-- ===== src/Cli.antt =====
-- vbus/src/cli/vbusctl.cpp.
pub mod Words
use open_vbus.Base.{
  if◌then◌else◌, ℕ, ◌+◌, Bool, true, false, Option, none, some, List, [], ◌∷◌, ◌++◌, Text, Bytes,
}
use open_vbus.Pipe.{Pipes, Opening, opened, busy, not_found, refused}

-- the arguments with a blank between each two
unfoldable pub join : List Text → Text
join [] = []
join (a ∷ []) = a
join (a ∷ b ∷ rest) = a ++ 32 ∷ join (b ∷ rest)

-- How `main` ends: the usage text with code 1, code 2, or code 0 and what it prints.
pub data Exit : Type 0 where
  usage no_contact : Exit
  printed : Bytes → Exit

printing : Option Bytes → Exit
printing none = no_contact
printing (some resp) = printed resp

module _ {S : Type 0} (pipes : Pipes S) where
  after_read : ℕ → (Bool × Bytes) × S → Option Bytes × S
  after_read h ((read, resp), s) = (if read then some resp else none, pipes.close_handle h s)

  after_write : ℕ → Bool × S → Option Bytes × S
  unfolding after_read
  after_write h (true, s) = after_read h (pipes.read_file h 4095 s)
  after_write h (false, s) = (none, pipes.close_handle h s)

  after_open : Text → Opening × S → Option Bytes × S
  unfolding after_write
  after_open cmd (opened h, s) = after_write h (pipes.write_file h (cmd ++ 10 ∷ []) s)
  after_open cmd (busy, s) = (none, s)
  after_open cmd (not_found, s) = (none, s)
  after_open cmd (refused, s) = (none, s)

  -- `none` is the result false
  unfoldable pub send_cmd : Text → S → Option Bytes × S
  unfolding after_open
  send_cmd cmd s = after_open cmd (pipes.create_file s)

  -- `main`, on the arguments behind the program's name
  unfoldable pub run : List Text → S → Exit × S
  unfolding printing join send_cmd
  run [] s = (usage, s)
  run (a ∷ args) s = let (resp, s') = send_cmd (join (a ∷ args)) s in (printing resp, s')
