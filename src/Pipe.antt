-- ===== src/Pipe.antt =====
-- The client's end of the daemon's named pipe, an interface of the operating system. `S` is the state
-- of all that is behind the pipe; it may change with every call.
use open_vbus.Base.{ℕ, Bool, Text, Bytes}

-- What `CreateFileW` answers: a handle, or one of the errors that the clients tell apart.
pub data Opening : Type 0 where
  opened : ℕ → Opening
  busy not_found refused : Opening

-- `pause` is `Sleep` or `WaitNamedPipeW`; `read_file` takes the buffer's size and gives its result with
-- the bytes that came.
pub record Pipes (S : Type 0) : Type 0 where
  pub create_file : S → Opening × S
  pub message_mode : ℕ → S → S
  pub write_file : ℕ → Text → S → Bool × S
  pub read_file : ℕ → ℕ → S → (Bool × Bytes) × S
  pub close_handle : ℕ → S → S
  pub pause : S → S
