-- ===== src/Daemon.antt =====
-- The daemon, vbus/src/daemon/vbusd.cpp: its numbers, replies, state, commands and handlers.
pub mod Numbers
pub mod Replies
pub mod State
pub mod Commands
pub mod Handler
pub mod Sync
pub mod Serve
pub mod Buses
pub mod Sending
pub mod Subscribing
pub mod Invariant
mod Tests
pub mod Pacing
pub mod Recording
