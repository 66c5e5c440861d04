-- ===== src/Daemon/Invariant.antt =====
-- The invariant of the daemon's objects: the callbacks of a bus are those of the recorder and the
-- sink that its `BusWrap` holds, so nothing calls an object that is gone.
pub mod Wraps
pub mod Steps
pub mod Fine
pub mod Endpoints
pub mod Replays
pub mod Preserved
pub mod Runs
