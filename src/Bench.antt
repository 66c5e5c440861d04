-- ===== src/Bench.antt =====
-- vbus/src/cli/vbus_bench.cpp: the traffic generator and the passive sink. `Arguments` is `main` and
-- `parse_rate`, `Sender` the two sending loops, `Report` the statistics and the loops of the sink, and
-- `Sockets` the sockets and how a run ends. Of the printing only the numbers of the table are kept;
-- floating point enters as a record of operations.
pub mod Arguments
pub mod Sender
pub mod Report
pub mod Sockets
mod Tests
