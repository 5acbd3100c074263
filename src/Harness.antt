-- ===== src/Harness.antt =====
-- dataDump/DDTest.cpp: the two queues that join a server and a client in one program, the storage
-- that the server reads, and the objects that the program makes. Here the callbacks of a `Host` get
-- their code.
pub mod Channel
pub mod World
pub mod Main
pub mod Execute
pub mod Whole
pub mod Invariant
pub mod Schedules
pub mod Waiting
pub mod Orders
pub mod Lines
pub mod Loopback
mod Runs
