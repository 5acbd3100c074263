-- ===== src/DataDump.antt =====
-- dataDump/DDBase.h and dataDump/DDBase.cpp: the class that server and client share.
pub mod State
pub mod Monad
pub mod Accept
pub mod Checks
pub mod Ops
pub mod Shared
pub mod Phase
pub mod Does
pub mod Entering
pub mod Quiet
pub mod Switching
pub mod Carry
pub mod Polling
pub mod Line
pub mod Hangs
pub mod Worlds
pub mod Sparing
