-- ===== src/MsTimer.antt =====
-- ClockAndTimer/header/msBaseTimer.h, ClockAndTimer/header/msTimer.h and
-- ClockAndTimer/source/msTimer.cpp: a timer of milliseconds that a thread of its own evaluates.
pub mod Base
pub mod Ops
pub mod Loop
pub mod Expiry
pub mod Turns
pub mod Starting
pub mod Firing
pub mod Refiring
pub mod Races
