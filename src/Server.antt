-- ===== src/Server.antt =====
-- dataDump/DDServer.h and dataDump/DDServer.cpp: the side that has the data.
pub mod Terms
pub mod Blocks
pub mod OneBlock
pub mod Segments
pub mod Settle
pub mod Sending
pub mod States
pub mod Loop
pub mod Steady
pub mod Moves
pub mod Edges
pub mod Refines
pub mod Pointer
pub mod Sparing
pub mod Opening
pub mod Delivery
