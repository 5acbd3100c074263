-- ===== src/Client.antt =====
-- dataDump/DDClient.h and dataDump/DDClient.cpp: the side that asks for the data.
pub mod States
pub mod Loop
pub mod Steady
pub mod Moves
pub mod Edges
pub mod Refines
pub mod Storage
pub mod Room
pub mod Sparing
pub mod Opening
pub mod Delivery
