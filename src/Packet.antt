-- ===== src/Packet.antt =====
-- dataDump/DDPacket.h and dataDump/DDPacket.cpp: the frames of the protocol. A child per class.
pub mod Types
pub mod Memory
pub mod Words
pub mod Header
pub mod BlockHeader
pub mod Transaction
pub mod Block
pub mod Metadata
pub mod Decided
pub mod DecidedTransaction
pub mod DecidedBlock
pub mod WireBlock
pub mod WireTransaction
