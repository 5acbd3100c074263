-- ===== src/Examples.antt =====
-- The theorems of this development applied to concrete packets, objects and events.
pub mod Samples
pub mod Wire
pub mod Machine
pub mod Devices
pub mod Loops
pub mod Clock
pub mod Program
