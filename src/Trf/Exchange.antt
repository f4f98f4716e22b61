-- ===== src/Trf/Exchange.antt =====
-- A whole exchange with a chip that keeps its contract, through drivers/trf797x.
mod Reads
mod Receives
mod Sends
mod Tests
pub mod Device
pub mod Transfer
