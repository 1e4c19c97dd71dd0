-- ===== src/Client/Transfer.antt =====
-- client/src/lib/transfer: how a file goes from one peer to another.
pub mod Frame
pub mod Geometry
pub mod Meta
pub mod Buffer
pub mod Signals
pub mod Tests
use misaka_network.Common.{}
