-- ===== src/Client.antt =====
-- client/src: the browser's side of a transfer.
pub mod Bitmap
pub mod Ranges
pub mod Transfer
use misaka_network.Common.{}
pub mod Peers
pub mod IceRecovery
