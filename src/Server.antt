-- ===== src/Server.antt =====
-- server/src: the signaling service.
pub mod RateLimit
pub mod Sessions
pub mod Guard
pub mod Admission
pub mod Invitations
pub mod Backpressure
pub mod Ws
pub mod Connection
pub mod Cleanup
pub mod Release
pub mod Reports
pub mod ScryptGate
pub mod Turn
pub mod Run
pub mod Sample
pub mod Tests
pub mod GuardTests
pub mod PendingAuth
pub mod Lifecycle
