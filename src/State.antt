-- ===== src/State.antt =====
-- The state package: what the server keeps of the users who are signed on.
pub mod RateState
pub mod Instances
pub mod ScreenNames
pub mod SessionManager
pub mod UserLocks
pub mod Feedbag
pub mod Presence
pub mod Relay
pub mod ChatSessions
pub mod NotifyTxn
