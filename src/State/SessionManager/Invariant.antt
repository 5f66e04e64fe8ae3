-- ===== src/State/SessionManager/Invariant.antt =====
-- What holds of the pool between any two steps.
pub mod Parts
pub mod Created
pub mod Removed
pub mod Kept
pub mod Sound
