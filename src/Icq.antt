-- ===== src/Icq.antt =====
-- The server for the old ICQ protocols.
pub mod Crypt
