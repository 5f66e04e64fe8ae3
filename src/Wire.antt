-- ===== src/Wire.antt =====
-- The wire package: the reflective OSCAR codec and what is built on it.
pub mod Reader
pub mod Words
pub mod Tag
pub mod Types
pub mod Encode
pub mod Decode
pub mod RoundTrip
pub mod Totality
pub mod Overflow
pub mod Quirks
pub mod Tlv
pub mod RateLimit
pub mod Flap
pub mod Roast
pub mod Tests
