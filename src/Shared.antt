-- ===== src/Shared.antt =====
-- The code that client and server share: Shared/*.h, and the JSON objects that packets are.
pub mod Json
pub mod Auth
pub mod Frame
pub mod ReadLoop
pub mod Retry
