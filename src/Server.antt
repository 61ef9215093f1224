-- ===== src/Server.antt =====
-- The server program: Server/*.cpp.
pub mod Life
pub mod Logger
pub mod RateLimiter
pub mod Connection
pub mod Sessions
pub mod Crypto
pub mod Storage
pub mod Handlers
