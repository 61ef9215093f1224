-- ===== src/Tests.antt =====
-- Runs of the theorems at concrete inputs.
mod Wire
mod Peers
mod Names
mod Passwords
mod Storage
mod Slots
mod Desk
mod Logs
mod Starting
