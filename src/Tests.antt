-- ===== src/Tests.antt =====
-- The theorems at concrete inputs.
mod Samples
mod Storage
mod Breakers
mod Chunks
mod Outboxes
mod Seals
mod Access
mod Runs
mod Commands
mod Services
mod Composed
mod Startup
