-- ===== src/Logs.antt =====
-- infrastructure/persistence/bounded-log.ts: logs whose memory and files are bounded.
pub mod Bounded
pub mod Fitting
pub mod Tails
pub mod Files
pub mod Tests
