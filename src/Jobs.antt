-- ===== src/Jobs.antt =====
-- The store of the jobs of a server, src/server/job-store.ts.
pub mod Types
pub mod Records
pub mod Claims
pub mod Operations
pub mod Tests
