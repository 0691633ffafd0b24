-- ===== src/Processes.antt =====
-- infrastructure/process/process-runner.ts: the supervision of one external program.
pub mod Runner
pub mod Outcome
pub mod Tail
pub mod Output
pub mod Undisturbed
pub mod Succeeded
pub mod Tests
