-- ===== src/Pipeline.antt =====
-- src/server/pipeline: the typed pipeline runner. `Types` is src/shared/pipeline-types.ts, `Errors`
-- pipeline-error.ts, and the others are pipeline-runner.ts, split by its functions.
pub mod Types
pub mod Errors
pub mod Result
pub mod Definition
pub mod Artifacts
pub mod Dependencies
pub mod Effects
pub mod Trace
pub mod Stages
pub mod Runner
pub mod Samples
pub mod Tests
