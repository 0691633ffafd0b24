-- ===== src/Application.antt =====
-- modeling/application-fixture-contract: the documented application of a component, as a topology that
-- an experiment is resolved to.
pub mod Types
pub mod Projection
pub mod Detaching
pub mod Resolving
pub mod Tests
