-- ===== src/Spice.antt =====
-- src/server/spice-validation: the experiments that check a SPICE model against its datasheet.
pub mod Types
pub mod Identifiers
pub mod Numbers
pub mod Graph
pub mod Collector
pub mod Circuit
pub mod Connectivity
pub mod Observations
pub mod Validation
pub mod Plans
pub mod Compiled
pub mod Resolver
pub mod Compiler
pub mod Samples
pub mod Tests
