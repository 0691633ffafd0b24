-- ===== src/Lib.antt =====
-- datasheet-to-tscircuit: the pipeline that turns a datasheet into a component and its SPICE model.
--
-- The program runs named pipelines of stages over a workspace directory. The runner
-- (src/server/pipeline/pipeline-runner.ts) validates a definition, gives each stage a pending result and
-- a debug directory, and then takes the stages in order: it resolves a stage's dependencies from the
-- results before it, executes the stage, checks and copies its artifacts, records its result, and writes
-- an event for each change. A stage may commit a publication; from then on it counts as completed.
--
-- - `Prelude`: the names that the other modules share, dictionaries, sets of texts and text functions.
-- - `Pipeline.Types`: src/shared/pipeline-types.ts.
-- - `Pipeline.Errors`: src/server/pipeline/pipeline-error.ts.
-- - `Pipeline.Definition`, `Pipeline.Artifacts`, `Pipeline.Dependencies`: the functions
--   `validatePipelineDefinition`, `validateArtifacts` and `getDependencyState` of the runner.
-- - `Pipeline.Effects`: the world and the state of a run. An `Environment` answers each file operation,
--   callback, reading of the clock and test of the signal by the number of effects before it; it is a
--   parameter of everything, so no order or failure of these is left out. `Run` holds the local
--   variables of `runPipeline` and the trace of what was done. A rejected promise or an exception is a
--   `throw`, and `try_catch` keeps what was done before it.
-- - `Pipeline.Trace`: `emit`, `recordPostCommitTraceFailure` and the debug bundles.
-- - `Pipeline.Stages`: the body of the loop of `runPipeline`, one function for each of its parts.
-- - `Pipeline.Runner`: the targets, the loop, and the end of a run.
-- - `Pipeline.Samples`, `Pipeline.Tests`: small pipelines, runs of them, and the theorems at inputs.
--
-- The server keeps its jobs in a `JobStore` (src/server/job-store.ts), which decides who may run a
-- pipeline of a job or delete it, and writes a checkpoint before a change takes effect.
--
-- - `Jobs.Types`: the records of jobs, and the store as a record of its maps. The private map of an
--   object is a dictionary, a symbol or a controller a number that is new with each use, and a
--   `Server` answers for the checkpoint writer, the clock and the subscribers.
-- - `Jobs.Records`: the operations that create, change, cancel and delete jobs. `Jobs.Claims`: deletion
--   leases and claims of executions. `Jobs.Operations`: all of them as steps of the store.
-- - `Jobs.Tests`: a small store, and the theorems at inputs.
--
-- A SPICE model is checked by experiments (src/server/spice-validation): a plan has cases, each with a
-- circuit of fixtures around the model and with observations; a case is validated, compiled to a netlist,
-- and its results are compared with the datasheet. A documented application of the component
-- (src/server/modeling/application-fixture-contract) can give a case part of its circuit.
--
-- - `Spice.Types`, `Spice.Numbers`: types.ts; the JavaScript numbers are a parameter, with the tests and
--   operations that the code uses.
-- - `Spice.Identifiers`: identifiers.ts, the syntax of endpoints and names.
-- - `Spice.Collector`: parse-helpers.ts, the errors that a validation adds.
-- - `Spice.Graph`, `Spice.Circuit`: the two searches of validate-plan-connectivity.ts, one loop over a
--   stack with a fuel of one round more than there are edges, which is enough since a visited node
--   pushes its edges once, and the links of a case in which they search.
-- - `Spice.Connectivity`, `Spice.Observations`, `Spice.Validation`: the rest of that file. `CaseState`
--   holds what `validateCaseConnectivity` writes. `Spice.Compiled`, `Spice.Resolver`, `Spice.Compiler`:
--   compiler.ts; an exception is `compile_error`.
-- - `Spice.Plans`: plan.ts and case.ts of parse-validation-plan, from the requirements that a case covers
--   to the coverage of the plan. Their cases are parsed, and the errors of the parsers are left out.
-- - `Application.Types`, `Application.Detaching`, `Application.Resolving`: the topology of one experiment,
--   resolver.ts; an exception is `condition_conflict`. `Application.Projection`: its executable part; the
--   fuel is one round more than there are group ids, since each round but the last retains one more.
-- - `Spice.Samples`, `Spice.Tests`, `Application.Tests`: small cases, runs, and the theorems at inputs.
--
-- Logs are bounded (src/server/infrastructure/persistence/bounded-log.ts).
--
-- - `Logs.Bounded`: the recent logs, the binary search for the longest end of a message that fits, with
--   two rounds more of fuel than the message has units, the tail of a file, and rotation with append.
--   The bytes of a serialized event, and UTF-8 as Node.js encodes and decodes it, are parameters.
-- - `Logs.Fitting`, `Logs.Tails`, `Logs.Files`, `Logs.Tests`: the proofs, and runs of the definitions.
--
-- Programs are supervised (src/server/infrastructure/process/process-runner.ts, process-error.ts).
--
-- - `Processes.Runner`: the variables of one run and what its callbacks write. The events are in the
--   order of the event loop. `kill` is a parameter, whether it throws.
-- - `Processes.Outcome`: the answer of the run for each way in which the race of its tasks ends.
-- - `Processes.Tail`, `Processes.Output`, `Processes.Undisturbed`, `Processes.Succeeded`,
--   `Processes.Tests`: proofs and runs.
--
-- The other loops run over a list, so that they need no fuel. Times are natural numbers of
-- milliseconds; a duration is their difference, or 0, as `getDuration` has it. Not modelled: the
-- text of the files (an action carries the values that are written), freezing of objects, the
-- JavaScript stack of an error, the constant paths that `runPipeline` adds to its last snapshot, a
-- cause chain that is circular, and dictionary keys that every object inherits. The stages
-- themselves, the parsers of plans and of simulator output, the comparison of series, the restoring
-- of jobs and their logs, the queue of the appends to one log, the store of model runs, the API and
-- the user interface are outside the model: a stage is what its `execute` answers.
pub mod Prelude
pub mod Pipeline
pub mod Jobs
pub mod Spice
pub mod Application
pub mod Logs
pub mod Processes
