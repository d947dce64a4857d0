-- ===== src/Lib.antt =====
-- A verification library for the unit test agent: a program that generates unit tests for the
-- classes of a repository with a language model, measures them with coverage and mutation gates,
-- repairs them in turns, and records each step so that a crash can be recovered from.
--
-- The parts that are modelled, and how they meet:
--
-- * The ledger of workflow operations claims each side-effecting step before it runs and completes
--   it with the path and the digest of an artifact. `Operations.Table` and `Operations.Rows` are the
--   table and the transactions of uta/tasks/storage/operation_repository.py, one function per
--   transaction, from the table to an error or to the row and the new table. `Operations.Envelope`
--   has the identities and envelopes of uta/testgen/operations/models.py. `Operations.Chain` is the
--   artifact of a row and the recursion over its prerequisites, `Operations.Slots` the slot that a state
--   names, `Operations.Adoption` the use of an envelope that a crash has left, `Operations.Classify` the
--   decision after a crash, with its seven outcomes, and `Operations.Results` the recording of a result
--   and the check of a finished unit: uta/testgen/operations/reconciliation.py and ledger.py.
-- * `RepairProgress` is uta/testgen/repair_progress.py: whether the measured scores justify another
--   repair turn, and what that makes of a phase's result. The phases are steps of the ledger.
-- * `Equivalence` is uta/enforcement/equivalent_mutants.py: reading a review of the surviving mutants
--   and granting the mutation gate on it.
-- * `Batching` is tools/python-enforcement/uta_enforce_core/mutation_batching.py: the units of a
--   source file that a mutation tool copies, their partition into batches under a byte budget, and
--   the slice of a generation policy that a batch owns.
--
-- * The tasks that the ledger's rows belong to are queued, claimed by a runner and brought to an end.
--   `Tasks` has the tables, and children for the parts of uta/tasks: `Tasks.Engine` generation_engine.py,
--   `Tasks.Store` the transactions of storage/task_repository.py, event_repository.py and
--   scheduler_repository.py, `Tasks.Finish` and `Tasks.Progress` progress_store.py, `Tasks.Lifecycle`,
--   `Tasks.Recovery` and `Tasks.Requeue` lifecycle/state.py and recovery.py, `Tasks.Scheduler` the creation
--   and the claiming of tasks, `Tasks.Rerun` workflow_rerun.py, and `Tasks.Requests` sequences of these
--   methods, in any order, each at its time: `Request` lists them. The methods that end a task with
--   the results of its classes or of a push are not among them. A method of several transactions is an `Action`: what was committed before an exception
--   outlives it. `Tasks.Keeping` is the interface between an invariant and the transactions that the
--   methods are made of. `Tasks.Requests.Locks` is the view of a client of the claiming, for whom the
--   table is a table of locks, one for each repository.
--
-- * `Waves` is testgen/wave_assigner.py of uta: which callables a plan takes first. It stands alone. The
--   set of verbs is a list in the order of its iteration, and an argument.
--
-- `Prelude` has the shared types: Boolean tests on native numbers, the equality interface, lists,
-- sums and stable sorting, dictionaries, JSON values and calls that may raise.
--
-- How the model stands to the code. A method that changes a table returns it; a transaction that
-- raises is rolled back, so it returns an error and no table. A `dict` is an association list in
-- insertion order. Columns that hold JSON are the text that was written, and times are texts that are
-- passed in. Counts, sizes and line numbers are natural numbers. The recursion over prerequisites has
-- fuel of two more than the rows of the ledger: each call sees an id for the first time, and all but
-- the first see that of a row. The other loops are structural.
--
-- Parameters: `json.loads`, `json_dumps`, `str` and `lower` on the values that are read, sha256 and
-- the syntax tree of a Python source are functions; the artifact store, the fingerprints of the
-- workspace and of a phase's outputs, and the test for an allowed edit are the fields of
-- `Operations.Envelope.Ports`. Floats are `RepairProgress.Floats`, a type with its comparisons, of
-- which one law is used, that `>` is asymmetric.
--
-- Not modelled: the cost accounting, which adds floats; of uta/tasks, the branches, the results and the
-- token counts, the duplicate search; the language backends, the runners of Maven, PIT, pytest and
-- mutmut, and the evidence that they parse; prompts, reports, the web service, the command line and the scripts,
-- which are input and output; agent_core, which is another project. The merge of candidate plans in
-- mutation_batching.py, `rehydrate`, and the validation of identifiers and envelopes are not modelled
-- either, nor the extraction of callables from the markdown of a context.
pub mod Prelude
pub mod Equivalence
pub mod Operations
pub mod Batching
pub mod RepairProgress
pub mod Tasks
pub mod Waves
