-- ===== src/Operations.antt =====
-- The ledger of workflow operations: uta/tasks/storage/operation_repository.py and
-- uta/testgen/operations.
pub mod Table
pub mod Rows
pub mod Envelope
pub mod Chain
pub mod Slots
pub mod Adoption
pub mod Classify
pub mod Results
mod Scenarios
mod Workbench
