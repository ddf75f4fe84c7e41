-- ===== src/Examples.antt =====
-- Runs of the definitions, and the theorems at concrete inputs.
mod Limits
mod Tracker
mod AccessPolicy
mod Extraction
mod Trigger
mod Evaluator
mod Authorization
mod Admission
mod Selection
mod Execution
mod Discovery
