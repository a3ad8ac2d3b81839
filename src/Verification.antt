-- ===== src/Verification.antt =====
-- The verification of code bindings: src/codememory/verification/models.py, providers.py, service.py and
-- store.py. What is parsed, hashed or asked of a version control system is an argument.
pub mod Manifests
pub mod Merge
pub mod Lookup
pub mod Evaluation
pub mod Verdicts
pub mod Index
pub mod Runs
pub mod Results
pub mod Applied
pub mod History
pub mod RunStates
pub mod Service
pub mod Finishes
mod Tests
