-- ===== src/Extraction.antt =====
-- Extraction: the runs of src/codememory/extraction/store.py and `extract_task` of extraction/service.py, with
-- the outcome of an attempt as an argument; `_validate_batch` of service.py; and the candidate rows of
-- `record_success`.
pub mod Runs
pub mod Batch
pub mod Grounded
pub mod Candidates
pub mod Names
pub mod Kept
pub mod Stored
pub mod Budget
mod Tests
