-- ===== src/Replay.antt =====
-- `replay_jsonl` and `ReplaySummary` of src/codememory/ingest/service.py. The service is an interface: its
-- `ingest` and `ingest_many` on a state. A line is what `json.loads` and the adapter make of it. The service
-- raises the errors of the repository and, like redaction and canonical JSON, any `ValueError`. A file that is no
-- UTF-8 raises where its lines are read and is not part of the model.
mod Loop
pub mod Accounting
pub mod Aborts
pub mod Totals
pub mod Repository
mod Tests
unfoldable pub use Loop.*
