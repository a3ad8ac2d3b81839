-- ===== src/Ingest.antt =====
-- The ingest of events into the canonical tables: src/codememory/domain/events.py and, in
-- src/codememory/storage/repository.py, `_prepare_artifact`, `_ensure_entities`, `_ensure_artifacts`,
-- `_existing_by_identity`, `_ingest_with_connection`, `ingest` and `ingest_many`.
pub mod Event
pub mod Artifacts
pub mod Rows
pub mod Entities
pub mod Identity
pub mod Store
pub mod Frame
pub mod Owners
pub mod Accept
pub mod Outcomes
pub mod Repeat
pub mod Consistency
pub mod Batch
pub mod Excerpts
mod Tests
