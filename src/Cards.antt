-- ===== src/Cards.antt =====
-- The memory cards of src/codememory/consolidation/store.py: `transition`, `insert_card`, `append_version`,
-- `add_evidence` and `record_decision`, on the tables of migrations/0005_memory_cards.sql. The search
-- projection that `refresh_fts` rebuilds is not part of the state.
pub mod Status
pub mod Audit
pub mod Rows
pub mod Tables
pub mod Versions
pub mod Frame
pub mod Complete
pub mod Chain
pub mod Inserts
pub mod Decisions
mod Tests
