-- ===== src/Consolidation.antt =====
-- The consolidation of candidates into memory cards: src/codememory/consolidation/service.py, with
-- `list_candidates` and the decision keys of consolidation/store.py. The quality review of a candidate, the
-- clock and the fresh ids are arguments; the search projection is not part of the state.
pub mod Rows
pub mod Scores
pub mod Matches
pub mod Actions
pub mod Service
pub mod Decide
pub mod Sound
pub mod Joined
pub mod Audited
pub mod Quiet
pub mod Steps
pub mod Integrity
pub mod Counts
pub mod Recorded
pub mod Again
pub mod Promotion
mod Tests
pub mod Runs
