-- ===== src/Redaction.antt =====
-- The removal of secrets at the ingest boundary: src/codememory/ingest/redaction.py. The regular expressions
-- are parameters: each substitution gives its text and whether its callback ran.
mod Values
mod Events
pub mod Cleanness
pub mod Reports
pub mod Paths
mod Tests
unfoldable pub use Values.*
unfoldable pub use Events.*
