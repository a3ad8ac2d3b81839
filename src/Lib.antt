-- ===== src/Lib.antt =====
-- The memory service for coding agents (codeSementicMemory), as far as it is modelled here: events of
-- agents are redacted and ingested into canonical tables with one job each in a durable outbox; workers
-- lease the jobs and run extractions; a batch of candidates that passes its checks is stored and
-- consolidated into memory cards with versions and a lifecycle; the code bindings of the cards are
-- verified against snapshots; and an agent's cycle requests the maintenance of its memory.
-- Paths are from the repository's root.
--
-- Parts and files
--   Common       lists, tables with their SELECT, UPDATE and upsert, JSON values, results
--   Outbox       the outbox table of src/codememory/storage/repository.py: `claim_outbox`,
--                `claim_outbox_for_task`, `complete_outbox`, `release_outbox`, `fail_outbox` and the bulk
--                operations of a task; a table is the list of its rows
--   Maintenance  the table agent_memory_maintenance there: `request_agent_memory_maintenance`,
--                `complete_...`, `fail_...` and `fail_pending_agent_memory_maintenance`
--   Ingest       src/codememory/domain/events.py in Event; in storage/repository.py `_prepare_artifact`
--                in Artifacts, the tables in Rows, `_ensure_entities` in Entities,
--                `_existing_by_identity` in Identity, `_ingest_with_connection`, `ingest` and
--                `ingest_many` in Store. The job of an event goes into the table of Outbox.
--   Replay       `replay_jsonl` of src/codememory/ingest/service.py in Loop, over an interface that
--                Repository fills with Ingest; the service may raise any `ValueError`
--   Redaction    src/codememory/ingest/redaction.py: `redact_value` in Values, `redact_event` in Events
--   Extraction   in src/codememory/extraction: `begin_run` and `record_failure` of store.py and
--                `extract_task` of service.py in Runs, `_validate_batch` of service.py on the batch of
--                models.py in Batch, `record_success` and `_available_candidate_id` of store.py in
--                Candidates
--   Cards        src/codememory/consolidation/store.py: `transition` in Status, `insert_card`,
--                `append_version` and `record_decision` in Versions, what they write in Tables
--                and Rows
--   Consolidation  src/codememory/consolidation/service.py: the texts and scores in Scores,
--                `_find_matches` in Matches, `_validate_candidate_evidence` and what single steps write in
--                Actions, `_create_card`, `_merge_or_version` and `_record_hints` in Service,
--                `_consolidate_one` and `_record_quarantined` in Decide, `list_candidates` of store.py,
--                `consolidate` and `promote_card` in Runs. It calls the operations of Cards.
--   Verification in src/codememory/verification: the snapshots of models.py in Manifests and Merge,
--                the index of providers.py in Lookup, `_evaluate` of service.py in Evaluation, the runs and snapshots of
--                store.py in Runs, its `record_results` in Results, `verify` with `list_current_bindings`
--                in Service and Service/Requests. It reads the tables of Cards and writes their bindings.
--
-- Conventions
--   A transaction is a function to a result: an error carries no state, since the transaction is rolled
--   back. The clock and every fresh uuid are arguments. A time is a number; the texts of one layout are
--   ordered as the times they stand for. A limit or a delay below 0 acts as 0 in the code and is a
--   natural number here. A confidence of a card counts equal parts of 1, and the score of a verification
--   hundredths; the arithmetic of the scores of consolidation is a parameter. The metadata and the hints
--   of a row are JSON objects whose keys are missing or have a value of the expected type.
--   A request of maintenance says whether the rows that its foreign keys name exist.
--   Every loop is structural recursion on a list or a JSON value, so that no fuel is needed, but for the
--   search for a candidate id: its fuel is one more than the number of the rows, which is enough, since
--   different attempts try different ids.
--   Parameters stand for hashing, base64, JSON text and `str.strip` (`Codec`, `CardCodec`), for the
--   regular expressions of redaction (`Rules`) and the validation error of the models that it rebuilds,
--   for texts, hashes and scores of consolidation (`Policy`),
--   and for paths, symbols and hashes of verification (`Texts`, `PathTests`, `Numbers`, `Env`).
--
-- Not modelled: the read-only queries and the search projections, the HTTP API, the command line,
-- hooks and configuration (glue around the operations above), SQLite itself, the parsing of provider
-- payloads and the collection of a manifest from a version control system, a replay's file that is no UTF-8, an
-- error of the database between the batches of `record_results`, and, so far, the quality gate
-- (its verdict on a candidate is an argument), the backlog, the history import,
-- the agent cycle and the workers.
pub mod Common
pub mod Outbox
pub mod Maintenance
pub mod Ingest
pub mod Replay
pub mod Redaction
pub mod Cards
pub mod Consolidation
pub mod Verification
pub mod Extraction
