-- ===== src/Replay/Repository.antt =====
-- The repository of `Ingest` as the service of a replay. `IngestService` redacts an event before and
-- evaluates its quality afterwards; neither changes the tables of `Ingest`. The
-- model's repository raises no `ValueError`: the errors of the codec and of the redacted models are not part of it.
use code_sementic_memory.Common.{ℕ, ◌≡◌, arith, String, Result, ok, err}
use code_sementic_memory.Ingest.Event.{EventEnvelope}
use code_sementic_memory.Ingest.Artifacts.{Codec}
use code_sementic_memory.Ingest.Rows.{Db, IngestError}
use code_sementic_memory.Ingest.Store.{ingest, ingest_many}
use code_sementic_memory.Ingest.Batch.{batch-Adds}
use code_sementic_memory.Replay.Loop.{Service, ServiceError, refused}

abbrev pub as_refused : {A : Type 0} → Result IngestError A → Result ServiceError A
as_refused (ok a) = ok a
as_refused (err e) = err (refused e)

pub as_refused-ok : {A : Type 0} (x : Result IngestError A) (a : A) → as_refused x ≡ ok a → x ≡ ok a
as_refused-ok (ok b) a h = ground (arith, h)
as_refused-ok (err e) a h = ground (arith, h)

unfoldable pub repository_service : Codec → ℕ → Service Db (EventEnvelope × ℕ × String)
repository_service c artifact_max_bytes = record {
  ingest = λ (e, now, job_id) db. as_refused (ingest c artifact_max_bytes e now job_id db);
  ingest_many = λ es db. as_refused (ingest_many c artifact_max_bytes es db);
  answers = λ es db db' rs h.
      (batch-Adds c artifact_max_bytes es db db' rs (as_refused-ok _ (rs, db') h)).0;
}
