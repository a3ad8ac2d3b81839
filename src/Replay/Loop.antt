-- ===== src/Replay/Loop.antt =====
-- The loop over the lines of a file.
use code_sementic_memory.Common.{
  ℕ, suc, ◌+◌, ◌≡◌, max, String, Bool, true, false, Option, List, [], ◌∷◌, ◌++◌, leb, if◌then◌else◌,
  length, map, Result, ok, err, ◌>>=◌,
}
use code_sementic_memory.Ingest.Rows.{IngestError, conflict, integrity_error}
use code_sementic_memory.Ingest.Identity.{IngestResult, IngestStatus, accepted, duplicate}

-- What a call raises: an error of the repository, or a `ValueError` with its message, which pydantic's
-- `ValidationError` and the errors of the canonical JSON and of its encoding are, too
pub data ServiceError : Type 0 where
  refused : IngestError → ServiceError
  invalid_value : String → ServiceError

-- What the replay calls, and what `zip(..., strict=True)` relies on
pub record Service (S E : Type 0) : Type 0 where
  pub ingest : E → S → Result ServiceError (IngestResult × S)
  pub ingest_many : List E → S → Result ServiceError (List IngestResult × S)
  pub answers :
      (es : List E) (s s' : S) (rs : List IngestResult)
      → ingest_many es s ≡ ok (rs, s')
      → length rs ≡ length es

-- `skipped` is a blank line or a comment, `bad` a line that fails to parse or to validate.
pub data Line (E : Type 0) : Type 0 where
  skipped : Line E
  record_line : E → Line E
  bad : String → Line E

pub data ErrorKind : Type 0 where
  conflict_error : Option String → ErrorKind
  invalid_line : String → ErrorKind
  limit_reached : ErrorKind

pub record ReplayError : Type 0 where
  pub line : ℕ
  pub kind : ErrorKind

pub record Summary : Type 0 where
  pub total_lines : ℕ
  pub accepted : ℕ
  pub duplicates : ℕ
  pub conflicts : ℕ
  pub invalid : ℕ
  pub errors : List ReplayError

-- The summary, the records that wait for a flush with their line numbers, and the service's state
pub record Replay (S E : Type 0) : Type 0 where
  pub summary : Summary
  pub pending : List (E × ℕ)
  pub state : S

-- What the function raises, with the summary and what was committed by then
pub data Cause : Type 0 where
  ingest_failed : ServiceError → Cause
  line_invalid : String → Cause

pub record Stop (S : Type 0) : Type 0 where
  pub cause : Cause
  pub summary : Summary
  pub state : S

abbrev pub is_accepted : IngestStatus → Bool
is_accepted accepted = true
is_accepted duplicate = false

unfoldable pub account : IngestResult → Summary → Summary
account r s =
    if is_accepted r.status
    then record s { accepted = s.accepted + 1 }
    else record s { duplicates = s.duplicates + 1 }

unfoldable pub account_all : List IngestResult → Summary → Summary
account_all [] s = s
account_all (r ∷ rs) s = account_all rs (account r s)

unfoldable pub record_conflict : Option String → ℕ → Summary → Summary
record_conflict existing line s = record s {
  conflicts = s.conflicts + 1;
  errors = s.errors ++ record { line = line; kind = conflict_error existing } ∷ [];
}

unfoldable pub record_invalid : String → ℕ → Summary → Summary
record_invalid message line s = record s {
  invalid = s.invalid + 1;
  errors = s.errors ++ record { line = line; kind = invalid_line message } ∷ [];
}

module _ {S E : Type 0} (service : Service S E) (strict : Bool) where
  -- One record of a rolled back batch; `next` is the rest of the loop.
  unfoldable pub after_single :
      ℕ
      → (Summary → S → Result (Stop S) (Summary × S))
      → Summary
      → S
      → Result ServiceError (IngestResult × S)
      → Result (Stop S) (Summary × S)
  after_single line next summary s (ok (r, s')) = next (account r summary) s'
  after_single line next summary s (err (refused (conflict existing))) =
      if strict
      then err (record {
        cause = ingest_failed (refused (conflict existing));
        summary = record_conflict existing line summary;
        state = s;
      })
      else next (record_conflict existing line summary) s
  after_single line next summary s (err (refused integrity_error)) =
      err (record { cause = ingest_failed (refused integrity_error); summary = summary; state = s })
  after_single line next summary s (err (invalid_value message)) =
      err (record { cause = ingest_failed (invalid_value message); summary = summary; state = s })

  unfoldable pub ingest_singly : List (E × ℕ) → Summary → S → Result (Stop S) (Summary × S)
  ingest_singly [] summary s = ok (summary, s)
  ingest_singly ((e, line) ∷ rest) summary s =
      after_single line (ingest_singly rest) summary s (service.ingest e s)

  unfoldable pub after_batch :
      List (E × ℕ)
      → Summary
      → S
      → Result ServiceError (List IngestResult × S)
      → Result (Stop S) (Summary × S)
  after_batch records summary s (ok (rs, s')) = ok (account_all rs summary, s')
  after_batch records summary s (err (refused (conflict existing))) =
      ingest_singly records summary s
  after_batch records summary s (err (refused integrity_error)) =
      err (record { cause = ingest_failed (refused integrity_error); summary = summary; state = s })
  after_batch records summary s (err (invalid_value message)) =
      err (record { cause = ingest_failed (invalid_value message); summary = summary; state = s })

  unfoldable pub flush_records : List (E × ℕ) → Summary → S → Result (Stop S) (Summary × S)
  flush_records [] summary s = ok (summary, s)
  flush_records (r ∷ rs) summary s =
      after_batch (r ∷ rs) summary s (service.ingest_many (map (λ p. p.0) (r ∷ rs)) s)

  -- `flush`: the pending lists are cleared first
  unfoldable pub flush : Replay S E → Result (Stop S) (Replay S E)
  flush x = flush_records x.pending x.summary x.state >>= λ (summary, s).
      ok (record { summary = summary; pending = []; state = s })

  -- What the handlers around the flush of a full batch make of an error: a `ConflictError` leaves `flush` only
  -- when strict, and is recorded once more and raised; a `ValueError` counts one invalid line, and the pending
  -- lists are empty by then.
  unfoldable pub after_stop : ℕ → Summary → S → Cause → Result (Stop S) (Replay S E)
  after_stop n summary s (ingest_failed (invalid_value message)) =
      let counted = record_invalid message n summary in
      if strict
      then err
          (record { cause = ingest_failed (invalid_value message); summary = counted; state = s })
      else ok (record { summary = counted; pending = []; state = s })
  after_stop n summary s (ingest_failed (refused (conflict existing))) = err (record {
    cause = ingest_failed (refused (conflict existing));
    summary = record_conflict existing n summary;
    state = s;
  })
  after_stop n summary s (ingest_failed (refused integrity_error)) =
      err (record { cause = ingest_failed (refused integrity_error); summary = summary; state = s })
  after_stop n summary s (line_invalid message) =
      err (record { cause = line_invalid message; summary = summary; state = s })

  unfoldable pub after_flush : ℕ → Result (Stop S) (Replay S E) → Result (Stop S) (Replay S E)
  after_flush n (ok x) = ok x
  after_flush n (err stop) = after_stop n stop.summary stop.state stop.cause

  module _ (batch_size : ℕ) where
    -- The body of the `try` with its handlers
    unfoldable pub read_line : ℕ → Line E → Replay S E → Result (Stop S) (Replay S E)
    read_line n skipped x = ok x
    read_line n (record_line e) x =
        let x' = record x {
          summary = record x.summary { total_lines = x.summary.total_lines + 1 };
          pending = x.pending ++ (e, n) ∷ [];
        } in
        if leb (max 1 batch_size) (length x'.pending) then after_flush n (flush x') else ok x'
    read_line n (bad message) x =
        let counted = record x.summary { total_lines = x.summary.total_lines + 1 } in
        if strict
        then err (record {
          cause = line_invalid message;
          summary = record_invalid message n counted;
          state = x.state;
        })
        else ok (record x { summary = record_invalid message n counted })

    -- The check of the limit is not reached for a skipped line.
    abbrev pub is_skipped : Line E → Bool
    is_skipped skipped = true
    is_skipped _ = false

    unfoldable pub add_limit : ℕ → Replay S E → Replay S E
    add_limit n x = record x {
      summary = record x.summary {
        errors = x.summary.errors ++ record { line = n; kind = limit_reached } ∷ [];
      };
    }

    unfoldable pub replay_lines : ℕ → ℕ → List (Line E) → Replay S E → Result (Stop S) (Replay S E)
    replay_lines max_errors n [] x = flush x
    replay_lines max_errors n (l ∷ ls) x = read_line n l x >>= λ x'.
        let continued = replay_lines max_errors (suc n) ls x' in
        if is_skipped l
        then continued
        else if leb max_errors (length x'.summary.errors)
        then (flush x' >>= λ x''. flush (add_limit n x''))
        else continued

    -- `replay_jsonl`, from the first line on
    unfoldable pub replay_jsonl : ℕ → List (Line E) → S → Result (Stop S) (Replay S E)
    replay_jsonl max_errors lines s = replay_lines max_errors 1 lines (record {
      summary = record {
        total_lines = 0;
        accepted = 0;
        duplicates = 0;
        conflicts = 0;
        invalid = 0;
        errors = [];
      };
      pending = [];
      state = s;
    })
