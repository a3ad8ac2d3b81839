-- ===== src/Replay/Tests.antt =====
-- A replay of concrete lines, and the theorems at it.
use code_sementic_memory.Common.{
  ℕ, suc, ◌+◌, ◌≡◌, ◌≢◌, refl, not, ◌&&◌, subst, String, false, none, some, List, [], ◌∷◌, ◌==◌, ap,
  bind-ok, Bool-cases, inl, inr, length, if◌then◌else◌, Result, ok, err, ◌>>=◌, arith,
}
use code_sementic_memory.Ingest.Rows.{conflict}
use code_sementic_memory.Ingest.Identity.{IngestResult, accepted}
use code_sementic_memory.Replay.Loop.{
  Service, ServiceError, refused, invalid_value, after_flush, Line, skipped, record_line, bad,
  conflict_error, invalid_line, Replay, account, account_all, record_conflict, record_invalid,
  after_single, ingest_singly, after_batch, flush_records, flush, read_line, replay_lines,
  replay_jsonl,
}
use code_sementic_memory.Replay.Accounting.{NeverInvalid}
use code_sementic_memory.Replay.Totals.{replay_accounts}

-- A service that counts what it accepts, calls the event "again" a conflict and the event `broken` invalid
abbrev count_one : String → String → ℕ → Result ServiceError (IngestResult × ℕ)
count_one broken e n =
    if e == "again"
    then err (refused (conflict (some e)))
    else if not (broken == "") && e == broken
    then err (invalid_value "no JSON number")
    else ok (
      record {
        status = accepted;
        event_id = e;
        accepted_seq = n;
        outbox_job_id = none;
        duplicate_of = none;
      },
      suc n,
    )

unfoldable count_many : String → List String → ℕ → Result ServiceError (List IngestResult × ℕ)
count_many broken [] n = ok ([], n)
count_many broken (e ∷ es) n =
    count_one broken e n >>= λ (r, n'). count_many broken es n' >>= λ (rs, n''). ok (r ∷ rs, n'')

count_many-answers :
    (broken : String) (es : List String) (n n' : ℕ) (rs : List IngestResult)
    → count_many broken es n ≡ ok (rs, n')
    → length rs ≡ length es
unfolding count_many
count_many-answers broken [] n n' rs h = let q : [] ≡ rs = ground (arith, h) in rw (← q) refl
count_many-answers broken (e ∷ es) n n' rs h =
    let ((r, m), h0, h1) = bind-ok (count_one broken e n) _ (rs, n') h in
    let ((rest, k), h2, h3) = bind-ok (count_many broken es m) _ (rs, n') h1 in
    let q : r ∷ rest ≡ rs = ground (arith, h3) in
    rw (← q) (ap suc (count_many-answers broken es m k rest h2))

abbrev counter : String → Service ℕ String
counter broken = record {
  ingest = count_one broken;
  ingest_many = count_many broken;
  answers = count_many-answers broken;
}

abbrev five_lines : List (Line String)
five_lines = record_line "a" ∷ skipped ∷ record_line "again" ∷ bad "not JSON" ∷ record_line "b" ∷ []

abbrev replayed : Replay ℕ String
replayed = record {
  summary = record {
    total_lines = 4;
    accepted = 2;
    duplicates = 0;
    conflicts = 1;
    invalid = 1;
    errors =
        record { line = 3; kind = conflict_error (some "again") }
        ∷ record { line = 4; kind = invalid_line "not JSON" }
        ∷ [];
  };
  pending = [];
  state = 2;
}

replays : replay_jsonl (counter "") false 2 100 five_lines 0 ≡ ok replayed
unfolding replay_jsonl replay_lines read_line after_flush flush flush_records after_batch
    account_all account ingest_singly after_single record_conflict record_invalid count_many
replays = refl

-- The event "b" is invalid, and the record "a" of its batch is lost with it.
abbrev lossy : Replay ℕ String
lossy = record {
  summary = record {
    total_lines = 3;
    accepted = 1;
    duplicates = 0;
    conflicts = 0;
    invalid = 1;
    errors = record { line = 2; kind = invalid_line "no JSON number" } ∷ [];
  };
  pending = [];
  state = 1;
}

-- The result is no `ValueError`.
abbrev IsNoValueError : {A : Type 0} → Result ServiceError A → Type 0
IsNoValueError (ok a) = Unit
IsNoValueError (err (refused e)) = Unit
IsNoValueError (err (invalid_value m)) = ⊥

IsNoValueError-apart :
    {A : Type 0} (x : Result ServiceError A) (m : String)
    → IsNoValueError x
    → x ≢ err (invalid_value m)
IsNoValueError-apart x m h e = subst IsNoValueError e h

count_one-IsNoValueError : (e : String) (n : ℕ) → IsNoValueError (count_one "" e n)
count_one-IsNoValueError e n = elim (Bool-cases (e == "again")) [
  | inl h ↦ rw h tt
  | inr h ↦ rw h tt
]

bind-IsNoValueError :
    {A B : Type 0} (x : Result ServiceError A) (f : A → Result ServiceError B)
    → IsNoValueError x
    → ((a : A) → IsNoValueError (f a))
    → IsNoValueError (x >>= f)
bind-IsNoValueError (ok a) f n g = g a
bind-IsNoValueError (err (refused e)) f n g = tt
bind-IsNoValueError (err (invalid_value m)) f n g = n

count_many-IsNoValueError : (es : List String) (n : ℕ) → IsNoValueError (count_many "" es n)
unfolding count_many
count_many-IsNoValueError [] n = tt
count_many-IsNoValueError (e ∷ es) n =
    bind-IsNoValueError (count_one "" e n) _ (count_one-IsNoValueError e n) (λ (r, m).
      bind-IsNoValueError (count_many "" es m) _ (count_many-IsNoValueError es m) (λ (rs, k). tt))

counter-NeverInvalid : NeverInvalid (counter "")
counter-NeverInvalid = (
  λ e s m. IsNoValueError-apart _ m (count_one-IsNoValueError e s),
  λ es s m. IsNoValueError-apart _ m (count_many-IsNoValueError es s),
)

replay_accounts_example : 2 + 0 + 1 + 1 ≡ 4
replay_accounts_example =
    replay_accounts (counter "") false 2 counter-NeverInvalid 100 five_lines 0 replayed replays
