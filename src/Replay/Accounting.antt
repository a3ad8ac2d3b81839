-- ===== src/Replay/Accounting.antt =====
-- The summary accounts for every line that was read.
use code_sementic_memory.Common.{
  ℕ, suc, ◌+◌, ◌≡◌, refl, ap, ◌∙◌, String, Bool, ◌≢◌, ◌≤◌, Option, List, [], ◌∷◌, arith, Bool-cases,
  inl, inr, length, length-append, map, Result, ok, err, bind-ok,
}
use code_sementic_memory.Ingest.Rows.{conflict, integrity_error}
use code_sementic_memory.Ingest.Identity.{IngestResult}
use code_sementic_memory.Replay.Loop.{
  Service, ServiceError, refused, invalid_value, Summary, Replay, Stop, conflict_error, is_accepted,
  account, account_all, record_conflict, ingest_singly, after_single, after_batch, flush_records,
  flush,
}

-- The lines that have been answered, one way or another
unfoldable pub settled : Summary → ℕ
settled s = s.accepted + s.duplicates + s.conflicts + s.invalid

-- `n` more lines are answered, and the errors are those of the conflicts and of the invalid lines.
pub record Settles (n : ℕ) (s s' : Summary) : Type 0 where
  pub total : s'.total_lines ≡ s.total_lines
  pub answered : settled s' ≡ settled s + n
  pub errors :
      length s'.errors + s.conflicts + s.invalid ≡ length s.errors + s'.conflicts + s'.invalid

Settles-none : (s : Summary) → Settles 0 s s
Settles-none s = record { total = refl; answered = omega arith; errors = refl }

pub Settles-first : (n : ℕ) (a b d : Summary) → Settles 1 a b → Settles n b d → Settles (suc n) a d
Settles-first n a b d s t = record {
  total = t.total ∙ s.total;
  answered = omega (arith, s.answered, t.answered);
  errors = omega (arith, s.errors, t.errors);
}

pub account-Settles : (r : IngestResult) (s : Summary) → Settles 1 s (account r s)
unfolding account settled
account-Settles r s = elim (Bool-cases (is_accepted r.status)) [
  | inl e ↦ rw e (record { total = refl; answered = omega arith; errors = refl })
  | inr e ↦ rw e (record { total = refl; answered = omega arith; errors = refl })
]

pub record_conflict-Settles :
    (existing : Option String) (line : ℕ) (s : Summary)
    → Settles 1 s (record_conflict existing line s)
unfolding record_conflict settled
record_conflict-Settles existing line s = record {
  total = refl;
  answered = omega arith;
  errors =
      omega (
        arith,
        length-append s.errors (record { line = line; kind = conflict_error existing } ∷ []),
      );
}

account_all-Settles :
    (rs : List IngestResult) (s : Summary) → Settles (length rs) s (account_all rs s)
unfolding account_all
account_all-Settles [] s = Settles-none s
account_all-Settles (r ∷ rs) s =
    Settles-first (length rs) s (account r s) _ (account-Settles r s)
      (account_all-Settles rs (account r s))

-- No call of the service raises a `ValueError`.
abbrev pub NeverInvalid : {S E : Type 0} → Service S E → Type 0
NeverInvalid {S} {E} service =
    ((e : E) (s : S) (m : String) → service.ingest e s ≢ err (invalid_value m))
    × ((es : List E) (s : S) (m : String) → service.ingest_many es s ≢ err (invalid_value m))

-- No line is counted twice, and unless a `ValueError` was raised all of them are answered or still wait;
-- `extra` errors are not about a line.
pub record Balanced {S E : Type 0} (service : Service S E) (extra : ℕ) (x : Replay S E)
    : Type 0 where
  pub lines : settled x.summary + length x.pending ≤ x.summary.total_lines
  pub exact : NeverInvalid service → settled x.summary + length x.pending ≡ x.summary.total_lines
  pub errors : length x.summary.errors ≡ x.summary.conflicts + x.summary.invalid + extra

module _ {S E : Type 0} (service : Service S E) (strict : Bool) where
  single-Settles :
      (line n : ℕ) (next : Summary → S → Result (Stop S) (Summary × S)) (summary summary' : Summary)
      (s s' : S)
      → (x : Result ServiceError (IngestResult × S))
      → ((sum : Summary) (t : S) → next sum t ≡ ok (summary', s') → Settles n sum summary')
      → after_single service strict line next summary s x ≡ ok (summary', s')
      → Settles (suc n) summary summary'
  unfolding after_single
  single-Settles line n next summary summary' s s' (ok (r, t)) rest k =
      Settles-first n summary (account r summary) summary' (account-Settles r summary) (rest _ t k)
  single-Settles line n next summary summary' s s' (err (refused (conflict existing))) rest k =
      elim (Bool-cases strict) [
        | inl b ↦ ground (arith, rw b at k)
        | inr b ↦
            Settles-first n summary (record_conflict existing line summary) summary'
              (record_conflict-Settles existing line summary) (rest _ s (rw b at k))
      ]
  single-Settles line n next summary summary' s s' (err (refused integrity_error)) rest k =
      ground (arith, k)
  single-Settles line n next summary summary' s s' (err (invalid_value m)) rest k =
      ground (arith, k)

  ingest_singly-Settles :
      (records : List (E × ℕ)) (summary summary' : Summary) (s s' : S)
      → ingest_singly service strict records summary s ≡ ok (summary', s')
      → Settles (length records) summary summary'
  unfolding ingest_singly
  ingest_singly-Settles [] summary summary' s s' h =
      let q : summary ≡ summary' = ground arith in rw (← q) (Settles-none summary)
  ingest_singly-Settles ((e, line) ∷ rest) summary summary' s s' h =
      single-Settles line (length rest) (ingest_singly service strict rest) summary summary' s s'
        (service.ingest e s) (λ sum t k. ingest_singly-Settles rest sum summary' t s' k) h

  flush_records-Settles :
      (records : List (E × ℕ)) (summary summary' : Summary) (s s' : S)
      → flush_records service strict records summary s ≡ ok (summary', s')
      → Settles (length records) summary summary'
  unfolding flush_records
  flush_records-Settles [] summary summary' s s' h =
      let q : summary ≡ summary' = ground arith in rw (← q) (Settles-none summary)
  flush_records-Settles (x ∷ rest) summary summary' s s' h =
      batch-Settles x rest (service.ingest_many (map (λ p. p.0) (x ∷ rest)) s) refl h
    where
      length-map : (xs : List (E × ℕ)) → length (map (λ p. p.0) xs) ≡ length xs
      length-map [] = refl
      length-map (y ∷ ys) = ap suc (length-map ys)

      batch-Settles :
          (x : E × ℕ) (rest : List (E × ℕ)) (o : Result ServiceError (List IngestResult × S))
          → service.ingest_many (map (λ p. p.0) (x ∷ rest)) s ≡ o
          → after_batch service strict (x ∷ rest) summary s o ≡ ok (summary', s')
          → Settles (length (x ∷ rest)) summary summary'
      batch-Settles x rest (ok (rs, t)) f k =
          let q : account_all rs summary ≡ summary' = unfold after_batch in ground (arith, k) in
          let n : length rs ≡ length (x ∷ rest) =
            service.answers _ s t rs f ∙ length-map (x ∷ rest) in
          rw (← q, ← n) (account_all-Settles rs summary)
      batch-Settles x rest (err (refused (conflict existing))) f k =
          ingest_singly-Settles (x ∷ rest) summary summary' s s' (unfold after_batch in k)
      batch-Settles x rest (err (refused integrity_error)) f k =
          absurd (unfold after_batch in ground (arith, k))
      batch-Settles x rest (err (invalid_value m)) f k =
          absurd (unfold after_batch in ground (arith, k))

  pub flush-Balanced :
      (extra : ℕ) (x y : Replay S E)
      → flush service strict x ≡ ok y
      → Balanced service extra x
      → Balanced service extra y × (y.pending ≡ [])
  unfolding flush
  flush-Balanced extra x y h b =
      let ((summary, s), h0, h1) =
        bind-ok (flush_records service strict x.pending x.summary x.state) _ y h in
      let q : record { summary = summary; pending = []; state = s } ≡ y = ground arith in
      let w = flush_records-Settles x.pending x.summary summary x.state s h0 in
      rw (← q) (
        record {
          lines = omega (arith, w.answered, w.total, b.lines);
          exact = λ never. omega (arith, w.answered, w.total, b.exact never);
          errors = omega (arith, w.errors, b.errors);
        },
        refl,
      )
