-- ===== src/Replay/Aborts.antt =====
-- What a flush that ends in a `ValueError` has counted.
use code_sementic_memory.Common.{
  ℕ, suc, ◌+◌, ◌<◌, ◌≡◌, refl, ◌∙◌, String, Bool, List, [], ◌∷◌, arith, Bool-cases, inl, inr,
  length, map, Result, ok, err, ◌>>=◌,
}
use code_sementic_memory.Ingest.Rows.{conflict, integrity_error}
use code_sementic_memory.Ingest.Identity.{IngestResult}
use code_sementic_memory.Replay.Loop.{
  Service, ServiceError, refused, invalid_value, ingest_failed, Summary, Replay, Stop, account,
  record_conflict, ingest_singly, after_single, after_batch, flush_records, flush,
}
use code_sementic_memory.Replay.Accounting.{
  settled, NeverInvalid, Settles, account-Settles, record_conflict-Settles,
}

-- A `ValueError` leaves fewer than `n` lines answered, and errors for the conflicts and the invalid lines.
pub record Aborts {S E : Type 0} (service : Service S E) (n : ℕ) (s s' : Summary) : Type 0 where
  pub total : s'.total_lines ≡ s.total_lines
  pub answered : settled s' < settled s + n
  pub errors :
      length s'.errors + s.conflicts + s.invalid ≡ length s.errors + s'.conflicts + s'.invalid
  pub raised : ¬ NeverInvalid service

module _ {S E : Type 0} (service : Service S E) where
  Aborts-later :
      (n : ℕ) (a b d : Summary) → Settles 1 a b → Aborts service n b d → Aborts service (suc n) a d
  Aborts-later n a b d s t = record {
    total = t.total ∙ s.total;
    answered = omega (arith, s.answered, t.answered);
    errors = omega (arith, s.errors, t.errors);
    raised = t.raised;
  }

  Aborts-here : (n : ℕ) (s : Summary) → ¬ NeverInvalid service → Aborts service (suc n) s s
  Aborts-here n s raised = record {
    total = refl;
    answered = omega arith;
    errors = refl;
    raised = raised;
  }

  module _ (strict : Bool) (stop : Stop S) (m : String)
      (cause : stop.cause ≡ ingest_failed (invalid_value m)) where
    single-Aborts :
        (e : E) (line n : ℕ) (next : Summary → S → Result (Stop S) (Summary × S))
        (summary : Summary) (s : S)
        → (x : Result ServiceError (IngestResult × S)) → service.ingest e s ≡ x
        → ((sum : Summary) (t : S) → next sum t ≡ err stop → Aborts service n sum stop.summary)
        → after_single service strict line next summary s x ≡ err stop
        → Aborts service (suc n) summary stop.summary
    unfolding after_single
    single-Aborts e line n next summary s (ok (r, t)) f rest k =
        Aborts-later n summary (account r summary) stop.summary (account-Settles r summary)
          (rest _ t k)
    single-Aborts e line n next summary s (err (refused (conflict existing))) f rest k =
        elim (Bool-cases strict) [
          | inl b ↦ ground (arith, rw b at k, cause)
          | inr b ↦
              Aborts-later n summary (record_conflict existing line summary) stop.summary
                (record_conflict-Settles existing line summary) (rest _ s (rw b at k))
        ]
    single-Aborts e line n next summary s (err (refused integrity_error)) f rest k =
        ground (arith, k, cause)
    single-Aborts e line n next summary s (err (invalid_value l)) f rest k =
        let q : record { cause = ingest_failed (invalid_value l); summary = summary; state = s }
            ≡ stop =
          ground (arith, k) in
        rw (← q) (Aborts-here n summary (λ never. never.0 e s l f))

    ingest_singly-Aborts :
        (records : List (E × ℕ)) (summary : Summary) (s : S)
        → ingest_singly service strict records summary s ≡ err stop
        → Aborts service (length records) summary stop.summary
    unfolding ingest_singly
    ingest_singly-Aborts [] summary s h = ground (arith, h)
    ingest_singly-Aborts ((e, line) ∷ rest) summary s h =
        single-Aborts e line (length rest) (ingest_singly service strict rest) summary s
          (service.ingest e s) refl (λ sum t k. ingest_singly-Aborts rest sum t k) h

    batch-Aborts :
        (x : E × ℕ) (rest : List (E × ℕ)) (summary : Summary) (s : S)
        (o : Result ServiceError (List IngestResult × S))
        → service.ingest_many (map (λ p. p.0) (x ∷ rest)) s ≡ o
        → after_batch service strict (x ∷ rest) summary s o ≡ err stop
        → Aborts service (length (x ∷ rest)) summary stop.summary
    unfolding after_batch
    batch-Aborts x rest summary s (ok (rs, t)) f k = ground (arith, k)
    batch-Aborts x rest summary s (err (refused (conflict existing))) f k =
        ingest_singly-Aborts (x ∷ rest) summary s k
    batch-Aborts x rest summary s (err (refused integrity_error)) f k = ground (arith, k, cause)
    batch-Aborts x rest summary s (err (invalid_value l)) f k =
        let q : record { cause = ingest_failed (invalid_value l); summary = summary; state = s }
            ≡ stop =
          ground (arith, k) in
        rw (← q)
          (Aborts-here (length rest) summary (λ never. never.1 (map (λ p. p.0) (x ∷ rest)) s l f))

    records-Aborts :
        (records : List (E × ℕ)) (summary : Summary) (s : S)
        → flush_records service strict records summary s ≡ err stop
        → Aborts service (length records) summary stop.summary
    unfolding flush_records
    records-Aborts [] summary s h = ground (arith, h)
    records-Aborts (x ∷ rest) summary s h =
        batch-Aborts x rest summary s (service.ingest_many (map (λ p. p.0) (x ∷ rest)) s) refl h

bind-err {ℓ κ μ} :
    {E : Type ℓ} {A : Type κ} {B : Type μ}
    → (x : Result E A) (f : A → B) (e : E) → (x >>= λ a. ok (f a)) ≡ err e
    → x ≡ err e
bind-err (ok a) f e h = ground (arith, h)
bind-err (err d) f e h = ground (arith, h)

pub flush-Aborts :
    {S E : Type 0} (service : Service S E) (strict : Bool) (x : Replay S E) (stop : Stop S)
    (m : String)
    → flush service strict x ≡ err stop
    → stop.cause ≡ ingest_failed (invalid_value m)
    → Aborts service (length x.pending) x.summary stop.summary
unfolding flush
flush-Aborts service strict x stop m h cause =
    records-Aborts service strict stop m cause x.pending x.summary x.state
      (bind-err (flush_records service strict x.pending x.summary x.state) _ stop h)
