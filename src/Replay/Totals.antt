-- ===== src/Replay/Totals.antt =====
-- The totals of a replay that ends.
use code_sementic_memory.Common.{
  ℕ, suc, ◌+◌, ◌≤◌, ◌<◌, true, refl, String, Result, err, max, ◌≡◌, ap, Bool, List, [], ◌∷◌, ◌++◌,
  leb, arith, Bool-cases, inl, inr, length, length-append, ok, ◌>>=◌, bind-ok,
}
use code_sementic_memory.Replay.Loop.{
  Service, refused, invalid_value, Cause, ingest_failed, line_invalid, Summary, Stop, Line, skipped,
  record_line, bad, Replay, record_invalid, after_stop, after_flush, flush, read_line, is_skipped,
  add_limit, replay_lines, replay_jsonl, limit_reached, invalid_line,
}
use code_sementic_memory.Replay.Accounting.{settled, NeverInvalid, Balanced, flush-Balanced}
use code_sementic_memory.Replay.Aborts.{Aborts, flush-Aborts}
use code_sementic_memory.Ingest.Rows.{conflict, integrity_error}

module _ {S E : Type 0} (service : Service S E) (strict : Bool) (batch_size : ℕ) where
  full-nonempty : (n : ℕ) → leb (max 1 batch_size) n ≡ true → 0 < n
  full-nonempty n t = ground (arith, t)

  after_flush-Balanced :
      (n : ℕ) (x y : Replay S E)
      → 0 < length x.pending
      → Balanced service 0 x
      → after_flush service strict n (flush service strict x) ≡ ok y
      → Balanced service 0 y
  unfolding after_flush after_stop record_invalid settled
  after_flush-Balanced n x y lt b h = from (flush service strict x) refl h
    where
      stopped :
          (summary : Summary) (s : S) (c : Cause)
          → ((m : String)
              → c ≡ ingest_failed (invalid_value m)
              → Aborts service (length x.pending) x.summary summary)
          → after_stop service strict n summary s c ≡ ok y
          → Balanced service 0 y
      stopped summary s (ingest_failed (invalid_value m)) a k =
          let w = a m refl in
          elim (Bool-cases strict) [
            | inl t ↦ ground (arith, rw t at k)
            | inr t ↦
                let q : record { summary = record_invalid m n summary; pending = []; state = s }
                    ≡ y =
                  ground (arith, rw t at k) in
                rw (← q) (record {
                  lines = omega (arith, w.answered, w.total, b.lines);
                  exact = λ never. absurd (w.raised never);
                  errors = omega (
                    arith,
                    length-append summary.errors (record { line = n; kind = invalid_line m } ∷ []),
                    w.errors,
                    b.errors,
                  );
                })
          ]
      stopped summary s (ingest_failed (refused (conflict existing))) a k = ground (arith, k)
      stopped summary s (ingest_failed (refused integrity_error)) a k = ground (arith, k)
      stopped summary s (line_invalid m) a k = ground (arith, k)

      from :
          (o : Result (Stop S) (Replay S E))
          → flush service strict x ≡ o
          → after_flush service strict n o ≡ ok y
          → Balanced service 0 y
      from (ok z) f k =
          let q : z ≡ y = ground (arith, k) in rw (← q) (flush-Balanced service strict 0 x z f b).0
      from (err stop) f k =
          stopped stop.summary stop.state stop.cause
            (λ m e. flush-Aborts service strict x stop m f e) k

  read_line-Balanced :
      (n : ℕ) (l : Line E) (x y : Replay S E)
      → read_line service strict batch_size n l x ≡ ok y
      → Balanced service 0 x
      → Balanced service 0 y
  unfolding read_line record_invalid settled
  read_line-Balanced n skipped x y h b = let q : x ≡ y = ground arith in rw (← q) b
  read_line-Balanced n (record_line e) x y h b =
      let x' : Replay S E = record x {
        summary = record x.summary { total_lines = x.summary.total_lines + 1 };
        pending = x.pending ++ (e, n) ∷ [];
      } in
      let b' : Balanced service 0 x' = record {
        lines = omega (arith, length-append x.pending ((e, n) ∷ []), b.lines);
        exact = λ never. omega (arith, length-append x.pending ((e, n) ∷ []), b.exact never);
        errors = b.errors;
      } in
      elim (Bool-cases (leb (max 1 batch_size) (length (x.pending ++ (e, n) ∷ [])))) [
        | inl t ↦ after_flush-Balanced n x' y (full-nonempty _ t) b' (rw t at h)
        | inr t ↦ let q : x' ≡ y = ground (arith, rw t at h) in rw (← q) b'
      ]
  read_line-Balanced n (bad message) x y h b = elim (Bool-cases strict) [
    | inl t ↦ ground (arith, rw t at h)
    | inr t ↦
        let q : record x {
          summary =
              record_invalid message n
                (record x.summary { total_lines = x.summary.total_lines + 1 });
        }
            ≡ y =
          ground (arith, rw t at h) in
        rw (← q) (record {
          lines = omega (arith, b.lines);
          exact = λ never. omega (arith, b.exact never);
          errors = omega (
            arith,
            length-append x.summary.errors (record { line = n; kind = invalid_line message } ∷ []),
            b.errors,
          );
        })
  ]

  add_limit-Balanced :
      (n : ℕ) (x : Replay S E)
      → Balanced service 0 x
      → Balanced service 1 (add_limit service strict batch_size n x)
  unfolding add_limit settled
  add_limit-Balanced n x b = record {
    lines = b.lines;
    exact = b.exact;
    errors = omega (
      arith,
      length-append x.summary.errors (record { line = n; kind = limit_reached } ∷ []),
      b.errors,
    );
  }

  -- A finished replay: nothing waits, and at most one error is about the limit.
  abbrev pub Finished : Replay S E → Type 0
  Finished y = (y.pending ≡ []) × ((extra : ℕ) × (extra ≤ 1) × Balanced service extra y)

  stopped-Finished :
      (n : ℕ) (x y : Replay S E)
      → (flush service strict x >>= λ x''.
          flush service strict (add_limit service strict batch_size n x''))
        ≡ ok y
      → Balanced service 0 x
      → Finished y
  stopped-Finished n x y h b =
      let (x'', h0, h1) = bind-ok (flush service strict x) _ y h in
      let (b2, p) =
        flush-Balanced service strict 1 (add_limit service strict batch_size n x'') y h1
          (add_limit-Balanced n x'' (flush-Balanced service strict 0 x x'' h0 b).0) in
      (p, (1, omega arith, b2))

  replay_lines-Finished :
      (max_errors n : ℕ) (ls : List (Line E)) (x y : Replay S E)
      → replay_lines service strict batch_size max_errors n ls x ≡ ok y
      → Balanced service 0 x
      → Finished y
  unfolding replay_lines
  replay_lines-Finished max_errors n [] x y h b =
      let (b', p) = flush-Balanced service strict 0 x y h b in (p, (0, omega arith, b'))
  replay_lines-Finished max_errors n (l ∷ ls) x y h b =
      let (x', h0, h1) = bind-ok (read_line service strict batch_size n l x) _ y h in
      let b' = read_line-Balanced n l x x' h0 b in
      elim (Bool-cases (is_skipped service strict batch_size l)) [
        | inl t ↦ replay_lines-Finished max_errors (suc n) ls x' y (rw t at h1) b'
        | inr t ↦ elim (Bool-cases (leb max_errors (length x'.summary.errors))) [
          | inl u ↦ stopped-Finished n x' y (rw (t, u) at h1) b'
          | inr u ↦ replay_lines-Finished max_errors (suc n) ls x' y (rw (t, u) at h1) b'
        ]
      ]

  replay_jsonl-Finished :
      (max_errors : ℕ) (lines : List (Line E)) (s : S) (y : Replay S E)
      → replay_jsonl service strict batch_size max_errors lines s ≡ ok y
      → Finished y
  unfolding replay_jsonl settled
  replay_jsonl-Finished max_errors lines s y h =
      replay_lines-Finished max_errors 1 lines _ y h
        (record { lines = omega arith; exact = λ never. omega arith; errors = omega arith })

  -- Where no call of the service raises a `ValueError`, a replay that ends without raising, strict or not and
  -- whatever the batch size, has answered every line that it counted: the accepted, duplicate, conflicting and
  -- invalid lines add up to `total_lines`.
  pub replay_accounts :
      NeverInvalid service
      → (max_errors : ℕ) (lines : List (Line E)) (s : S) (y : Replay S E)
      → replay_jsonl service strict batch_size max_errors lines s ≡ ok y
      → y.summary.accepted + y.summary.duplicates + y.summary.conflicts + y.summary.invalid
        ≡ y.summary.total_lines
  unfolding settled
  replay_accounts never max_errors lines s y h =
      let (p, (extra, le, b)) = replay_jsonl-Finished max_errors lines s y h in
      let none_waits : length y.pending ≡ 0 = ap length p in
      omega (arith, b.exact never, none_waits)
