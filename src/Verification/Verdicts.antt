-- ===== src/Verification/Verdicts.antt =====
-- What each verdict on a binding rests on.
use code_sementic_memory.Common.{
  ◌≡◌, ◌⊎◌, refl, sym, subst, false≢true, Bool, true, false, ◌&&◌, ◌||◌, List, arith, inl, inr,
  Bool-cases, if◌then◌else◌,
}
use code_sementic_memory.Verification.Manifests.{Texts, none_if_empty}
use code_sementic_memory.Verification.Lookup.{ProviderResult}
use code_sementic_memory.Verification.Evaluation.{
  Verification, Facts, PathTests, Status, Subject, concluded, evaluate, facts, is_placeholder,
  judge_available, judge_both, judge_path, judge_symbol, missing, rejected, rejected_result,
  renamed, resolved_path_of, resolved_symbol_of, stale, unavailable_result, unverified, verified,
}

-- Its symbol was found, or for a binding without symbol its path.
abbrev pub FoundNamed : Facts → Type 0
FoundNamed f =
    (f.has_symbol ≡ true → f.symbol_found ≡ true) × (f.has_symbol ≡ false → f.path_found ≡ true)

-- What a status means
abbrev pub Grounds : Facts → Status → Type 0
Grounds f verified =
    FoundNamed f × (f.p4_stale ≡ false) × ((f.has_path && f.has_symbol && f.path_mismatch) ≡ false)
Grounds f missing =
    (f.absence_authoritative ≡ true)
    × (f.has_path ≡ true → f.path_found ≡ false)
    × (f.has_symbol ≡ true → f.symbol_found ≡ false)
Grounds f renamed =
    (f.has_path ≡ true) × (f.has_symbol ≡ true) × (f.symbol_found ≡ true) × (f.path_mismatch ≡ true)
Grounds f stale =
    (f.p4_stale ≡ true)
    ⊎ ((f.path_found ≡ true) × (f.symbol_found ≡ false) × (f.symbol_index_available ≡ true))
Grounds f unverified =
    ((f.has_symbol ≡ true → f.symbol_found ≡ false) × (f.has_symbol ≡ false → f.path_found ≡ false))
Grounds f rejected = ⊥

true≢false : true ≡ false → ⊥
true≢false e = false≢true (sym e)

-- The decision at each value of the facts
judge_cases :
    (f : Facts) (hp hs sf pf pm st ix ab : Bool)
    → (hp || hs) ≡ true
    → let g : Facts = record f {
      has_path = hp;
      has_symbol = hs;
      symbol_found = sf;
      path_found = pf;
      path_mismatch = pm;
      p4_stale = st;
      symbol_index_available = ix;
      absence_authoritative = ab;
    } in
      Grounds g (judge_available g).status
unfolding judge_available judge_both judge_path judge_symbol
judge_cases f true true true pf true st ix ab h = (refl, refl, refl, refl)
judge_cases f true true true pf false true ix ab h = inl refl
judge_cases f true true true pf false false ix ab h =
    ((λ _. refl, λ e. absurd (true≢false e)), refl, refl)
judge_cases f true true false true pm st true ab h = inr (refl, refl, refl)
judge_cases f true true false true pm true false ab h = inl refl
judge_cases f true true false true pm false false ab h = (λ _. refl, λ e. absurd (true≢false e))
judge_cases f true true false false pm st ix true h = (refl, λ _. refl, λ _. refl)
judge_cases f true true false false pm st ix false h = (λ _. refl, λ e. absurd (true≢false e))
judge_cases f true false sf true pm true ix ab h = inl refl
judge_cases f true false sf true pm false ix ab h =
    ((λ e. absurd (false≢true e), λ _. refl), refl, refl)
judge_cases f true false sf false pm st ix true h = (refl, λ _. refl, λ e. absurd (false≢true e))
judge_cases f true false sf false pm st ix false h = (λ e. absurd (false≢true e), λ _. refl)
judge_cases f false true true pf pm true ix ab h = inl refl
judge_cases f false true true pf pm false ix ab h =
    ((λ _. refl, λ e. absurd (true≢false e)), refl, refl)
judge_cases f false true false pf pm st true true h = (refl, λ e. absurd (false≢true e), λ _. refl)
judge_cases f false true false pf pm st false true h = (λ _. refl, λ e. absurd (true≢false e))
judge_cases f false true false pf pm st ix false h = (λ _. refl, λ e. absurd (true≢false e))
judge_cases f false false sf pf pm st ix ab h = absurd (false≢true h)

judge-Grounds :
    (f : Facts) → (f.has_path || f.has_symbol) ≡ true → Grounds f (judge_available f).status
judge-Grounds f h =
    judge_cases f f.has_path f.has_symbol f.symbol_found f.path_found f.path_mismatch f.p4_stale
      f.symbol_index_available f.absence_authoritative h

module _ (t : Texts) (k : PathTests) (s : Subject) (results : List ProviderResult)
    (composite : ProviderResult) (absence_authoritative : Bool) where
  abbrev the_facts : Facts
  the_facts = facts t k s.target results composite absence_authoritative

  -- A binding that is no placeholder names something.
  names_something :
      is_placeholder t k s.target ≡ false → (the_facts.has_path || the_facts.has_symbol) ≡ true
  unfolding facts is_placeholder
  names_something h = ground (arith, h)

  abbrev result_for : Bool → Verification
  result_for b =
      if b
      then concluded s.binding_id the_facts (judge_available the_facts)
          (none_if_empty (resolved_path_of t k composite))
          (none_if_empty (resolved_symbol_of t k composite))
      else unavailable_result s.binding_id (none_if_empty (resolved_path_of t k composite))
          (none_if_empty (resolved_symbol_of t k composite))

  available_result :
      is_placeholder t k s.target ≡ false
      → the_facts.available ≡ true
      → (evaluate t k s results composite absence_authoritative).status
        ≡ (judge_available the_facts).status
  unfolding evaluate concluded
  available_result e a = rw e (
      subst (λ (b : Bool). (result_for b).status ≡ (judge_available the_facts).status) (sym a) refl)

  unavailable_status :
      is_placeholder t k s.target ≡ false
      → the_facts.available ≡ false
      → (evaluate t k s results composite absence_authoritative).status ≡ unverified
  unfolding evaluate unavailable_result
  unavailable_status e a =
      rw e (subst (λ (b : Bool). (result_for b).status ≡ unverified) (sym a) refl)

  placeholder_result :
      is_placeholder t k s.target ≡ true
      → let r = evaluate t k s results composite absence_authoritative in
        (r.status ≡ rejected) × (r.score ≡ 0)
  unfolding evaluate rejected_result
  placeholder_result e = rw e (refl, refl)

  -- A binding is rejected, with score 0, exactly when it is a placeholder. One that is not is unverified where
  -- no provider's snapshot is ready or partial. Otherwise it is verified only if its symbol was found, or for a
  -- binding without symbol its path, the workspace is not stale and no path mismatch was seen for a path with a
  -- symbol; a path next to a symbol that gives no path of its own need not be found. It is missing only if
  -- absence is authoritative and nothing it names was found, renamed only if its symbol was found at another
  -- path, stale only if the workspace is stale or its file is there without its symbol under a symbol index, and
  -- unverified only if its symbol, or a path without symbol, was not found.
  pub evaluate-Grounds :
      let r = evaluate t k s results composite absence_authoritative in
      ((is_placeholder t k s.target ≡ true) × (r.status ≡ rejected) × (r.score ≡ 0))
      ⊎ ((is_placeholder t k s.target ≡ false)
          × (((the_facts.available ≡ false) × (r.status ≡ unverified))
              ⊎ ((the_facts.available ≡ true) × Grounds the_facts r.status)))
  evaluate-Grounds = elim (Bool-cases (is_placeholder t k s.target)) [
    | inl e ↦ inl (e, (placeholder_result e).0, (placeholder_result e).1)
    | inr e ↦ elim (Bool-cases the_facts.available) [
      | inl a ↦ inr (
        e,
        inr (
          a,
          subst (Grounds the_facts) (sym (available_result e a))
              (judge-Grounds the_facts (names_something e)),
        ),
      )
      | inr a ↦ inr (e, inl (a, unavailable_status e a))
    ]
  ]
