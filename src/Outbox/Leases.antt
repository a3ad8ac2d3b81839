-- ===== src/Outbox/Leases.antt =====
-- A lease excludes other workers until it ends.
use code_sementic_memory.Common.{
  ℕ, ◌+◌, ◌<◌, ◌≡◌, refl, sym, ◌∙◌, ◌≢◌, ap, max, inl, inr, String, true, false, false≢true, Option,
  some, List, [], ◌∷◌, arith, All, All-of, All-imp, All-zip, All-sort_by, All-filter_where,
  All-update_where, All-Evolves_back, Evolves, Evolves-refl, Evolves-comp, Evolves-update_where,
  Unique, elem, Bool-cases, subst,
}
use code_sementic_memory.Outbox.{
  processing, OutboxJob, Outbox, is_waiting, lease_expired, expire, return_expired, lease,
  has_id_in, created, ready_ids, lease_ids, claim_outbox,
}
use code_sementic_memory.Outbox.Calls.{claim, step}
use code_sementic_memory.Outbox.Lifecycle.{IsValid, step-IsValid}
use code_sementic_memory.Outbox.Evolution.{return_expired-Unique}
use code_sementic_memory.Outbox.Selection.{id_of, ready_ids-is_ready, is_ready-waiting}

-- The job is processed under a lease that ends after `now`.
pub record IsLive (now : ℕ) (j : OutboxJob) : Type 0 where
  pub ends : ℕ
  pub taken : j.status ≡ processing
  pub until : j.lease_until ≡ some ends
  pub later : now < ends

-- A live job keeps its row.
abbrev KeepsLive : ℕ → OutboxJob → OutboxJob → Type 0
KeepsLive now j k = IsLive now j → k ≡ j

live-lease_expired : (now : ℕ) (j : OutboxJob) → IsLive now j → lease_expired now j ≡ false
unfolding lease_expired
live-lease_expired now j v = rw (v.taken, v.until) (ground (arith, v.later))

return_expired-KeepsLive :
    (now : ℕ) (t : Outbox) → Evolves (KeepsLive now) (λ _. ⊥) t (return_expired now t)
unfolding return_expired
return_expired-KeepsLive now t =
    Evolves-update_where (lease_expired now) (expire now) (λ j. Unit {0}) (KeepsLive now) _ t
      (λ j _ e v. absurd (false≢true (sym (live-lease_expired now j v) ∙ e))) (λ j _ e v. refl)
      (All-of t (λ j. tt))

module _ (now limit seconds : ℕ) (ty : Option String) (t : Outbox) (u : Unique id_of t) where
  abbrev returned : Outbox
  returned = return_expired now t

  abbrev ids : List String
  ids = ready_ids now limit ty returned

  IsLive-not_selected : All (λ j. IsLive now j → has_id_in ids j ≡ false) returned
  IsLive-not_selected =
      All-imp returned
        (λ j ready v. elim (Bool-cases (has_id_in ids j)) [
          | inl e ↦ absurd (not_waiting j v (is_ready-waiting now ty j (ready e)).0)
          | inr e ↦ e
        ])
        (ready_ids-is_ready now limit ty returned (return_expired-Unique now t u))
    where
      not_waiting : (j : OutboxJob) → IsLive now j → is_waiting j.status ≡ true → ⊥
      not_waiting j v w = false≢true (sym (ap is_waiting v.taken) ∙ w)

  lease_ids-KeepsLive :
      (until : ℕ) (is : List String)
      → All (λ j. IsLive now j → has_id_in is j ≡ false) returned
      → Evolves (KeepsLive now) (λ _. ⊥) returned (lease_ids now until is returned).1
  unfolding lease_ids
  lease_ids-KeepsLive until [] h = Evolves-refl (KeepsLive now) _ returned (λ j v. refl)
  lease_ids-KeepsLive until (i ∷ is) h =
      Evolves-update_where (has_id_in (i ∷ is)) (lease now until) _ (KeepsLive now) _ returned
        (λ j f e v. absurd (false≢true (sym (f v) ∙ e))) (λ j f e v. refl) h

  -- The rows that a claim returns bear selected ids.
  lease_ids-selected :
      (until : ℕ) (is : List String) (s : Outbox)
      → All (λ k. has_id_in is k ≡ true) (lease_ids now until is s).0
  unfolding lease_ids
  lease_ids-selected until [] s = tt
  lease_ids-selected until (i ∷ is) s =
      All-sort_by created _ _ (
        All-filter_where (has_id_in (i ∷ is)) (λ k. Unit {0}) _ _ (λ k _ e. e) (All-of _ (λ k. tt)))

-- A claim on a valid table changes no job whose lease is live, and returns none of these jobs.
pub claim_exclusive :
    (now limit seconds : ℕ) (ty : Option String) (t : Outbox)
    → IsValid t
    → let (jobs, t') = claim_outbox now limit seconds ty t in
      Evolves (λ j k. IsLive now j → k ≡ j) (λ _. ⊥) t t'
      × All (λ j. IsLive now j → All (λ k. k.job_id ≢ j.job_id) jobs) t
unfolding claim_outbox
claim_exclusive now limit seconds ty t v = (
  Evolves-comp (KeepsLive now) (KeepsLive now) (KeepsLive now) _ t (return_expired now t) _
      (λ i j k f g l. let e = f l in g (subst (IsLive now) (sym e) l) ∙ e)
      (λ j k _ none_new. absurd none_new) (return_expired-KeepsLive now t)
      (lease_ids-KeepsLive now limit seconds ty t v.ids _ _ free),
  All-Evolves_back (KeepsLive now) _ (λ j. IsLive now j → has_id_in selected j ≡ false) _ t _
      (λ j k keeps f live.
        let e = keeps live in
        apart j (
          subst (λ (i : OutboxJob). has_id_in selected i ≡ false) e
            (f (subst (IsLive now) (sym e) live))))
      (return_expired-KeepsLive now t) free,
)
  where
    selected : List String
    selected = ready_ids now limit ty (return_expired now t)

    free : All (λ j. IsLive now j → has_id_in selected j ≡ false) (return_expired now t)
    free = IsLive-not_selected now limit seconds ty t v.ids

    apart :
        (j : OutboxJob)
        → has_id_in selected j ≡ false
        → All
            (λ k. k.job_id ≢ j.job_id)
            (lease_ids now (now + max 1 seconds) selected (return_expired now t)).0
    apart j f =
        All-imp _ (λ k h e. false≢true (sym f ∙ subst (λ i. elem i selected ≡ true) e h))
          (lease_ids-selected now limit seconds ty t v.ids _ selected (return_expired now t))

-- What a claim has leased is live until the lease ends.
lease_ids-IsLive :
    (now until later : ℕ) (is : List String) (s : Outbox)
    → later < until
    → All (λ j. has_id_in is j ≡ true → IsLive later j) (lease_ids now until is s).1
unfolding lease_ids elem
lease_ids-IsLive now until later [] s lt = All-of s (λ j e. absurd (false≢true e))
lease_ids-IsLive now until later (i ∷ is) s lt =
    All-update_where (has_id_in (i ∷ is)) (lease now until) (λ j. Unit {0}) _ s
      (λ j _ e _. leased j) (λ j _ e h. absurd (false≢true (sym e ∙ h))) (All-of s (λ j. tt))
  where
    leased : (j : OutboxJob) → IsLive later (lease now until j)
    leased j = unfold lease in record { ends = until; taken = refl; until = refl; later = lt }

lease_ids-All {κ} :
    (P : OutboxJob → Type κ) (now until : ℕ) (is : List String) (s : Outbox)
    → All (λ j. has_id_in is j ≡ true → P j) (lease_ids now until is s).1
    → All P (lease_ids now until is s).0
unfolding lease_ids
lease_ids-All P now until [] s h = tt
lease_ids-All P now until (i ∷ is) s h =
    All-sort_by created P _ (All-filter_where (has_id_in (i ∷ is)) _ P _ (λ j f e. f e) h)

-- Two claims, one right after the other on a valid table and the second before the leases of the first
-- end, share no job.
pub claims_disjoint :
    (now limit seconds : ℕ) (ty : Option String) (now' limit' seconds' : ℕ) (ty' : Option String)
    (t : Outbox)
    → IsValid t
    → now' < now + max 1 seconds
    → let (jobs, t') = claim_outbox now limit seconds ty t in
      let (jobs', t'') = claim_outbox now' limit' seconds' ty' t' in
      All (λ j. All (λ k. k.job_id ≢ j.job_id) jobs') jobs
unfolding claim_outbox step
claims_disjoint now limit seconds ty now' limit' seconds' ty' t v lt =
    lease_ids-All _ now _ _ (return_expired now t) (
      All-zip _ (λ j live apart h. apart (live h))
        (lease_ids-IsLive now _ now' (ready_ids now limit ty (return_expired now t))
          (return_expired now t) lt)
        (claim_exclusive now' limit' seconds' ty' _
          (step-IsValid (claim now limit seconds ty) t v)).1)
