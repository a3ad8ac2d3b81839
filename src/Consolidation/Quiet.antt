-- ===== src/Consolidation/Quiet.antt =====
-- Writes of a consolidation that leave the cards and versions alone, and what a success holds.
use code_sementic_memory.Common.{
  ℕ, ◌≡◌, refl, sym, subst, String, true, List, [], arith, Kept, Kept-refl, ok, err, Result,
}
use code_sementic_memory.Cards.Status.{CardStatus, has_card, proposed, same_status, uncertain}
use code_sementic_memory.Cards.Tables.{add_evidence, event_keys, evidence_loop}
use code_sementic_memory.Cards.Rows.{StoreError, CardCodec, CardDb, Decision, VersionId}
use code_sementic_memory.Cards.Versions.{record_decision}
use code_sementic_memory.Cards.Frame.{
  SameCards, SameCards-trans, evidence_loop-SameCards, write_link-SameCards,
}
use code_sementic_memory.Consolidation.Rows.{Action, ConsolidationDb, ConsolidationError, Item}
use code_sementic_memory.Consolidation.Actions.{Merged, raised}
use code_sementic_memory.Consolidation.Audited.{Audited, Demoted, Demoted-refl, quiet}

pub SameCards-Audited :
    (db db' : ConsolidationDb)
    → db'.lifecycle ≡ db.lifecycle
    → SameCards db.tables db'.tables
    → Audited db db'
SameCards-Audited db db' same s = quiet db db' same (
    subst (Kept has_card (Demoted []) db.tables.cards) (sym s.cards)
      (Kept-refl has_card (Demoted []) (Demoted-refl []) db.tables.cards))

pub add_evidence-SameCards :
    (now : ℕ) (v : VersionId) (candidate : String) (xs : List String) (relation : String)
    (db : CardDb)
    → SameCards db (add_evidence now v candidate xs relation db)
unfolding add_evidence
add_evidence-SameCards now v candidate xs relation db =
    SameCards-trans db _ _
      (evidence_loop-SameCards now v candidate relation 0 (event_keys [] xs) db)
      (write_link-SameCards _ (evidence_loop now v candidate relation 0 (event_keys [] xs) db))

pub record_decision-SameCards :
    (c : CardCodec) (d : Decision) (db : CardDb) → SameCards db (record_decision c d db).1
unfolding record_decision
record_decision-SameCards c d db = record { cards = refl; versions = refl }

pub ok-state :
    (x : Item × ConsolidationDb) (item : Item) (db : ConsolidationDb)
    → let r : Result ConsolidationError (Item × ConsolidationDb) = ok x in
      (r ≡ ok (item, db)) → x.1 ≡ db
ok-state x item db h = ground (arith, h)

pub merged-state :
    (x : Merged) (r : VersionId × Action × String) (db : ConsolidationDb)
    → let m : Result ConsolidationError Merged = ok x in (m ≡ ok (r.0, r.1, r.2, db)) → x.3 ≡ db
merged-state x r db h = ground (arith, h)

pub raised-ok {ℓ} : {A : Type ℓ} (x : Result StoreError A) (a : A) → raised x ≡ ok a → x ≡ ok a
raised-ok (ok b) a h = ground (arith, h)
raised-ok (err e) a h = ground (arith, h)

pub same_status_refl : (s : CardStatus) → same_status s s ≡ true
same_status_refl proposed = refl
same_status_refl CardStatus.verified = refl
same_status_refl CardStatus.stable = refl
same_status_refl uncertain = refl
same_status_refl CardStatus.stale = refl
same_status_refl CardStatus.superseded = refl
same_status_refl CardStatus.rejected = refl
