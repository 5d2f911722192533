-- ===== src/Governance/Ledger/Changes.antt =====
-- What `admit` does to the rows of the ledger.
use aiquant_trader.Prelude.{ℕ, ◌≡◌, refl, sym, ◌∙◌, true, false, Option, none, some, List, arith}
use aiquant_trader.Governance.Models.{
  Instant, Note, is_production, VerifiedDeploymentAdmission, VerifiedDeploymentRenewal,
  AdmissionState, active, superseded, is_active_state, AdmissionRecord, superseded_by, given,
}
use aiquant_trader.Governance.Ledger.Tables.{
  Result, ok, err, ◌>>=◌, Ledger, validate_transition_input, load, find_consumed, active_row,
  set_state,
}
use aiquant_trader.Governance.Ledger.Admit.{
  new_record, insert_admission, supersede_canary, readmit, admit_new, admit,
}
use aiquant_trader.Governance.Ledger.Rows.{Evolves, active_row-found}
use aiquant_trader.Governance.Ledger.Invariant.{IsSound, Change, unchanged, inserted, updated}

pub bind-inverse :
    {X Y : Type 0} {y : Y} (next : X → Result Y) (first : Result X)
    → (first >>= next) ≡ ok y
    → (x : X) × (first ≡ ok x) × (next x ≡ ok y)
bind-inverse next (err e) h = absurd (never h)
  where
    never : {Y : Type 0} {y : Y} → err e ≡ ok y → ⊥
    never q = cc
bind-inverse next (ok x) h = (x, refl, h)

-- A call makes at most two changes.
pub record Changes (rs ts : List AdmissionRecord) : Type 0 where
  pub middle : List AdmissionRecord
  pub first : Change rs middle
  pub second : Change middle ts

load-ok : (row r : AdmissionRecord) → load row ≡ ok r → row ≡ r
unfolding load
load-ok row r h = ground arith

pub Evolves-set_state :
    (s : AdmissionState) (actor : Note) (r : AdmissionRecord)
    (reason : aiquant_trader.Governance.Models.Reason)
    → is_active_state r.state ≡ true
    → Evolves r (set_state s actor reason r)
Evolves-set_state s actor r reason was = record {
  deployment = refl;
  approval = refl;
  admission = refl;
  key = refl;
  stage = refl;
  account = refl;
  vault = refl;
  artifact = refl;
  configuration = refl;
  image = refl;
  capital = refl;
  admitted = refl;
  expiry = omega arith;
  renewals = omega arith;
  final = λ h. absurd (clash (sym was ∙ h));
}
  where
    clash : true ≡ false → ⊥
    clash q = cc

supersede_canary-Change :
    (v : VerifiedDeploymentAdmission) (actor reason : Note) (o : Option AdmissionRecord)
    (l l' : Ledger)
    → IsSound l.admissions
    → active_row v.approval.account_address v.approval.vault_address l.admissions ≡ o
    → supersede_canary v actor reason o l ≡ ok l'
    → Change l.admissions l'.admissions
unfolding supersede_canary load
supersede_canary-Change v actor reason none l l' s o h = unchanged (ground arith)
supersede_canary-Change v actor reason (some row) l l' s o h =
    let (found, was) =
      active_row-found v.approval.account_address v.approval.vault_address row l.admissions s.unique
        o in
    let u =
      set_state superseded actor
        (superseded_by v.approval.deployment_id v.approval.deployment_id_size reason) row in
    updated row u found was (Evolves-set_state superseded actor row _ was) (ground arith)

insert_admission-Change :
    (n r : AdmissionRecord) (l l' : Ledger)
    → insert_admission n l ≡ ok (r, l')
    → Change l.admissions l'.admissions
unfolding insert_admission
insert_admission-Change n r l l' h = inserted n (ground arith) (ground arith)

readmit-Change :
    (v : VerifiedDeploymentAdmission) (row r : AdmissionRecord) (l l' : Ledger)
    → readmit v row l ≡ ok (r, l')
    → Change l.admissions l'.admissions
unfolding readmit load
readmit-Change v row r l l' h = unchanged (ground arith)

admit_new-Changes :
    (v : VerifiedDeploymentAdmission) (actor reason : Note) (now : ℕ) (r : AdmissionRecord)
    (l l' : Ledger)
    → IsSound l.admissions
    → admit_new v actor reason now l ≡ ok (r, l')
    → Changes l.admissions l'.admissions
unfolding admit_new
admit_new-Changes v actor reason now r l l' s h =
    let (cleared, before, after) =
      bind-inverse (insert_admission (new_record v actor reason now)) _ h in
    record {
      middle = cleared.admissions;
      first = supersede_canary-Change v actor reason _ l cleared s refl before;
      second = insert_admission-Change (new_record v actor reason now) r cleared l' after;
    }

some_injective : {x y : AdmissionRecord} → some x ≡ some y → x ≡ y
some_injective q = cc

pub admit-branch :
    (v : VerifiedDeploymentAdmission) (actor reason : Note) (now : Instant) (r : AdmissionRecord)
    (l l' : Ledger)
    → admit v actor reason now l ≡ ok (r, l')
    → (elim (find_consumed v.approval.approval_id v.approval.deployment_id l.admissions) [
      | some row ↦ readmit v row l
      | none ↦ admit_new v actor reason now.at l
    ])
      ≡ ok (r, l')
unfolding admit validate_transition_input
admit-branch v actor reason now r l l' h = ground arith

pub admit-Changes :
    (v : VerifiedDeploymentAdmission) (actor reason : Note) (now : Instant) (r : AdmissionRecord)
    (l l' : Ledger)
    → IsSound l.admissions
    → admit v actor reason now l ≡ ok (r, l')
    → Changes l.admissions l'.admissions
admit-Changes v actor reason now r l l' s h =
    by_identity (find_consumed v.approval.approval_id v.approval.deployment_id l.admissions)
      (admit-branch v actor reason now r l l' h)
  where
    by_identity :
        (o : Option AdmissionRecord)
        → (elim o [ some row ↦ readmit v row l | none ↦ admit_new v actor reason now.at l ])
          ≡ ok (r, l')
        → Changes l.admissions l'.admissions
    by_identity (some row) q = record {
      middle = l.admissions;
      first = unchanged refl;
      second = readmit-Change v row r l l' q;
    }
    by_identity none q = admit_new-Changes v actor reason now.at r l l' s q
