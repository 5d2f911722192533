-- ===== src/Governance/Ledger/Effects.antt =====
-- What `renew` and `deactivate` do to the rows of the ledger.
use aiquant_trader.Prelude.{
  ℕ, ◌<◌, ◌≡◌, refl, sym, ◌∙◌, true, false, Option, none, some, [], ◌∷◌, ◌++◌, arith,
}
use mathlib.Core.Path.{subst}
use aiquant_trader.Governance.Models.{
  Instant, Note, is_production, VerifiedDeploymentRenewal, AdmissionState, is_active_state,
  AdmissionRecord, given,
}
use aiquant_trader.Governance.Ledger.Tables.{
  ok, Ledger, validate_transition_input, load, find_deployment, update_record, renewal_used,
  set_state,
}
use aiquant_trader.Governance.Ledger.Renew.{
  renewal_checks, renewed, renew_row, renew, is_operator_target, deactivate_row, deactivate,
}
use aiquant_trader.Governance.Ledger.Rows.{Evolves, find_deployment-id, find_deployment-update}
use aiquant_trader.Governance.Ledger.Invariant.{Change, updated}
use aiquant_trader.Governance.Ledger.Changes.{Evolves-set_state}

-- The checks that a renewal passed.
pub record IsRenewable (v : VerifiedDeploymentRenewal) (now : ℕ) (r : AdmissionRecord) (l : Ledger)
    : Type 0 where
  pub was_active : is_active_state r.state ≡ true
  pub production : is_production r.stage ≡ true
  pub unexpired : now < r.expires_at
  pub admission : v.renewal.admission_id ≡ r.admission_id
  pub initial : v.renewal.initial_approval_id ≡ r.approval_id
  pub chain : v.renewal.prior_authorization_id ≡ r.authorization_id
  pub account : v.renewal.account_address ≡ r.account_address
  pub artifact : v.renewal.artifact_manifest_sha256 ≡ r.artifact_manifest_sha256
  pub configuration : v.renewal.configuration_sha256 ≡ r.configuration_sha256
  pub image : v.renewal.image_digest ≡ r.image_digest
  pub capital : v.renewal.capital_limit_usd ≡ r.capital_limit_usd
  pub extends : r.expires_at < v.renewal.expires_at
  pub unused : renewal_used v.authorization_id l.renewals ≡ false

renewal_checks-ok :
    (v : VerifiedDeploymentRenewal) (now : ℕ) (r : AdmissionRecord) (l : Ledger)
    → renewal_checks v now r l.renewals ≡ ok tt
    → IsRenewable v now r l
unfolding renewal_checks
renewal_checks-ok v now r l h = record {
  was_active = ground arith;
  production = ground arith;
  unexpired = ground arith;
  admission = ground arith;
  initial = ground arith;
  chain = ground arith;
  account = ground arith;
  artifact = ground arith;
  configuration = ground arith;
  image = ground arith;
  capital = ground arith;
  extends = ground arith;
  unused = ground arith;
}

renew_row-ok :
    (v : VerifiedDeploymentRenewal) (actor reason : Note) (now : ℕ) (row r : AdmissionRecord)
    (l l' : Ledger)
    → renew_row v actor reason now (some row) l ≡ ok (r, l')
    → (renewal_checks v now row l.renewals ≡ ok tt)
      × (r ≡ renewed v actor reason row)
      × (l'.admissions ≡ update_record r l.admissions)
      × (l'.renewals ≡ l.renewals ++ v ∷ [])
unfolding renew_row load
renew_row-ok v actor reason now row r l l' h =
    (ground arith, ground arith, ground arith, ground arith)

renew-branch :
    (v : VerifiedDeploymentRenewal) (actor reason : Note) (now : Instant) (r : AdmissionRecord)
    (l l' : Ledger)
    → renew v actor reason now l ≡ ok (r, l')
    → renew_row v actor reason now.at (find_deployment v.renewal.deployment_id l.admissions) l
      ≡ ok (r, l')
unfolding renew validate_transition_input
renew-branch v actor reason now r l l' h = ground arith

Evolves-renewed :
    (v : VerifiedDeploymentRenewal) (actor reason : Note) (now : ℕ) (r : AdmissionRecord)
    (l : Ledger)
    → IsRenewable v now r l
    → Evolves r (renewed v actor reason r)
Evolves-renewed v actor reason now r l c = record {
  deployment = refl;
  approval = refl;
  admission = refl;
  key = refl;
  stage = refl;
  account = refl;
  vault = refl;
  artifact = refl;
  configuration = refl;
  image = refl;
  capital = refl;
  admitted = refl;
  expiry = omega (arith, c.extends);
  renewals = omega arith;
  final = λ h. absurd (clash (sym c.was_active ∙ h));
}
  where
    clash : true ≡ false → ⊥
    clash q = cc

-- A successful `renew`: its row, the checks that it passed, and the tables that it leaves.
pub renew-ok :
    (v : VerifiedDeploymentRenewal) (actor reason : Note) (now : Instant) (r : AdmissionRecord)
    (l l' : Ledger)
    → renew v actor reason now l ≡ ok (r, l')
    → (row : AdmissionRecord) × (find_deployment v.renewal.deployment_id l.admissions ≡ some row)
      × IsRenewable v now.at row l
      × (r ≡ renewed v actor reason row)
      × (l'.admissions ≡ update_record r l.admissions)
      × (l'.renewals ≡ l.renewals ++ v ∷ [])
renew-ok v actor reason now r l l' h =
    by_row (find_deployment v.renewal.deployment_id l.admissions) refl
      (renew-branch v actor reason now r l l' h)
  where
    by_row :
        (o : Option AdmissionRecord)
        → find_deployment v.renewal.deployment_id l.admissions ≡ o
        → renew_row v actor reason now.at o l ≡ ok (r, l')
        → (row : AdmissionRecord) × (o ≡ some row)
          × IsRenewable v now.at row l
          × (r ≡ renewed v actor reason row)
          × (l'.admissions ≡ update_record r l.admissions)
          × (l'.renewals ≡ l.renewals ++ v ∷ [])
    by_row none e q = unfold renew_row in ground arith
    by_row (some row) e q =
        let (checks, new, rows, used) = renew_row-ok v actor reason now.at row r l l' q in
        (row, refl, renewal_checks-ok v now.at row l checks, new, rows, used)

pub renew-Change :
    (v : VerifiedDeploymentRenewal) (actor reason : Note) (now : Instant) (r : AdmissionRecord)
    (l l' : Ledger)
    → renew v actor reason now l ≡ ok (r, l')
    → Change l.admissions l'.admissions
renew-Change v actor reason now r l l' h =
    let (row, found, checks, new, rows, _) = renew-ok v actor reason now r l l' h in
    updated row r
      (subst (λ d. find_deployment d l.admissions ≡ some row)
        (sym (find_deployment-id _ row l.admissions found)) found)
      checks.was_active
      (subst (Evolves row) (sym new) (Evolves-renewed v actor reason now.at row l checks)) rows

-- A successful `deactivate`.
pub deactivate-ok :
    (d : ℕ) (target : AdmissionState) (actor reason : Note) (now : Instant) (r : AdmissionRecord)
    (l l' : Ledger)
    → deactivate d target actor reason now l ≡ ok (r, l')
    → (row : AdmissionRecord) × (find_deployment d l.admissions ≡ some row)
      × (is_active_state row.state ≡ true)
      × (is_operator_target target ≡ true)
      × (r ≡ set_state target actor (given reason) row)
      × (l'.admissions ≡ update_record r l.admissions)
deactivate-ok d target actor reason now r l l' h =
    by_row (find_deployment d l.admissions) refl
      (unfold deactivate validate_transition_input in ground arith)
  where
    by_row :
        (o : Option AdmissionRecord)
        → find_deployment d l.admissions ≡ o
        → (deactivate_row target actor reason o l ≡ ok (r, l')) × (is_operator_target target ≡ true)
        → (row : AdmissionRecord) × (o ≡ some row)
          × (is_active_state row.state ≡ true)
          × (is_operator_target target ≡ true)
          × (r ≡ set_state target actor (given reason) row)
          × (l'.admissions ≡ update_record r l.admissions)
    by_row none e (q, t) = unfold deactivate_row in ground arith
    by_row (some row) e (q, t) =
        unfold deactivate_row load in (row, refl, ground arith, t, ground arith, ground arith)

pub deactivate-Change :
    (d : ℕ) (target : AdmissionState) (actor reason : Note) (now : Instant) (r : AdmissionRecord)
    (l l' : Ledger)
    → deactivate d target actor reason now l ≡ ok (r, l')
    → Change l.admissions l'.admissions
deactivate-Change d target actor reason now r l l' h =
    let (row, found, was, _, new, rows) = deactivate-ok d target actor reason now r l l' h in
    updated row r
      (subst (λ k. find_deployment k l.admissions ≡ some row)
        (sym (find_deployment-id _ row l.admissions found)) found)
      was (subst (Evolves row) (sym new) (Evolves-set_state target actor row _ was)) rows

-- A successful renewal was of an active, unexpired production record at the head of its chain of
-- authorizations, and it moves exactly the authorization, the count and the expiry, which grows.
pub renew-extends :
    (v : VerifiedDeploymentRenewal) (actor reason : Note) (now : Instant) (r : AdmissionRecord)
    (l l' : Ledger)
    → renew v actor reason now l ≡ ok (r, l')
    → (row : AdmissionRecord) × (find_deployment v.renewal.deployment_id l.admissions ≡ some row)
      × (is_active_state row.state ≡ true)
      × (is_production row.stage ≡ true)
      × (now.at < row.expires_at)
      × (v.renewal.prior_authorization_id ≡ row.authorization_id)
      × (v.renewal.capital_limit_usd ≡ row.capital_limit_usd)
      × (row.expires_at < r.expires_at)
      × (r ≡ renewed v actor reason row)
      × (find_deployment v.renewal.deployment_id l'.admissions ≡ some r)
renew-extends v actor reason now r l l' h =
    let (row, found, checks, new, rows, used) = renew-ok v actor reason now r l l' h in
    let same : r.deployment_id ≡ v.renewal.deployment_id =
      rw new (find_deployment-id _ row l.admissions found) in
    (
      row,
      found,
      checks.was_active,
      checks.production,
      checks.unexpired,
      checks.chain,
      checks.capital,
      subst (λ (x : AdmissionRecord). row.expires_at < x.expires_at) (sym new) checks.extends,
      new,
      rw (rows, find_deployment-update v.renewal.deployment_id r l.admissions, found)
          (ground (arith, same)),
    )
