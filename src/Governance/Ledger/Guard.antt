-- ===== src/Governance/Ledger/Guard.antt =====
-- `require_active`, `active` and `get` of the ledger, and `DeploymentAdmissionGuard`.
use aiquant_trader.Prelude.{◌≡◌, ◌<◌, arith, true, ℕ, not, ◌||◌, Option, none, some, leb, ◌==◌}
use aiquant_trader.Governance.Models.{
  Instant, VerifiedDeploymentAdmission, is_active_state, AdmissionRecord,
}
use aiquant_trader.Governance.Ledger.Tables.{
  Result, ok, err, ◌>>=◌, ◌>>◌, raise_if, transition_input, not_registered, mismatched, Ledger,
  load, find_deployment,
}

-- The part of `require_active` behind the lookup.
unfoldable pub check_active :
    VerifiedDeploymentAdmission → ℕ → Option AdmissionRecord → Result AdmissionRecord
unfolding load
check_active v now none = err not_registered
check_active v now (some row) = do
  r ← load row
  raise_if
      (not (is_active_state r.state)
        || not (r.admission_id == v.admission_id)
        || not (r.approval_id == v.approval.approval_id)
        || leb r.expires_at now)
      mismatched
  ok r

unfoldable pub require_active :
    VerifiedDeploymentAdmission → Instant → Ledger → Result AdmissionRecord
unfolding check_active
require_active v now l = do
  raise_if (not now.aware) transition_input
  check_active v now.at (find_deployment v.approval.deployment_id l.admissions)

abbrev pub load_found : Option AdmissionRecord → Result (Option AdmissionRecord)
load_found none = ok none
load_found (some row) = do r ← load row; ok (some r)

unfoldable pub get : ℕ → Ledger → Result (Option AdmissionRecord)
unfolding load
get deployment l = load_found (find_deployment deployment l.admissions)

-- `DeploymentAdmissionGuard.active_record`
abbrev pub or_none : Result AdmissionRecord → Option AdmissionRecord
or_none (ok r) = some r
or_none (err e) = none

unfoldable pub active_record :
    VerifiedDeploymentAdmission → Instant → Ledger → Option AdmissionRecord
unfolding require_active
active_record v now l = or_none (require_active v now l)

abbrev pub expiry_or : ℕ → Result (Option AdmissionRecord) → ℕ
expiry_or fallback (ok (some r)) = r.expires_at
expiry_or fallback (ok none) = fallback
expiry_or fallback (err e) = fallback

-- `DeploymentAdmissionGuard.expires_at`
unfoldable pub expires_at : VerifiedDeploymentAdmission → Ledger → ℕ
unfolding get
expires_at v l = expiry_or v.approval.expires_at (get v.approval.deployment_id l)

-- The guard finds a record only if it is the record of the deployment, it is active, it is the one
-- of this admission and this approval, and it has not expired.
pub active_record-checks :
    (v : VerifiedDeploymentAdmission) (now : Instant) (r : AdmissionRecord) (l : Ledger)
    → active_record v now l ≡ some r
    → (find_deployment v.approval.deployment_id l.admissions ≡ some r)
      × (is_active_state r.state ≡ true)
      × (r.admission_id ≡ v.admission_id)
      × (r.approval_id ≡ v.approval.approval_id)
      × (now.at < r.expires_at)
active_record-checks v now r l h =
    by_row (find_deployment v.approval.deployment_id l.admissions)
      (unfold active_record require_active in ground arith)
  where
    by_row :
        (o : Option AdmissionRecord)
        → or_none (check_active v now.at o) ≡ some r
        → (o ≡ some r)
          × (is_active_state r.state ≡ true)
          × (r.admission_id ≡ v.admission_id)
          × (r.approval_id ≡ v.approval.approval_id)
          × (now.at < r.expires_at)
    by_row none q = unfold check_active in ground arith
    by_row (some row) q =
        unfold check_active load in
        (ground arith, ground arith, ground arith, ground arith, ground arith)
