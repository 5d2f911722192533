-- ===== src/Governance/Ledger/Admit.antt =====
-- `DeploymentAdmissionLedger.admit`.
use aiquant_trader.Prelude.{
  ℕ, not, ◌&&◌, ◌||◌, Option, none, some, [], ◌∷◌, ◌++◌, ◌==◌, if◌then◌else◌, eq_option,
}
use aiquant_trader.Governance.Models.{
  is_production, Instant, Note, is_active, VerifiedDeploymentAdmission, active, superseded,
  is_active_state, given, superseded_by, AdmissionRecord, validate_record,
}
use aiquant_trader.Governance.Ledger.Tables.{
  Result, ok, err, ◌>>=◌, ◌>>◌, raise_if, read_only, inactive_approval, consumed, account_owned,
  no_predecessor, wrong_predecessor, unreadable, integrity, Ledger, validate_transition_input, load,
  find_consumed, active_row, update_record, insert_conflicts, set_state, log_transition,
}

-- The record of a new admission, as `admit` builds it.
unfoldable pub new_record : VerifiedDeploymentAdmission → Note → Note → ℕ → AdmissionRecord
new_record v actor reason now = record {
  deployment_id = v.approval.deployment_id;
  approval_id = v.approval.approval_id;
  admission_id = v.admission_id;
  authorization_id = v.admission_id;
  renewal_count = 0;
  approval_public_key_sha256 = some v.public_key_sha256;
  stage = v.approval.stage;
  account_address = v.approval.account_address;
  vault_address = v.approval.vault_address;
  artifact_manifest_sha256 = v.approval.artifact_manifest_sha256;
  configuration_sha256 = v.approval.configuration_sha256;
  image_digest = v.approval.image_digest;
  capital_limit_usd = v.approval.capital_limit_usd;
  admitted_at = now;
  expires_at = v.approval.expires_at;
  state = active;
  actor = actor;
  reason = given reason;
}

-- The INSERT of `admit`, with the constraints of the table, and its transition.
unfoldable pub insert_admission : AdmissionRecord → Ledger → Result (AdmissionRecord × Ledger)
insert_admission n l = do
  raise_if (not (validate_record n)) unreadable
  raise_if (insert_conflicts n l.admissions) integrity
  ok (n, log_transition n none (record l { admissions = l.admissions ++ n ∷ [] }))

-- The branch of `admit` on the active deployment of the account: a canary needs that there is none,
-- a production deployment supersedes its canary.
unfoldable pub supersede_canary :
    VerifiedDeploymentAdmission → Note → Note → Option AdmissionRecord → Ledger → Result Ledger
unfolding load
supersede_canary v actor reason none l =
    if is_production v.approval.stage then err no_predecessor else ok l
supersede_canary v actor reason (some row) l =
    if not (is_production v.approval.stage) then err account_owned else do
      predecessor ← load row
      raise_if
          (is_production predecessor.stage
            || not (eq_option (some predecessor.approval_id) v.approval.prior_approval_id)
            || not (predecessor.deployment_id == v.approval.rollback_deployment_id))
          wrong_predecessor
      let u =
          set_state superseded actor
            (superseded_by v.approval.deployment_id v.approval.deployment_id_size reason)
            predecessor
      ok (log_transition u (some active) (record l { admissions = update_record u l.admissions }))

-- An identity that is already in the ledger: the same active admission is answered once more.
unfoldable pub readmit :
    VerifiedDeploymentAdmission → AdmissionRecord → Ledger → Result (AdmissionRecord × Ledger)
unfolding load
readmit v row l = do
  r ← load row
  if r.admission_id == v.admission_id && is_active_state r.state then ok (r, l) else err consumed

-- A new identity.
unfoldable pub admit_new :
    VerifiedDeploymentAdmission → Note → Note → ℕ → Ledger → Result (AdmissionRecord × Ledger)
unfolding supersede_canary insert_admission new_record
admit_new v actor reason now l = do
  cleared ←
      supersede_canary v actor reason
        (active_row v.approval.account_address v.approval.vault_address l.admissions) l
  insert_admission (new_record v actor reason now) cleared

unfoldable pub admit :
    VerifiedDeploymentAdmission → Note → Note → Instant → Ledger → Result (AdmissionRecord × Ledger)
unfolding validate_transition_input readmit admit_new
admit v actor reason now l = do
  raise_if (not l.writable) read_only
  validate_transition_input actor reason now
  raise_if (not (is_active v.approval.approved_at v.approval.expires_at now.at)) inactive_approval
  elim (find_consumed v.approval.approval_id v.approval.deployment_id l.admissions) [
    | some row ↦ readmit v row l
    | none ↦ admit_new v actor reason now.at l
  ]
