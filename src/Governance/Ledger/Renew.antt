-- ===== src/Governance/Ledger/Renew.antt =====
-- `DeploymentAdmissionLedger.renew` and `deactivate`.
use aiquant_trader.Prelude.{
  ℕ, ◌+◌, Bool, true, false, not, Option, none, some, List, [], ◌∷◌, ◌++◌, ltb, leb, ◌==◌,
  eq_option,
}
use aiquant_trader.Governance.Models.{
  is_production, Instant, Note, is_active, VerifiedDeploymentAdmission, VerifiedDeploymentRenewal,
  AdmissionState, rolled_back, revoked, is_active_state, given, AdmissionRecord,
}
use aiquant_trader.Governance.Ledger.Tables.{
  Result, ok, err, ◌>>=◌, ◌>>◌, raise_if, read_only, inactive_approval, not_registered, not_active,
  not_production, expired, identity_changed, chain_stale, field_changed, not_extended, predates,
  renewal_consumed, bad_target, integrity, Ledger, validate_transition_input, load, find_deployment,
  update_record, authorization_taken, renewal_used, renewal_id_used, set_state, log_transition,
}
use aiquant_trader.Governance.Ledger.Admit.{admit}

-- The checks of `renew` against the current record, in their order.
unfoldable pub renewal_checks :
    VerifiedDeploymentRenewal
    → ℕ
    → AdmissionRecord
    → List VerifiedDeploymentRenewal
    → Result (Unit {0})
renewal_checks v now current used = do
  raise_if (not (is_active_state current.state)) not_active
  raise_if (not (is_production current.stage)) not_production
  raise_if (leb current.expires_at now) expired
  raise_if (not (v.renewal.admission_id == current.admission_id)) identity_changed
  raise_if (not (v.renewal.initial_approval_id == current.approval_id)) identity_changed
  raise_if (not (v.renewal.prior_authorization_id == current.authorization_id)) chain_stale
  raise_if (not (v.renewal.account_address == current.account_address)) field_changed
  raise_if (not (eq_option v.renewal.vault_address current.vault_address)) field_changed
  raise_if (not (v.renewal.artifact_manifest_sha256 == current.artifact_manifest_sha256))
      field_changed
  raise_if (not (eq_option (some v.public_key_sha256) current.approval_public_key_sha256))
      field_changed
  raise_if (not (v.renewal.configuration_sha256 == current.configuration_sha256)) field_changed
  raise_if (not (v.renewal.image_digest == current.image_digest)) field_changed
  raise_if (not (v.renewal.capital_limit_usd == current.capital_limit_usd)) field_changed
  raise_if (leb v.renewal.expires_at current.expires_at) not_extended
  raise_if (ltb v.renewal.approved_at current.admitted_at) predates
  raise_if (renewal_used v.authorization_id used) renewal_consumed

abbrev pub renewed : VerifiedDeploymentRenewal → Note → Note → AdmissionRecord → AdmissionRecord
renewed v actor reason r = record r {
  authorization_id = v.authorization_id;
  renewal_count = r.renewal_count + 1;
  expires_at = v.renewal.expires_at;
  actor = actor;
  reason = given reason;
}

-- The transaction of `renew`, once the row is found.
unfoldable pub renew_row :
    VerifiedDeploymentRenewal
    → Note
    → Note
    → ℕ
    → Option AdmissionRecord
    → Ledger
    → Result (AdmissionRecord × Ledger)
unfolding load renewal_checks
renew_row v actor reason now none l = err not_registered
renew_row v actor reason now (some row) l = do
  current ← load row
  renewal_checks v now current l.renewals
  raise_if (renewal_id_used v.renewal.renewal_id l.renewals) integrity
  raise_if (authorization_taken v.authorization_id current.deployment_id l.admissions) integrity
  let u = renewed v actor reason current
  ok (
    u,
    log_transition u (some current.state)
        (record l { admissions = update_record u l.admissions; renewals = l.renewals ++ v ∷ [] }),
  )

unfoldable pub renew :
    VerifiedDeploymentRenewal → Note → Note → Instant → Ledger → Result (AdmissionRecord × Ledger)
unfolding validate_transition_input renew_row
renew v actor reason now l = do
  raise_if (not l.writable) read_only
  validate_transition_input actor reason now
  raise_if (not (is_active v.renewal.approved_at v.renewal.expires_at now.at)) inactive_approval
  renew_row v actor reason now.at (find_deployment v.renewal.deployment_id l.admissions) l

abbrev pub is_operator_target : AdmissionState → Bool
is_operator_target rolled_back = true
is_operator_target revoked = true
is_operator_target _ = false

unfoldable pub deactivate_row :
    AdmissionState
    → Note
    → Note
    → Option AdmissionRecord
    → Ledger
    → Result (AdmissionRecord × Ledger)
unfolding load
deactivate_row target actor reason none l = err not_registered
deactivate_row target actor reason (some row) l = do
  current ← load row
  raise_if (not (is_active_state current.state)) not_active
  let u = set_state target actor (given reason) current
  ok (
    u,
    log_transition u (some current.state) (record l { admissions = update_record u l.admissions }),
  )

unfoldable pub deactivate :
    ℕ → AdmissionState → Note → Note → Instant → Ledger → Result (AdmissionRecord × Ledger)
unfolding validate_transition_input deactivate_row
deactivate deployment target actor reason now l = do
  raise_if (not l.writable) read_only
  raise_if (not (is_operator_target target)) bad_target
  validate_transition_input actor reason now
  deactivate_row target actor reason (find_deployment deployment l.admissions) l

-- A call of the ledger that writes.
pub data Command : Type 0 where
  admission : VerifiedDeploymentAdmission → Note → Note → Instant → Command
  renewal : VerifiedDeploymentRenewal → Note → Note → Instant → Command
  deactivation : ℕ → AdmissionState → Note → Note → Instant → Command

unfoldable pub execute : Command → Ledger → Result (AdmissionRecord × Ledger)
execute (admission v actor reason now) l = admit v actor reason now l
execute (renewal v actor reason now) l = renew v actor reason now l
execute (deactivation d target actor reason now) l = deactivate d target actor reason now l

-- What is left of the ledger: the new tables, or, after the rollback, the old ones.
abbrev pub settled : Ledger → Result (AdmissionRecord × Ledger) → Ledger
settled l (ok (r, l')) = l'
settled l (err e) = l

unfoldable pub run : List Command → Ledger → Ledger
run [] l = l
run (c ∷ cs) l = run cs (settled l (execute c l))
