-- ===== src/Governance/Ledger/Tests.antt =====
-- The admission ledger at concrete inputs: a canary, its successor in production, a renewal of it and
-- its rollback.
use aiquant_trader.Prelude.{ℕ, ◌≡◌, ◌≢◌, ◌<◌, refl, true, false, none, some, List, [], ◌∷◌, map}
use aiquant_trader.Governance.Models.{
  approved_canary, production, Instant, Note, is_active, VerifiedDeploymentAdmission,
  VerifiedDeploymentRenewal, active, superseded, rolled_back, is_active_state, AdmissionRecord,
  validate_record,
}
use aiquant_trader.Governance.Ledger.Tables.{
  Result, ok, err, Ledger, validate_transition_input, load, find_consumed, find_deployment,
  active_row, update_record, insert_conflicts, authorization_taken, renewal_used, renewal_id_used,
}
use aiquant_trader.Governance.Ledger.Admit.{
  admit, admit_new, readmit, supersede_canary, insert_admission, new_record,
}
use aiquant_trader.Governance.Ledger.Renew.{
  renew, renew_row, renewal_checks, deactivate, deactivate_row, Command, admission, deactivation,
  execute, run,
}
use aiquant_trader.Governance.Ledger.Guard.{
  check_active, require_active, active_record, active_record-checks,
}
use aiquant_trader.Governance.Ledger.Invariant.{IsSound, Succeeds}
use aiquant_trader.Governance.Ledger.History.{run-IsSound, run-Succeeds, deactivate-blocks}
use aiquant_trader.Governance.Ledger.Replay.{admit-once, renew-once}

abbrev operator : Note
operator = record { text = 1; blank = false; size = 8 }

abbrev at_time : ℕ → Instant
at_time t = record { aware = true; at = t }

abbrev canary : VerifiedDeploymentAdmission
canary = record {
  admission_id = 11;
  approval = record {
    approval_id = 10;
    deployment_id = 1;
    deployment_id_size = 8;
    stage = approved_canary;
    account_address = 5;
    vault_address = none;
    artifact_manifest_sha256 = 6;
    configuration_sha256 = 7;
    image_digest = 8;
    capital_limit_usd = 25;
    rollback_deployment_id = 0;
    prior_approval_id = none;
    approved_at = 100;
    expires_at = 200;
  };
  public_key_sha256 = 9;
}

abbrev successor : VerifiedDeploymentAdmission
successor = record {
  admission_id = 21;
  approval = record {
    approval_id = 20;
    deployment_id = 2;
    deployment_id_size = 8;
    stage = production;
    account_address = 5;
    vault_address = none;
    artifact_manifest_sha256 = 6;
    configuration_sha256 = 7;
    image_digest = 8;
    capital_limit_usd = 250;
    rollback_deployment_id = 1;
    prior_approval_id = some 10;
    approved_at = 150;
    expires_at = 300;
  };
  public_key_sha256 = 9;
}

abbrev extension : VerifiedDeploymentRenewal
extension = record {
  authorization_id = 31;
  renewal = record {
    renewal_id = 30;
    deployment_id = 2;
    initial_approval_id = 20;
    admission_id = 21;
    prior_authorization_id = 21;
    account_address = 5;
    vault_address = none;
    artifact_manifest_sha256 = 6;
    configuration_sha256 = 7;
    image_digest = 8;
    capital_limit_usd = 250;
    approved_at = 250;
    expires_at = 400;
  };
  public_key_sha256 = 9;
}

abbrev empty_ledger : Ledger
empty_ledger = record { writable = true; admissions = []; transitions = []; renewals = [] }

-- A canary, its successor in production, and the canary's token once more.
abbrev commands : List Command
commands =
    admission canary operator operator (at_time 110)
    ∷ admission successor operator operator (at_time 160)
    ∷ admission canary operator operator (at_time 170)
    ∷ []

abbrev ledger : Ledger
ledger = run commands empty_ledger

empty_ledger-IsSound : IsSound empty_ledger.admissions
empty_ledger-IsSound = record { unique = tt; single = tt }

final_states : map (λ (r : AdmissionRecord). r.state) ledger.admissions ≡ superseded ∷ active ∷ []
unfolding run execute admit admit_new supersede_canary insert_admission new_record readmit is_active
    validate_transition_input validate_record load find_consumed active_row update_record
    insert_conflicts
final_states = refl

run-IsSound_example : IsSound ledger.admissions
run-IsSound_example = run-IsSound commands empty_ledger empty_ledger-IsSound

run-Succeeds_example :
    Succeeds ledger.admissions
      (run (deactivation 2 rolled_back operator operator (at_time 180) ∷ []) ledger).admissions
run-Succeeds_example =
    run-Succeeds (deactivation 2 rolled_back operator operator (at_time 180) ∷ []) ledger
      run-IsSound_example

-- The value of a call that succeeds.
abbrev outcome :
    AdmissionRecord × Ledger → Result (AdmissionRecord × Ledger) → AdmissionRecord × Ledger
outcome d (ok x) = x
outcome d (err e) = d

abbrev nothing_yet : AdmissionRecord × Ledger
nothing_yet = (new_record successor operator operator 160, empty_ledger)

abbrev deactivated : AdmissionRecord × Ledger
deactivated = outcome nothing_yet (deactivate 2 rolled_back operator operator (at_time 180) ledger)

deactivated-ok :
    deactivate 2 rolled_back operator operator (at_time 180) ledger
    ≡ ok (deactivated.0, deactivated.1)
unfolding run execute admit admit_new supersede_canary insert_admission new_record readmit is_active
    validate_transition_input validate_record load find_consumed active_row update_record
    insert_conflicts deactivate deactivate_row find_deployment
deactivated-ok = refl

deactivate-blocks_example :
    active_record successor
      (at_time 190)
      (run (admission successor operator operator (at_time 185) ∷ []) deactivated.1)
    ≡ none
deactivate-blocks_example =
    deactivate-blocks rolled_back operator operator (at_time 180) (at_time 190) deactivated.0 ledger
      deactivated.1 successor (admission successor operator operator (at_time 185) ∷ [])
      run-IsSound_example deactivated-ok

abbrev guarded : AdmissionRecord
guarded = (outcome nothing_yet (admit successor operator operator (at_time 165) ledger)).0

guarded-some : active_record successor (at_time 190) ledger ≡ some guarded
unfolding run execute admit admit_new supersede_canary insert_admission new_record readmit is_active
    validate_transition_input validate_record load find_consumed active_row update_record
    insert_conflicts active_record require_active check_active find_deployment
guarded-some = refl

active_record-checks_example :
    (find_deployment 2 ledger.admissions ≡ some guarded)
    × (is_active_state guarded.state ≡ true)
    × (guarded.admission_id ≡ 21)
    × (guarded.approval_id ≡ 20)
    × (190 < guarded.expires_at)
active_record-checks_example =
    active_record-checks successor (at_time 190) guarded ledger guarded-some

abbrev again : AdmissionRecord × Ledger
again = outcome nothing_yet (admit successor operator operator (at_time 185) (run [] ledger))

again-ok : admit successor operator operator (at_time 185) (run [] ledger) ≡ ok (again.0, again.1)
unfolding run execute admit admit_new supersede_canary insert_admission new_record readmit is_active
    validate_transition_input validate_record load find_consumed active_row update_record
    insert_conflicts
again-ok = refl

admit-once_example :
    (again.1 ≡ run [] ledger) × (again.0.admission_id ≡ 21) × (is_active_state again.0.state ≡ true)
admit-once_example =
    admit-once successor operator operator (at_time 185) guarded again.0 [] ledger again.1
      run-IsSound_example
      (active_record-checks successor (at_time 190) guarded ledger guarded-some).0 again-ok

abbrev longer : AdmissionRecord × Ledger
longer = outcome nothing_yet (renew extension operator operator (at_time 260) ledger)

longer-ok : renew extension operator operator (at_time 260) ledger ≡ ok (longer.0, longer.1)
unfolding run execute admit admit_new supersede_canary insert_admission new_record readmit is_active
    validate_transition_input validate_record load find_consumed active_row update_record
    insert_conflicts renew renew_row renewal_checks find_deployment renewal_used renewal_id_used
    authorization_taken
longer-ok = refl

renew-once_example :
    renew extension operator operator (at_time 270) (run [] longer.1) ≢ ok (longer.0, longer.1)
renew-once_example =
    renew-once extension extension operator operator operator operator (at_time 260) (at_time 270)
      longer.0 longer.0 [] ledger longer.1 longer.1 longer-ok refl
