-- ===== src/Governance/Models.antt =====
-- The records of governance/models.py and of `DeploymentApproval`. Identifiers and digests are only
-- compared, so natural numbers stand for them; an address stands for its lower-case form, in which
-- alone the ledger compares it. An aware instant is a count of its microseconds.
use aiquant_trader.Prelude.{
  ℕ, ◌+◌, Bool, true, false, not, ◌&&◌, ◌||◌, Option, ltb, leb, ◌==◌, if◌then◌else◌, is_some,
}

-- The two stages that a deployment can be admitted at.
pub data Stage : Type 0 where
  approved_canary production : Stage

abbrev pub is_production : Stage → Bool
is_production approved_canary = false
is_production production = true

-- `datetime`: naive, without a time zone, or aware.
pub record Instant : Type 0 where
  pub aware : Bool
  pub at : ℕ

-- A text, as far as it is inspected.
pub record Note : Type 0 where
  pub text : ℕ
  pub blank : Bool
  pub size : ℕ

pub record DeploymentApproval : Type 0 where
  pub approval_id : ℕ
  pub deployment_id : ℕ
  pub deployment_id_size : ℕ
  pub stage : Stage
  pub account_address : ℕ
  pub vault_address : Option ℕ
  pub artifact_manifest_sha256 : ℕ
  pub configuration_sha256 : ℕ
  pub image_digest : ℕ
  pub capital_limit_usd : ℕ
  pub rollback_deployment_id : ℕ
  pub prior_approval_id : Option ℕ
  pub approved_at : ℕ
  pub expires_at : ℕ

-- `DeploymentApproval.is_active` and `DeploymentAuthorizationRenewal.is_active`, at an aware instant.
unfoldable pub is_active : ℕ → ℕ → ℕ → Bool
is_active approved_at expires_at now = leb approved_at now && ltb now expires_at

pub record VerifiedDeploymentAdmission : Type 0 where
  pub admission_id : ℕ
  pub approval : DeploymentApproval
  pub public_key_sha256 : ℕ

pub record DeploymentAuthorizationRenewal : Type 0 where
  pub renewal_id : ℕ
  pub deployment_id : ℕ
  pub initial_approval_id : ℕ
  pub admission_id : ℕ
  pub prior_authorization_id : ℕ
  pub account_address : ℕ
  pub vault_address : Option ℕ
  pub artifact_manifest_sha256 : ℕ
  pub configuration_sha256 : ℕ
  pub image_digest : ℕ
  pub capital_limit_usd : ℕ
  pub approved_at : ℕ
  pub expires_at : ℕ

pub record VerifiedDeploymentRenewal : Type 0 where
  pub authorization_id : ℕ
  pub renewal : DeploymentAuthorizationRenewal
  pub public_key_sha256 : ℕ

pub data AdmissionState : Type 0 where
  active superseded rolled_back revoked : AdmissionState

abbrev pub is_active_state : AdmissionState → Bool
is_active_state active = true
is_active_state _ = false

-- The reason texts that the ledger stores: as given, or behind a prefix of its own.
pub data Reason : Type 0 where
  given : Note → Reason
  superseded_by : ℕ → ℕ → Note → Reason

-- `len` of the text; "superseded by " has 14 characters, and ": " has two.
abbrev pub reason_size : Reason → ℕ
reason_size (given n) = n.size
reason_size (superseded_by deployment id_size n) = 14 + id_size + 2 + n.size

pub record AdmissionRecord : Type 0 where
  pub deployment_id : ℕ
  pub approval_id : ℕ
  pub admission_id : ℕ
  pub authorization_id : ℕ
  pub renewal_count : ℕ
  pub approval_public_key_sha256 : Option ℕ
  pub stage : Stage
  pub account_address : ℕ
  pub vault_address : Option ℕ
  pub artifact_manifest_sha256 : ℕ
  pub configuration_sha256 : ℕ
  pub image_digest : ℕ
  pub capital_limit_usd : ℕ
  pub admitted_at : ℕ
  pub expires_at : ℕ
  pub state : AdmissionState
  pub actor : Note
  pub reason : Reason

-- What `DeploymentAdmissionRecord.model_validate_json` requires of a stored record: the lengths of
-- the two texts, and `authorization_and_window_are_valid`.
unfoldable pub validate_record : AdmissionRecord → Bool
validate_record r =
    if ltb r.actor.size 1 || ltb 256 r.actor.size
    then false
    else if ltb (reason_size r.reason) 1 || ltb 512 (reason_size r.reason)
    then false
    else if leb r.expires_at r.admitted_at
    then false
    else if r.renewal_count == 0 && not (r.authorization_id == r.admission_id)
    then false
    else if ltb 0 r.renewal_count && r.authorization_id == r.admission_id
    then false
    else if ltb 0 r.renewal_count && not (is_some r.approval_public_key_sha256)
    then false
    else true
