-- ===== src/Governance/Ledger/Tables.antt =====
-- The three tables of governance/ledger.py, and the SQL statements that the ledger makes on them. A
-- transaction that raises is rolled back, so a failed operation returns its error and no ledger.
use aiquant_trader.Prelude.{
  ℕ, Bool, true, false, not, ◌&&◌, ◌||◌, Option, none, some, List, [], ◌∷◌, ◌++◌, ltb, ◌==◌,
  if◌then◌else◌, eq_option,
}
use aiquant_trader.Governance.Models.{
  Instant, Note, VerifiedDeploymentRenewal, AdmissionState, is_active_state, Reason,
  AdmissionRecord, validate_record,
}

-- `transition_input` and `precondition` are `ValueError`s raised before a check of the tables;
-- `unreadable` is a stored record that no longer validates.
pub data LedgerError : Type 0 where
  read_only transition_input inactive_approval consumed account_owned no_predecessor : LedgerError
  wrong_predecessor not_registered not_active not_production expired identity_changed : LedgerError
  chain_stale field_changed not_extended predates renewal_consumed bad_target : LedgerError
  unreadable integrity mismatched : LedgerError

pub data Result (A : Type 0) : Type 0 where
  ok : A → Result A
  err : LedgerError → Result A

infixl 5 ◌>>=◌ ◌>>◌
abbrev pub ◌>>=◌ : {A B : Type 0} → Result A → (A → Result B) → Result B
ok a >>= f = f a
err e >>= f = err e

abbrev pub ◌>>◌ : {B : Type 0} → Result (Unit {0}) → Result B → Result B
m >> k = m >>= λ _. k

abbrev pub raise_if : Bool → LedgerError → Result (Unit {0})
raise_if true e = err e
raise_if false e = ok tt

-- A row of `transitions`.
pub record Transition : Type 0 where
  pub deployment_id : ℕ
  pub previous_state : Option AdmissionState
  pub next_state : AdmissionState

pub record Ledger : Type 0 where
  pub writable : Bool
  pub admissions : List AdmissionRecord
  pub transitions : List Transition
  pub renewals : List VerifiedDeploymentRenewal

-- `_validate_transition_input`
unfoldable pub validate_transition_input : Note → Note → Instant → Result (Unit {0})
validate_transition_input actor reason instant = do
  raise_if (not instant.aware) transition_input
  raise_if (actor.blank || ltb 256 actor.size) transition_input
  raise_if (reason.blank || ltb 512 reason.size) transition_input

-- `DeploymentAdmissionRecord.model_validate_json(row["record_json"])`
unfoldable pub load : AdmissionRecord → Result AdmissionRecord
load r = if validate_record r then ok r else err unreadable

-- SELECT record_json FROM admissions WHERE approval_id = ? OR deployment_id = ?
unfoldable pub find_consumed : ℕ → ℕ → List AdmissionRecord → Option AdmissionRecord
find_consumed approval deployment [] = none
find_consumed approval deployment (r ∷ rs) =
    if r.approval_id == approval || r.deployment_id == deployment
    then some r
    else find_consumed approval deployment rs

-- SELECT record_json FROM admissions WHERE deployment_id = ?
unfoldable pub find_deployment : ℕ → List AdmissionRecord → Option AdmissionRecord
find_deployment deployment [] = none
find_deployment deployment (r ∷ rs) =
    if r.deployment_id == deployment then some r else find_deployment deployment rs

abbrev pub owns : ℕ → Option ℕ → AdmissionRecord → Bool
owns account vault r =
    is_active_state r.state && r.account_address == account && eq_option r.vault_address vault

-- `_active_row`
unfoldable pub active_row : ℕ → Option ℕ → List AdmissionRecord → Option AdmissionRecord
active_row account vault [] = none
active_row account vault (r ∷ rs) =
    if owns account vault r then some r else active_row account vault rs

-- `_update_record`: one row is replaced. Of the columns with an index of their own only the
-- authorization and the state can change.
unfoldable pub update_record : AdmissionRecord → List AdmissionRecord → List AdmissionRecord
update_record u [] = []
update_record u (r ∷ rs) =
    (if r.deployment_id == u.deployment_id then u else r) ∷ update_record u rs

-- Another deployment holds this authorization.
unfoldable pub authorization_taken : ℕ → ℕ → List AdmissionRecord → Bool
authorization_taken authorization deployment [] = false
authorization_taken authorization deployment (r ∷ rs) =
    (r.authorization_id == authorization && not (r.deployment_id == deployment))
    || authorization_taken authorization deployment rs

-- The unique columns of `admissions`, and its index of one active row for an account.
unfoldable pub insert_conflicts : AdmissionRecord → List AdmissionRecord → Bool
insert_conflicts n [] = false
insert_conflicts n (r ∷ rs) =
    (r.deployment_id == n.deployment_id
      || r.approval_id == n.approval_id
      || r.admission_id == n.admission_id
      || r.authorization_id == n.authorization_id
      || owns n.account_address n.vault_address r)
    || insert_conflicts n rs

unfoldable pub renewal_used : ℕ → List VerifiedDeploymentRenewal → Bool
renewal_used authorization [] = false
renewal_used authorization (r ∷ rs) =
    r.authorization_id == authorization || renewal_used authorization rs

unfoldable pub renewal_id_used : ℕ → List VerifiedDeploymentRenewal → Bool
renewal_id_used renewal [] = false
renewal_id_used renewal (r ∷ rs) = r.renewal.renewal_id == renewal || renewal_id_used renewal rs

abbrev pub set_state : AdmissionState → Note → Reason → AdmissionRecord → AdmissionRecord
set_state s actor reason r = record r { state = s; actor = actor; reason = reason }

abbrev pub log_transition : AdmissionRecord → Option AdmissionState → Ledger → Ledger
log_transition r previous l = record l {
  transitions =
      l.transitions
      ++ record { deployment_id = r.deployment_id; previous_state = previous; next_state = r.state }
        ∷ [];
}
