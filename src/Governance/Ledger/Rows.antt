-- ===== src/Governance/Ledger/Rows.antt =====
-- The rows of `admissions` under the ledger's INSERT and UPDATE.
use aiquant_trader.Prelude.{
  ℕ, ◌≤◌, ◌≡◌, refl, ap, ◌∙◌, inl, inr, true, false, Option, none, some, List, [], ◌∷◌, ◌++◌, arith,
  ◌==◌, if◌then◌else◌, Bool-cases,
}
use aiquant_trader.Governance.Models.{is_active_state, AdmissionRecord}
use aiquant_trader.Governance.Ledger.Tables.{
  find_deployment, active_row, update_record, insert_conflicts, owns,
}

-- What may become of the record of a deployment: its identity, its scope and its capital never
-- change, its expiry and its renewals only grow, and once it is not active nothing changes at all.
pub record Evolves (r s : AdmissionRecord) : Type 0 where
  pub deployment : s.deployment_id ≡ r.deployment_id
  pub approval : s.approval_id ≡ r.approval_id
  pub admission : s.admission_id ≡ r.admission_id
  pub key : s.approval_public_key_sha256 ≡ r.approval_public_key_sha256
  pub stage : s.stage ≡ r.stage
  pub account : s.account_address ≡ r.account_address
  pub vault : s.vault_address ≡ r.vault_address
  pub artifact : s.artifact_manifest_sha256 ≡ r.artifact_manifest_sha256
  pub configuration : s.configuration_sha256 ≡ r.configuration_sha256
  pub image : s.image_digest ≡ r.image_digest
  pub capital : s.capital_limit_usd ≡ r.capital_limit_usd
  pub admitted : s.admitted_at ≡ r.admitted_at
  pub expiry : r.expires_at ≤ s.expires_at
  pub renewals : r.renewal_count ≤ s.renewal_count
  pub final : is_active_state r.state ≡ false → s ≡ r

pub Evolves-refl : (r : AdmissionRecord) → Evolves r r
Evolves-refl r = record {
  deployment = refl;
  approval = refl;
  admission = refl;
  key = refl;
  stage = refl;
  account = refl;
  vault = refl;
  artifact = refl;
  configuration = refl;
  image = refl;
  capital = refl;
  admitted = refl;
  expiry = omega arith;
  renewals = omega arith;
  final = λ h. refl;
}

pub Evolves-trans : (r s t : AdmissionRecord) → Evolves r s → Evolves s t → Evolves r t
Evolves-trans r s t e f = record {
  deployment = f.deployment ∙ e.deployment;
  approval = f.approval ∙ e.approval;
  admission = f.admission ∙ e.admission;
  key = f.key ∙ e.key;
  stage = f.stage ∙ e.stage;
  account = f.account ∙ e.account;
  vault = f.vault ∙ e.vault;
  artifact = f.artifact ∙ e.artifact;
  configuration = f.configuration ∙ e.configuration;
  image = f.image ∙ e.image;
  capital = f.capital ∙ e.capital;
  admitted = f.admitted ∙ e.admitted;
  expiry = omega (arith, e.expiry, f.expiry);
  renewals = omega (arith, e.renewals, f.renewals);
  final = λ h.
      f.final (ap (λ (x : AdmissionRecord). is_active_state x.state) (e.final h) ∙ h) ∙ e.final h;
}

-- One row for a deployment, and one active row for an account and vault.
abbrev pub UniqueDeployments : List AdmissionRecord → Type 0
UniqueDeployments [] = Unit
UniqueDeployments (r ∷ rs) = (find_deployment r.deployment_id rs ≡ none) × UniqueDeployments rs

abbrev pub SingleActive : List AdmissionRecord → Type 0
SingleActive [] = Unit
SingleActive (r ∷ rs) =
    (is_active_state r.state ≡ true → active_row r.account_address r.vault_address rs ≡ none)
    × SingleActive rs

pub find_deployment-id :
    (d : ℕ) (r : AdmissionRecord) (rs : List AdmissionRecord)
    → find_deployment d rs ≡ some r
    → r.deployment_id ≡ d
unfolding find_deployment
find_deployment-id d r [] h = cc
find_deployment-id d r (x ∷ rs) h = ground (arith, find_deployment-id d r rs)

pub find_deployment-append :
    (d : ℕ) (n : AdmissionRecord) (rs : List AdmissionRecord)
    → find_deployment d (rs ++ n ∷ []) ≡ (elim (find_deployment d rs) [
      | none ↦ if n.deployment_id == d then some n else none
      | some r ↦ some r
    ])
unfolding find_deployment
find_deployment-append d n [] = refl
find_deployment-append d n (x ∷ rs) = ground (arith, find_deployment-append d n rs)

pub find_deployment-update :
    (d : ℕ) (u : AdmissionRecord) (rs : List AdmissionRecord)
    → find_deployment d (update_record u rs) ≡ (elim (find_deployment d rs) [
      | none ↦ none
      | some r ↦ some (if u.deployment_id == d then u else r)
    ])
unfolding find_deployment update_record
find_deployment-update d u [] = refl
find_deployment-update d u (x ∷ rs) = ground (arith, find_deployment-update d u rs)

active_row-append :
    (a : ℕ) (v : Option ℕ) (n : AdmissionRecord) (rs : List AdmissionRecord)
    → active_row a v rs ≡ none
    → owns a v n ≡ false
    → active_row a v (rs ++ n ∷ []) ≡ none
unfolding active_row
active_row-append a v n [] h g = rw g
active_row-append a v n (x ∷ rs) h g = ground (arith, active_row-append a v n rs)

-- The row that owns an account is the row of its deployment.
pub active_row-found :
    (a : ℕ) (v : Option ℕ) (r : AdmissionRecord) (rs : List AdmissionRecord)
    → UniqueDeployments rs
    → active_row a v rs ≡ some r
    → (find_deployment r.deployment_id rs ≡ some r) × (is_active_state r.state ≡ true)
unfolding active_row find_deployment
active_row-found a v r [] u h = absurd (never h)
  where
    never : {x : AdmissionRecord} → none ≡ some x → ⊥
    never q = cc
active_row-found a v r (x ∷ rs) (new, u) h = elim (Bool-cases (owns a v x)) [
  | inl owner ↦ (ground arith, ground arith)
  | inr other ↦ ground (arith, active_row-found a v r rs u, new)
]

-- INSERT keeps both.
insert_conflicts-find :
    (n : AdmissionRecord) (rs : List AdmissionRecord)
    → insert_conflicts n rs ≡ false
    → find_deployment n.deployment_id rs ≡ none
unfolding insert_conflicts find_deployment
insert_conflicts-find n [] h = refl
insert_conflicts-find n (x ∷ rs) h = ground (arith, insert_conflicts-find n rs)

pub UniqueDeployments-insert :
    (n : AdmissionRecord) (rs : List AdmissionRecord)
    → insert_conflicts n rs ≡ false
    → UniqueDeployments rs
    → UniqueDeployments (rs ++ n ∷ [])
unfolding insert_conflicts find_deployment
UniqueDeployments-insert n [] h u = (refl, tt)
UniqueDeployments-insert n (x ∷ rs) h (new, u) = (
  rw (find_deployment-append x.deployment_id n rs, new) (unfold find_deployment in ground arith),
  UniqueDeployments-insert n rs (ground arith) u,
)

pub SingleActive-insert :
    (n : AdmissionRecord) (rs : List AdmissionRecord)
    → insert_conflicts n rs ≡ false
    → SingleActive rs
    → SingleActive (rs ++ n ∷ [])
unfolding insert_conflicts active_row
SingleActive-insert n [] h u = (λ a. refl, tt)
SingleActive-insert n (x ∷ rs) h (alone, u) = (
  λ a. active_row-append x.account_address x.vault_address n rs (alone a) (ground arith),
  SingleActive-insert n rs (ground arith) u,
)
