-- ===== src/Governance/Ledger/Updates.antt =====
-- The rows of `admissions` under the ledger's UPDATE.
use mathlib.Core.Path.{subst}
use aiquant_trader.Prelude.{
  ℕ, ◌≡◌, refl, sym, ◌∙◌, inl, inr, Bool, true, false, Option, none, some, List, [], ◌∷◌, arith,
  ◌==◌, if◌then◌else◌, Bool-cases, ==→eq, All,
}
use aiquant_trader.Governance.Models.{is_active_state, AdmissionRecord}
use aiquant_trader.Governance.Ledger.Tables.{find_deployment, active_row, update_record}
use aiquant_trader.Governance.Ledger.Rows.{
  Evolves, UniqueDeployments, SingleActive, find_deployment-update,
}

-- An UPDATE whose row agrees with the rows that it replaces.
abbrev pub Fits : AdmissionRecord → AdmissionRecord → Type 0
Fits u x =
    (x.deployment_id == u.deployment_id) ≡ true
    → (is_active_state u.state ≡ true → is_active_state x.state ≡ true)
      × (u.account_address ≡ x.account_address)
      × (u.vault_address ≡ x.vault_address)

active_row-update :
    (a : ℕ) (v : Option ℕ) (u : AdmissionRecord) (rs : List AdmissionRecord)
    → All (Fits u) rs
    → active_row a v rs ≡ none
    → active_row a v (update_record u rs) ≡ none
unfolding active_row update_record
active_row-update a v u [] f h = refl
active_row-update a v u (x ∷ rs) f h = elim (Bool-cases (x.deployment_id == u.deployment_id)) [
  | inl same ↦
      let (open_before, account, vault) = f.0 same in
      rw same (ground (arith, open_before, account, vault, active_row-update a v u rs f.1))
  | inr other ↦ rw other (ground (arith, active_row-update a v u rs f.1))
]

pub SingleActive-update :
    (u : AdmissionRecord) (rs : List AdmissionRecord)
    → All (Fits u) rs
    → SingleActive rs
    → SingleActive (update_record u rs)
unfolding update_record
SingleActive-update u [] f s = tt
SingleActive-update u (x ∷ rs) f (alone, s) =
    (head (x.deployment_id == u.deployment_id) refl, SingleActive-update u rs f.1 s)
  where
    head :
        (b : Bool)
        → (x.deployment_id == u.deployment_id) ≡ b
        → is_active_state (if b then u else x).state ≡ true
        → active_row
            (if b then u else x).account_address
            (if b then u else x).vault_address
            (update_record u rs)
          ≡ none
    head true e a =
        let (open_before, account, vault) = f.0 e in
        simp (account, vault)
          (active_row-update x.account_address x.vault_address u rs f.1 (alone (open_before a)))
    head false e a = active_row-update x.account_address x.vault_address u rs f.1 (alone a)

pub UniqueDeployments-update :
    (u : AdmissionRecord) (rs : List AdmissionRecord)
    → UniqueDeployments rs
    → UniqueDeployments (update_record u rs)
unfolding update_record
UniqueDeployments-update u [] h = tt
UniqueDeployments-update u (x ∷ rs) (new, h) =
    (head (x.deployment_id == u.deployment_id) refl, UniqueDeployments-update u rs h)
  where
    absent : find_deployment x.deployment_id (update_record u rs) ≡ none
    absent = rw (find_deployment-update x.deployment_id u rs, new)

    head :
        (b : Bool)
        → (x.deployment_id == u.deployment_id) ≡ b
        → find_deployment (if b then u else x).deployment_id (update_record u rs) ≡ none
    head true e = subst (λ k. find_deployment k (update_record u rs) ≡ none) (==→eq _ _ e) absent
    head false e = absent

-- A row that was read from its deployment fits, if it may follow the row that is there.
Fits-absent :
    (u : AdmissionRecord) (rs : List AdmissionRecord)
    → find_deployment u.deployment_id rs ≡ none
    → All (Fits u) rs
unfolding find_deployment
Fits-absent u [] h = tt
Fits-absent u (x ∷ rs) h = (λ e. absurd (never (rw e at h)), Fits-absent u rs (ground arith))
  where
    never : {y : AdmissionRecord} → some y ≡ none → ⊥
    never q = cc

pub Fits-found :
    (r u : AdmissionRecord) (rs : List AdmissionRecord)
    → UniqueDeployments rs
    → find_deployment u.deployment_id rs ≡ some r
    → (is_active_state u.state ≡ true → is_active_state r.state ≡ true)
    → Evolves r u
    → All (Fits u) rs
unfolding find_deployment
Fits-found r u [] h f a e = tt
Fits-found r u (x ∷ rs) (new, h) f a e = elim (Bool-cases (x.deployment_id == u.deployment_id)) [
  | inl same ↦
      let here : x ≡ r = some_eq (rw same at f) in
      (
        λ _.
            subst
              (λ (y : AdmissionRecord).
                (is_active_state u.state ≡ true → is_active_state y.state ≡ true)
                × (u.account_address ≡ y.account_address)
                × (u.vault_address ≡ y.vault_address))
              (sym here) (a, e.account, e.vault),
        Fits-absent u rs (subst (λ k. find_deployment k rs ≡ none) (==→eq _ _ same) new),
      )
  | inr other ↦ (λ same. absurd (clash (sym same ∙ other)), Fits-found r u rs h (rw other at f) a e)
]
  where
    some_eq : {y z : AdmissionRecord} → some y ≡ some z → y ≡ z
    some_eq q = cc

    clash : true ≡ false → ⊥
    clash q = cc
