-- ===== src/Governance/Ledger/Invariant.antt =====
-- The changes that a call of the admission ledger can make to its rows.
use aiquant_trader.Prelude.{
  ℕ, ◌≡◌, refl, sym, ◌∙◌, Bool, true, false, some, List, [], ◌∷◌, ◌++◌, ◌==◌, if◌then◌else◌, ==→eq,
}
use mathlib.Core.Path.{subst}
use aiquant_trader.Governance.Models.{is_active_state, AdmissionRecord}
use aiquant_trader.Governance.Ledger.Tables.{find_deployment, update_record, insert_conflicts}
use aiquant_trader.Governance.Ledger.Updates.{
  SingleActive-update, UniqueDeployments-update, Fits-found,
}
use aiquant_trader.Governance.Ledger.Rows.{
  Evolves, Evolves-refl, Evolves-trans, UniqueDeployments, SingleActive, find_deployment-append,
  find_deployment-update, UniqueDeployments-insert, SingleActive-insert,
}

pub record IsSound (rs : List AdmissionRecord) : Type 0 where
  pub unique : UniqueDeployments rs
  pub single : SingleActive rs

-- One change to the rows.
pub data Change (rs ts : List AdmissionRecord) : Type 0 where
  unchanged : ts ≡ rs → Change rs ts
  inserted :
      (n : AdmissionRecord) → insert_conflicts n rs ≡ false → ts ≡ rs ++ n ∷ [] → Change rs ts
  updated :
      (r u : AdmissionRecord)
      → find_deployment r.deployment_id rs ≡ some r
      → is_active_state r.state ≡ true
      → Evolves r u
      → ts ≡ update_record u rs
      → Change rs ts

-- The record of every deployment is still there, and has only evolved.
pub record Succeeds (rs ts : List AdmissionRecord) : Type 0 where
  pub at :
      (d : ℕ) (r : AdmissionRecord)
      → find_deployment d rs ≡ some r
      → (s : AdmissionRecord) × (find_deployment d ts ≡ some s) × Evolves r s

pub Succeeds-trans :
    (rs ss ts : List AdmissionRecord) → Succeeds rs ss → Succeeds ss ts → Succeeds rs ts
Succeeds-trans rs ss ts p q = record { at = at }
  where
    at :
        (d : ℕ) (r : AdmissionRecord)
        → find_deployment d rs ≡ some r
        → (s : AdmissionRecord) × (find_deployment d ts ≡ some s) × Evolves r s
    at d r found =
        let (s, fs, es) = p.at d r found in
        let (t, ft, et) = q.at d s fs in (t, ft, Evolves-trans r s t es et)

update-Succeeds :
    (r u : AdmissionRecord) (rs : List AdmissionRecord)
    → find_deployment r.deployment_id rs ≡ some r
    → Evolves r u
    → Succeeds rs (update_record u rs)
update-Succeeds r u rs here e = record { at = at }
  where
    some_eq : {y z : AdmissionRecord} → some y ≡ some z → y ≡ z
    some_eq q = cc

    at :
        (d : ℕ) (x : AdmissionRecord)
        → find_deployment d rs ≡ some x
        → (s : AdmissionRecord) × (find_deployment d (update_record u rs) ≡ some s) × Evolves x s
    at d x found = (
      if u.deployment_id == d then u else x,
      rw (find_deployment-update d u rs, found),
      follows (u.deployment_id == d) refl,
    )
      where
        follows : (b : Bool) → (u.deployment_id == d) ≡ b → Evolves x (if b then u else x)
        follows true q =
            let same : r ≡ x = some_eq (
              sym here
              ∙ subst (λ k. find_deployment k rs ≡ some x) (sym (==→eq _ _ q) ∙ e.deployment)
                  found) in
            subst (λ (y : AdmissionRecord). Evolves y u) same e
        follows false q = Evolves-refl x

insert-Succeeds : (n : AdmissionRecord) (rs : List AdmissionRecord) → Succeeds rs (rs ++ n ∷ [])
insert-Succeeds n rs = record {
  at = λ d r found. (r, rw (find_deployment-append d n rs, found), Evolves-refl r);
}

pub Change-Succeeds : {rs ts : List AdmissionRecord} → Change rs ts → Succeeds rs ts
Change-Succeeds {rs} (unchanged e) =
    subst (Succeeds rs) (sym e) (record { at = λ d r found. (r, found, Evolves-refl r) })
Change-Succeeds {rs} (inserted n free e) = subst (Succeeds rs) (sym e) (insert-Succeeds n rs)
Change-Succeeds {rs} (updated r u found was e eq) =
    subst (Succeeds rs) (sym eq) (update-Succeeds r u rs found e)

pub Change-IsSound : {rs ts : List AdmissionRecord} → Change rs ts → IsSound rs → IsSound ts
Change-IsSound (unchanged e) s = subst IsSound (sym e) s
Change-IsSound {rs} (inserted n free e) s = subst IsSound (sym e) (record {
  unique = UniqueDeployments-insert n rs free s.unique;
  single = SingleActive-insert n rs free s.single;
})
Change-IsSound {rs} (updated r u found was e eq) s = subst IsSound (sym eq) (record {
  unique = UniqueDeployments-update u rs s.unique;
  single =
      SingleActive-update u rs
        (Fits-found r u rs s.unique
          (subst (λ k. find_deployment k rs ≡ some r) (sym e.deployment) found) (λ _. was) e)
        s.single;
})
