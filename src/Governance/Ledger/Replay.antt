-- ===== src/Governance/Ledger/Replay.antt =====
-- Repeated calls of the admission ledger, with an identity or an authorization that it has seen.
use aiquant_trader.Prelude.{
  ◌≢◌, ℕ, ◌≡◌, sym, ap, ◌∙◌, inl, inr, true, false, ◌||◌, Option, none, some, List, [], ◌∷◌, ◌++◌,
  arith, ◌==◌, Bool-cases,
}
use aiquant_trader.Governance.Models.{
  Instant, Note, VerifiedDeploymentAdmission, VerifiedDeploymentRenewal, AdmissionState,
  is_active_state, AdmissionRecord,
}
use aiquant_trader.Governance.Ledger.Tables.{
  ok, Ledger, validate_transition_input, load, find_consumed, find_deployment, active_row,
  renewal_used,
}
use aiquant_trader.Governance.Ledger.Admit.{
  new_record, insert_admission, supersede_canary, readmit, admit_new, admit,
}
use aiquant_trader.Governance.Ledger.Renew.{
  renew, deactivate_row, deactivate, Command, admission, renewal, deactivation, execute, settled,
  run,
}
use aiquant_trader.Governance.Ledger.Invariant.{IsSound}
use aiquant_trader.Governance.Ledger.Effects.{renew-ok}
use aiquant_trader.Governance.Ledger.Changes.{bind-inverse, admit-branch}
use aiquant_trader.Governance.Ledger.History.{settled-cases, run-Succeeds}

find_consumed-found :
    (a d : ℕ) (r : AdmissionRecord) (rs : List AdmissionRecord)
    → find_deployment d rs ≡ some r
    → (row : AdmissionRecord) × (find_consumed a d rs ≡ some row)
unfolding find_consumed find_deployment
find_consumed-found a d r [] h = absurd (never h)
  where
    never : none ≡ some r → ⊥
    never q = cc
find_consumed-found a d r (x ∷ rs) h =
    elim (Bool-cases (x.approval_id == a || x.deployment_id == d)) [
      | inl hit ↦ (x, rw hit)
      | inr miss ↦ let (row, e) = find_consumed-found a d r rs (ground arith) in (row, rw miss e)
    ]

-- An identity that is in the ledger: the answer is its own active record, and the ledger stays.
readmit-ok :
    (v : VerifiedDeploymentAdmission) (row r : AdmissionRecord) (l l' : Ledger)
    → readmit v row l ≡ ok (r, l')
    → (l' ≡ l) × (r.admission_id ≡ v.admission_id) × (is_active_state r.state ≡ true)
unfolding readmit load
readmit-ok v row r l l' h = (ground arith, ground arith, ground arith)

-- Once a deployment is in the ledger, then whatever calls follow, an admission of that deployment
-- changes nothing: it fails, or it returns the same admission, which is still active.
pub admit-once :
    (v : VerifiedDeploymentAdmission) (actor reason : Note) (now : Instant)
    (known r : AdmissionRecord) (cs : List Command) (l l' : Ledger)
    → IsSound l.admissions
    → find_deployment v.approval.deployment_id l.admissions ≡ some known
    → admit v actor reason now (run cs l) ≡ ok (r, l')
    → (l' ≡ run cs l) × (r.admission_id ≡ v.admission_id) × (is_active_state r.state ≡ true)
admit-once v actor reason now known r cs l l' s found h =
    let (last, still, _) = (run-Succeeds cs l s).at v.approval.deployment_id known found in
    let (row, consumed_row) =
      find_consumed-found v.approval.approval_id v.approval.deployment_id last _ still in
    readmit-ok v row r (run cs l) l'
      (rw consumed_row at (admit-branch v actor reason now r (run cs l) l' h))

renewal_used-append :
    (k : ℕ) (v : VerifiedDeploymentRenewal) (rs : List VerifiedDeploymentRenewal)
    → renewal_used k (rs ++ v ∷ []) ≡ (renewal_used k rs || v.authorization_id == k)
unfolding renewal_used
renewal_used-append k v [] = ground arith
renewal_used-append k v (r ∷ rs) = ground (arith, renewal_used-append k v rs)

supersede_canary-renewals :
    (v : VerifiedDeploymentAdmission) (actor reason : Note) (o : Option AdmissionRecord)
    (l l' : Ledger)
    → supersede_canary v actor reason o l ≡ ok l'
    → l'.renewals ≡ l.renewals
unfolding supersede_canary load
supersede_canary-renewals v actor reason none l l' h = ground arith
supersede_canary-renewals v actor reason (some row) l l' h = ground arith

insert_admission-renewals :
    (n r : AdmissionRecord) (l l' : Ledger)
    → insert_admission n l ≡ ok (r, l')
    → l'.renewals ≡ l.renewals
unfolding insert_admission
insert_admission-renewals n r l l' h = ground arith

admit-renewals :
    (v : VerifiedDeploymentAdmission) (actor reason : Note) (now : Instant) (r : AdmissionRecord)
    (l l' : Ledger)
    → admit v actor reason now l ≡ ok (r, l')
    → l'.renewals ≡ l.renewals
admit-renewals v actor reason now r l l' h =
    by_identity (find_consumed v.approval.approval_id v.approval.deployment_id l.admissions)
      (admit-branch v actor reason now r l l' h)
  where
    by_identity :
        (o : Option AdmissionRecord)
        → (elim o [ some row ↦ readmit v row l | none ↦ admit_new v actor reason now.at l ])
          ≡ ok (r, l')
        → l'.renewals ≡ l.renewals
    by_identity (some row) q = ap (λ (k : Ledger). k.renewals) (readmit-ok v row r l l' q).0
    by_identity none q =
        let (cleared, before, after) =
          bind-inverse {y = (r, l')} (insert_admission (new_record v actor reason now.at))
            (supersede_canary v actor reason
              (active_row v.approval.account_address v.approval.vault_address l.admissions) l)
            (unfold admit_new in q) in
        insert_admission-renewals _ r cleared l' after
        ∙ supersede_canary-renewals v actor reason _ l cleared before

deactivate-renewals :
    (d : ℕ) (target : AdmissionState) (actor reason : Note) (now : Instant) (r : AdmissionRecord)
    (l l' : Ledger)
    → deactivate d target actor reason now l ≡ ok (r, l')
    → l'.renewals ≡ l.renewals
deactivate-renewals d target actor reason now r l l' h =
    by_row (find_deployment d l.admissions)
      (unfold deactivate validate_transition_input in ground arith)
  where
    by_row :
        (o : Option AdmissionRecord)
        → deactivate_row target actor reason o l ≡ ok (r, l')
        → l'.renewals ≡ l.renewals
    by_row none q = unfold deactivate_row in ground arith
    by_row (some row) q = unfold deactivate_row load in ground arith

execute-renewal_used :
    (k : ℕ) (c : Command) (r : AdmissionRecord) (l l' : Ledger)
    → renewal_used k l.renewals ≡ true
    → execute c l ≡ ok (r, l')
    → renewal_used k l'.renewals ≡ true
execute-renewal_used k (admission v actor reason now) r l l' u h =
    rw (admit-renewals v actor reason now r l l' (unfold execute in h)) u
execute-renewal_used k (deactivation d target actor reason now) r l l' u h =
    rw (deactivate-renewals d target actor reason now r l l' (unfold execute in h)) u
execute-renewal_used k (renewal v actor reason now) r l l' u h =
    let (_, _, _, _, _, used) = renew-ok v actor reason now r l l' (unfold execute in h) in
    rw (used, renewal_used-append k v l.renewals) (ground arith)

run-renewal_used :
    (k : ℕ) (cs : List Command) (l : Ledger)
    → renewal_used k l.renewals ≡ true
    → renewal_used k (run cs l).renewals ≡ true
unfolding run
run-renewal_used k [] l u = u
run-renewal_used k (c ∷ cs) l u = run-renewal_used k cs (settled l (execute c l)) (
    settled-cases (λ (j : Ledger). renewal_used k j.renewals ≡ true) l (execute c l) u
      (λ r l' h. execute-renewal_used k c r l l' u h))

-- An authorization that renewed a deployment never renews again, whatever calls come between.
pub renew-once :
    (v w : VerifiedDeploymentRenewal) (actor reason actor' reason' : Note) (now later : Instant)
    (r r' : AdmissionRecord) (cs : List Command) (l l' l'' : Ledger)
    → renew v actor reason now l ≡ ok (r, l')
    → w.authorization_id ≡ v.authorization_id
    → renew w actor' reason' later (run cs l') ≢ ok (r', l'')
renew-once v w actor reason actor' reason' now later r r' cs l l' l'' h same again =
    let (_, _, _, _, _, used) = renew-ok v actor reason now r l l' h in
    let (_, _, checks, _, _, _) = renew-ok w actor' reason' later r' (run cs l') l'' again in
    let before : renewal_used w.authorization_id l'.renewals ≡ true =
      rw (used, renewal_used-append w.authorization_id v l.renewals) (ground (arith, same)) in
    clash (sym (run-renewal_used w.authorization_id cs l' before) ∙ checks.unused)
  where
    clash : true ≡ false → ⊥
    clash q = cc
