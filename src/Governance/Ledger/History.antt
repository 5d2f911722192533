-- ===== src/Governance/Ledger/History.antt =====
-- The admission ledger under any sequence of its writing calls.
use aiquant_trader.Prelude.{◌≡◌, refl, ap, ◌∙◌, true, false, none, some, List, [], ◌∷◌, arith}
use aiquant_trader.Governance.Models.{
  Instant, Note, VerifiedDeploymentAdmission, AdmissionState, is_active_state, AdmissionRecord,
}
use aiquant_trader.Governance.Ledger.Tables.{Result, ok, err, Ledger, load, find_deployment}
use aiquant_trader.Governance.Ledger.Renew.{
  is_operator_target, deactivate, Command, admission, renewal, deactivation, execute, settled, run,
}
use aiquant_trader.Governance.Ledger.Rows.{Evolves-refl, find_deployment-id, find_deployment-update}
use aiquant_trader.Governance.Ledger.Invariant.{
  IsSound, Change, unchanged, Succeeds, Succeeds-trans, Change-Succeeds, Change-IsSound,
}
use aiquant_trader.Governance.Ledger.Changes.{Changes, admit-Changes}
use aiquant_trader.Governance.Ledger.Effects.{renew-Change, deactivate-ok, deactivate-Change}
use aiquant_trader.Governance.Ledger.Guard.{check_active, require_active, active_record}

one_change : {rs ts : List AdmissionRecord} → Change rs ts → Changes rs ts
one_change {rs} c = record { middle = rs; first = unchanged refl; second = c }

execute-Changes :
    (c : Command) (r : AdmissionRecord) (l l' : Ledger)
    → IsSound l.admissions
    → execute c l ≡ ok (r, l')
    → Changes l.admissions l'.admissions
execute-Changes (admission v actor reason now) r l l' s h =
    admit-Changes v actor reason now r l l' s (unfold execute in h)
execute-Changes (renewal v actor reason now) r l l' s h =
    one_change (renew-Change v actor reason now r l l' (unfold execute in h))
execute-Changes (deactivation d target actor reason now) r l l' s h =
    one_change (deactivate-Change d target actor reason now r l l' (unfold execute in h))

pub settled-cases :
    (P : Ledger → Type 0) (l : Ledger) (q : Result (AdmissionRecord × Ledger))
    → P l
    → ((r : AdmissionRecord) (l' : Ledger) → q ≡ ok (r, l') → P l')
    → P (settled l q)
settled-cases P l (ok (r, l')) p f = f r l' refl
settled-cases P l (err e) p f = p

step-IsSound :
    (c : Command) (l : Ledger) → IsSound l.admissions → IsSound (settled l (execute c l)).admissions
step-IsSound c l s =
    settled-cases (λ (k : Ledger). IsSound k.admissions) l (execute c l) s
      (λ r l' h.
        let ch = execute-Changes c r l l' s h in
        Change-IsSound ch.second (Change-IsSound ch.first s))

-- Any sequence of calls, failing or not, leaves at most one active deployment for an account and
-- vault, and at most one row for a deployment.
pub run-IsSound :
    (cs : List Command) (l : Ledger) → IsSound l.admissions → IsSound (run cs l).admissions
unfolding run
run-IsSound [] l s = s
run-IsSound (c ∷ cs) l s = run-IsSound cs (settled l (execute c l)) (step-IsSound c l s)

Succeeds-refl : (rs : List AdmissionRecord) → Succeeds rs rs
Succeeds-refl rs = record { at = λ d r found. (r, found, Evolves-refl r) }

-- Under any sequence of calls, failing or not, the record of a deployment is never lost: its
-- identity, its scope and its capital do not change, its expiry and its renewals do not decrease,
-- and a record that is no longer active does not change at all.
pub run-Succeeds :
    (cs : List Command) (l : Ledger)
    → IsSound l.admissions
    → Succeeds l.admissions (run cs l).admissions
unfolding run
run-Succeeds [] l s = Succeeds-refl l.admissions
run-Succeeds (c ∷ cs) l s =
    Succeeds-trans l.admissions (settled l (execute c l)).admissions _
      (settled-cases (λ (k : Ledger). Succeeds l.admissions k.admissions) l (execute c l)
        (Succeeds-refl l.admissions)
        (λ r l' h.
          let ch = execute-Changes c r l l' s h in
          Succeeds-trans l.admissions ch.middle l'.admissions (Change-Succeeds ch.first)
            (Change-Succeeds ch.second)))
      (run-Succeeds cs (settled l (execute c l)) (step-IsSound c l s))

blocked :
    (v : VerifiedDeploymentAdmission) (now : Instant) (r : AdmissionRecord) (l : Ledger)
    → find_deployment v.approval.deployment_id l.admissions ≡ some r
    → is_active_state r.state ≡ false
    → active_record v now l ≡ none
unfolding active_record require_active check_active load
blocked v now r l found closed = ground arith

operator_target-closed :
    (t : AdmissionState) → is_operator_target t ≡ true → is_active_state t ≡ false
operator_target-closed t h = ground arith

-- Once a deployment was rolled back or revoked, its guard finds no active record at any time,
-- whatever calls follow, failing or not.
pub deactivate-blocks :
    (target : AdmissionState) (actor reason : Note) (at later : Instant) (r : AdmissionRecord)
    (l l' : Ledger) (v : VerifiedDeploymentAdmission) (cs : List Command)
    → IsSound l.admissions
    → deactivate v.approval.deployment_id target actor reason at l ≡ ok (r, l')
    → active_record v later (run cs l') ≡ none
deactivate-blocks target actor reason at later r l l' v cs s h =
    let (row, found, was, operator, new, rows) =
      deactivate-ok v.approval.deployment_id target actor reason at r l l' h in
    let sound : IsSound l'.admissions =
      Change-IsSound (deactivate-Change v.approval.deployment_id target actor reason at r l l' h)
        s in
    let closed : is_active_state r.state ≡ false =
      rw new (operator_target-closed target operator) in
    let same : r.deployment_id ≡ v.approval.deployment_id =
      rw new (find_deployment-id _ row l.admissions found) in
    let here : find_deployment v.approval.deployment_id l'.admissions ≡ some r =
      rw (rows, find_deployment-update v.approval.deployment_id r l.admissions, found)
        (ground (arith, same)) in
    let (last, still, e) = (run-Succeeds cs l' sound).at v.approval.deployment_id r here in
    blocked v later last (run cs l') still
      (ap (λ (x : AdmissionRecord). is_active_state x.state) (e.final closed) ∙ closed)
