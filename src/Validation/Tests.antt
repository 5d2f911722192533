-- ===== src/Validation/Tests.antt =====
-- Walk-forward validation at concrete inputs.
use aiquant_trader.Prelude.{
  ℕ, arith, ◌≡◌, refl, true, List, [], ◌∷◌, map, ltb, ◌==◌, if◌then◌else◌, All,
}
use aiquant_trader.Prelude.Int.{pos, negsuc}
use aiquant_trader.Validation.Plan.{
  WalkForwardFold, ValidationPolicy, guard_leakage_boundaries, ValidationPlan,
  require_positive_duration, holdout_is_untouched_by_folds, overlaps, enforce_order_and_roles,
  valid_fold, fold_at, fold_loop, Result, ok, err, too_few_folds, make_plan, plan_walk_forward,
}
use aiquant_trader.Validation.Folds.{folds_from, Fits, plan_walk_forward-folds_from}
use aiquant_trader.Validation.Leakage.{IsOrdered, AreDisjoint, plan_walk_forward-IsOrdered}
use aiquant_trader.Validation.Selection
use aiquant_trader.Validation.Selection.{
  SelectionReceipt, not_selected, finite, Candidate, precedes, first_sorted, select_candidate,
  authorize_holdout, IsAtLeast,
}
use aiquant_trader.Validation.Best.{IsIn, select_candidate-authorize_holdout}

abbrev policy : ValidationPolicy
policy = record {
  train_ns = 10;
  purge_ns = 2;
  validation_ns = 5;
  embargo_ns = 1;
  test_ns = 4;
  step_ns = 5;
  final_holdout_ns = 20;
  label_horizon_ns = 2;
  minimum_folds = 3;
}

abbrev sha : ValidationPolicy → ℕ
sha p = p.train_ns

abbrev no_plan : ValidationPlan
no_plan = make_plan 0 0 policy 0 0 []

abbrev or_no_plan : Result ValidationPlan → ValidationPlan
or_no_plan (ok plan) = plan
or_no_plan (err e) = no_plan

abbrev plan : ValidationPlan
plan = or_no_plan (plan_walk_forward sha 9 100 160 policy)

four_folds :
    map (λ (f : WalkForwardFold). f.train.start_ts_ns) plan.folds ≡ 100 ∷ 105 ∷ 110 ∷ 115 ∷ []
unfolding plan_walk_forward fold_loop fold_at valid_fold require_positive_duration
    enforce_order_and_roles overlaps holdout_is_untouched_by_folds
four_folds = refl

too_short : plan_walk_forward sha 9 100 143 policy ≡ err too_few_folds
unfolding plan_walk_forward fold_loop fold_at
too_short = refl

planned : plan_walk_forward sha 9 100 160 policy ≡ ok plan
unfolding plan_walk_forward fold_loop fold_at valid_fold require_positive_duration
    enforce_order_and_roles overlaps holdout_is_untouched_by_folds
planned = refl

guarded : guard_leakage_boundaries policy ≡ true
unfolding guard_leakage_boundaries
guarded = refl

plan_walk_forward-folds_from_example :
    (count : ℕ) × Fits policy 140 100 count
    × (plan_walk_forward sha 9 100 160 policy ≡ (
        if ltb count 3
        then err too_few_folds
        else ok (make_plan 10 9 policy 140 160 (folds_from policy 100 0 count))))
plan_walk_forward-folds_from_example =
    plan_walk_forward-folds_from sha 9 100 160 policy guarded (omega arith)

plan_walk_forward-IsOrdered_example :
    All (IsOrdered policy plan) plan.folds × AreDisjoint plan.folds
plan_walk_forward-IsOrdered_example =
    plan_walk_forward-IsOrdered sha 9 100 160 policy plan guarded (omega arith) planned

abbrev candidates : List Candidate
candidates =
    record { candidate_id = 3; score = finite (pos 7) }
    ∷ record { candidate_id = 1; score = finite (negsuc 2) }
    ∷ record { candidate_id = 2; score = finite (pos 7) }
    ∷ []

abbrev receipt : SelectionReceipt
receipt = record { selected_candidate_id = 2; validation_plan_sha256 = 5; selection_metric = 1 }

selected : select_candidate (λ p. 5) plan candidates 1 true ≡ Selection.ok receipt
unfolding select_candidate first_sorted precedes
selected = refl

select_candidate-authorize_holdout_example :
    (best : Candidate) × IsIn best candidates
    × All (IsAtLeast true best) candidates
    × (authorize_holdout (λ p. 5) plan receipt 3 ≡ (
        if best.candidate_id == 3
        then Selection.ok plan.final_holdout
        else Selection.err not_selected))
select_candidate-authorize_holdout_example =
    select_candidate-authorize_holdout (λ p. 5) plan candidates 1 true receipt 3 selected
