-- ===== src/Validation/Plan.antt =====
-- backtest/models.py, the windows of a validation plan, and `plan_walk_forward` of
-- backtest/validation.py. The validators of the models are tests: false where they raise.
use aiquant_trader.Prelude.{
  ℕ, zero, suc, ◌+◌, ◌-◌, Bool, true, not, ◌&&◌, ◌||◌, List, [], ◌∷◌, length, ltb, leb, ◌==◌,
  if◌then◌else◌,
}

pub data WindowRole : Type 0 where
  train_role purge_role validation_role embargo_role walk_forward_test_role final_holdout_role :
      WindowRole

abbrev pub role_code : WindowRole → ℕ
role_code train_role = 0
role_code purge_role = 1
role_code validation_role = 2
role_code embargo_role = 3
role_code walk_forward_test_role = 4
role_code final_holdout_role = 5

pub record TimeWindow : Type 0 where
  pub role : WindowRole
  pub start_ts_ns : ℕ
  pub end_ts_ns : ℕ

unfoldable pub require_positive_duration : TimeWindow → Bool
require_positive_duration w = ltb 0 w.end_ts_ns && not (leb w.end_ts_ns w.start_ts_ns)

unfoldable pub overlaps : TimeWindow → TimeWindow → Bool
overlaps v w = ltb v.start_ts_ns w.end_ts_ns && ltb w.start_ts_ns v.end_ts_ns

pub record WalkForwardFold : Type 0 where
  pub fold : ℕ
  pub train : TimeWindow
  pub purge : TimeWindow
  pub validation : TimeWindow
  pub embargo : TimeWindow
  pub test : TimeWindow

abbrev pub has_role : WindowRole → TimeWindow → Bool
has_role r w = role_code w.role == role_code r

abbrev pub follows_on : TimeWindow → TimeWindow → Bool
follows_on v w = not (not (v.end_ts_ns == w.start_ts_ns) || overlaps v w)

-- `WalkForwardFold.enforce_order_and_roles`
unfoldable pub enforce_order_and_roles : WalkForwardFold → Bool
unfolding overlaps
enforce_order_and_roles f =
    (has_role train_role f.train
      && has_role purge_role f.purge
      && has_role validation_role f.validation
      && has_role embargo_role f.embargo
      && has_role walk_forward_test_role f.test)
    && (follows_on f.train f.purge
        && follows_on f.purge f.validation
        && follows_on f.validation f.embargo
        && follows_on f.embargo f.test)

pub record ValidationPolicy : Type 0 where
  pub train_ns : ℕ
  pub purge_ns : ℕ
  pub validation_ns : ℕ
  pub embargo_ns : ℕ
  pub test_ns : ℕ
  pub step_ns : ℕ
  pub final_holdout_ns : ℕ
  pub label_horizon_ns : ℕ
  pub minimum_folds : ℕ

-- The bounds of the fields and `ValidationPolicy.guard_leakage_boundaries`.
unfoldable pub guard_leakage_boundaries : ValidationPolicy → Bool
guard_leakage_boundaries p =
    (ltb 0 p.train_ns && ltb 0 p.purge_ns && ltb 0 p.validation_ns && ltb 0 p.embargo_ns)
    && (ltb 0 p.test_ns && ltb 0 p.step_ns && ltb 0 p.final_holdout_ns && ltb 0 p.label_horizon_ns)
    && (leb 1 p.minimum_folds && leb p.label_horizon_ns p.purge_ns && leb p.test_ns p.step_ns)

pub record ValidationPlan : Type 0 where
  pub policy_sha256 : ℕ
  pub dataset_sha256 : ℕ
  pub plan_label_horizon_ns : ℕ
  pub folds : List WalkForwardFold
  pub final_holdout : TimeWindow

abbrev pub all_folds : (WalkForwardFold → Bool) → List WalkForwardFold → Bool
all_folds p [] = true
all_folds p (f ∷ fs) = p f && all_folds p fs

abbrev pub covers_horizon : ℕ → WalkForwardFold → Bool
covers_horizon horizon f = not (ltb (f.purge.end_ts_ns - f.purge.start_ts_ns) horizon)

abbrev pub before_holdout : TimeWindow → WalkForwardFold → Bool
before_holdout h f = not (ltb h.start_ts_ns f.test.end_ts_ns)

-- `ValidationPlan.holdout_is_untouched_by_folds`, with the least length of `folds`.
unfoldable pub holdout_is_untouched_by_folds : ValidationPlan → Bool
holdout_is_untouched_by_folds p =
    not (length p.folds == 0)
    && has_role final_holdout_role p.final_holdout
    && all_folds (covers_horizon p.plan_label_horizon_ns) p.folds
    && all_folds (before_holdout p.final_holdout) p.folds

abbrev pub window : WindowRole → ℕ → ℕ → TimeWindow
window r a b = record { role = r; start_ts_ns = a; end_ts_ns = b }

abbrev pub span : ValidationPolicy → ℕ
span p = p.train_ns + p.purge_ns + p.validation_ns + p.embargo_ns + p.test_ns

-- The fold of an iteration of the loop.
unfoldable pub fold_at : ValidationPolicy → ℕ → ℕ → WalkForwardFold
fold_at p cursor n =
    let train_end = cursor + p.train_ns in
    let purge_end = train_end + p.purge_ns in
    let validation_end = purge_end + p.validation_ns in
    let embargo_end = validation_end + p.embargo_ns in
    let test_end = embargo_end + p.test_ns in
    record {
      fold = n;
      train = window train_role cursor train_end;
      purge = window purge_role train_end purge_end;
      validation = window validation_role purge_end validation_end;
      embargo = window embargo_role validation_end embargo_end;
      test = window walk_forward_test_role embargo_end test_end;
    }

-- The windows of a fold are validated, then the fold.
unfoldable pub valid_fold : WalkForwardFold → Bool
unfolding require_positive_duration enforce_order_and_roles
valid_fold f =
    (require_positive_duration f.train
      && require_positive_duration f.purge
      && require_positive_duration f.validation
      && require_positive_duration f.embargo
      && require_positive_duration f.test)
    && enforce_order_and_roles f

pub data PlanError : Type 0 where
  invalid_range holdout_too_long too_few_folds invalid_model out_of_fuel : PlanError

pub data Result (A : Type 0) : Type 0 where
  ok : A → Result A
  err : PlanError → Result A

infixl 5 ◌>>=◌
abbrev pub ◌>>=◌ : {A B : Type 0} → Result A → (A → Result B) → Result B
ok a >>= f = f a
err e >>= f = err e

-- The `while` loop, from a cursor and a number of folds: the folds that it appends.
unfoldable pub fold_loop : ℕ → ValidationPolicy → ℕ → ℕ → ℕ → Result (List WalkForwardFold)
unfolding fold_at valid_fold
fold_loop zero p holdout cursor n = err out_of_fuel
fold_loop (suc fuel) p holdout cursor n =
    let rest = fold_loop fuel p holdout (cursor + p.step_ns) (n + 1) in
    if ltb holdout (fold_at p cursor n).test.end_ts_ns
    then ok []
    else if not (valid_fold (fold_at p cursor n))
    then err invalid_model
    else do fs ← rest; ok (fold_at p cursor n ∷ fs)

abbrev pub make_plan : ℕ → ℕ → ValidationPolicy → ℕ → ℕ → List WalkForwardFold → ValidationPlan
make_plan policy_sha dataset p holdout end_ts fs = record {
  policy_sha256 = policy_sha;
  dataset_sha256 = dataset;
  plan_label_horizon_ns = p.label_horizon_ns;
  folds = fs;
  final_holdout = window final_holdout_role holdout end_ts;
}

-- `plan_walk_forward`; the length of the dataset is enough fuel, since the cursor grows by at least 1.
unfoldable pub plan_walk_forward :
    (ValidationPolicy → ℕ) → ℕ → ℕ → ℕ → ValidationPolicy → Result ValidationPlan
unfolding fold_loop holdout_is_untouched_by_folds require_positive_duration
plan_walk_forward sha dataset start end_ts p =
    let holdout = end_ts - p.final_holdout_ns in
    if leb end_ts start
    then err invalid_range
    else if leb holdout start
    then err holdout_too_long
    else do
      fs ← fold_loop (suc holdout) p holdout start 0
      if ltb (length fs) p.minimum_folds
          then err too_few_folds
          else let plan = make_plan (sha p) dataset p holdout end_ts fs in
            if require_positive_duration plan.final_holdout && holdout_is_untouched_by_folds plan
            then ok plan
            else err invalid_model
