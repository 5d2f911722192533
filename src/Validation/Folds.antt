-- ===== src/Validation/Folds.antt =====
-- The folds of a walk-forward plan, against a direct description of them.
use mathlib.Core.Path.{subst}
use aiquant_trader.Prelude.{
  ℕ, zero, suc, ◌+◌, ◌-◌, ◌≤◌, ◌<◌, ◌≡◌, refl, sym, ap, inl, inr, Bool, true, false, ◌&&◌, List, [],
  ◌∷◌, length, ltb, leb, if◌then◌else◌, arith, Bool-cases,
}
use aiquant_trader.Validation.Plan.{
  require_positive_duration, overlaps, final_holdout_role, WalkForwardFold, enforce_order_and_roles,
  ValidationPolicy, guard_leakage_boundaries, ValidationPlan, all_folds, covers_horizon,
  before_holdout, holdout_is_untouched_by_folds, window, span, fold_at, valid_fold, ok, err,
  too_few_folds, invalid_model, fold_loop, make_plan, plan_walk_forward,
}

-- The policy's bounds, as propositions.
pub record IsGuarded (p : ValidationPolicy) : Type 0 where
  pub train : 0 < p.train_ns
  pub purge : 0 < p.purge_ns
  pub validation : 0 < p.validation_ns
  pub embargo : 0 < p.embargo_ns
  pub test : 0 < p.test_ns
  pub step : 0 < p.step_ns
  pub minimum : 1 ≤ p.minimum_folds
  pub horizon : p.label_horizon_ns ≤ p.purge_ns
  pub disjoint : p.test_ns ≤ p.step_ns

pub IsGuarded-of : (p : ValidationPolicy) → guard_leakage_boundaries p ≡ true → IsGuarded p
unfolding guard_leakage_boundaries
IsGuarded-of p h = record {
  train = ground arith;
  purge = ground arith;
  validation = ground arith;
  embargo = ground arith;
  test = ground arith;
  step = ground arith;
  minimum = ground arith;
  horizon = ground arith;
  disjoint = ground arith;
}

-- `count` folds, each a step after the one before.
abbrev pub folds_from : ValidationPolicy → ℕ → ℕ → ℕ → List WalkForwardFold
folds_from p cursor n zero = []
folds_from p cursor n (suc count) =
    fold_at p cursor n ∷ folds_from p (cursor + p.step_ns) (n + 1) count

-- So many folds fit before the holdout, and no more.
abbrev pub Fits : ValidationPolicy → ℕ → ℕ → ℕ → Type 0
Fits p holdout cursor zero = holdout < cursor + span p
Fits p holdout cursor (suc count) =
    (cursor + span p ≤ holdout) × Fits p holdout (cursor + p.step_ns) count

abbrev test_end : ValidationPolicy → ℕ → ℕ → ℕ
test_end p cursor n = (fold_at p cursor n).test.end_ts_ns

test_end-span : (p : ValidationPolicy) (cursor n : ℕ) → test_end p cursor n ≡ cursor + span p
unfolding fold_at
test_end-span p cursor n = omega arith

fold_at-valid_fold :
    (p : ValidationPolicy) (cursor n : ℕ) → IsGuarded p → valid_fold (fold_at p cursor n) ≡ true
unfolding fold_at valid_fold require_positive_duration enforce_order_and_roles overlaps
fold_at-valid_fold p cursor n g = ground (arith, g.train, g.purge, g.validation, g.embargo, g.test)

fold_loop-folds_from :
    (fuel : ℕ) (p : ValidationPolicy) (holdout cursor n : ℕ)
    → IsGuarded p
    → 0 < fuel
    → holdout < cursor + fuel
    → (count : ℕ) × Fits p holdout cursor count
      × (fold_loop fuel p holdout cursor n ≡ ok (folds_from p cursor n count))
unfolding fold_loop
fold_loop-folds_from zero p holdout cursor n g some_fuel enough = absurd (omega (arith, some_fuel))
fold_loop-folds_from (suc fuel) p holdout cursor n g some_fuel enough =
    elim (Bool-cases (ltb holdout (test_end p cursor n))) [
      | inl stop ↦ (0, ground (arith, test_end-span p cursor n), rw stop refl)
      | inr go ↦
          let room : cursor + span p ≤ holdout = ground (arith, test_end-span p cursor n) in
          let (count, fits, rest) =
            fold_loop-folds_from fuel p holdout (cursor + p.step_ns) (n + 1) g
              (omega (arith, room, enough, g.train)) (omega (arith, enough, g.step)) in
          (suc count, (room, fits), rw (go, fold_at-valid_fold p cursor n g, rest))
    ]

length-folds_from :
    (p : ValidationPolicy) (cursor n count : ℕ) → length (folds_from p cursor n count) ≡ count
length-folds_from p cursor n zero = refl
length-folds_from p cursor n (suc count) =
    ap suc (length-folds_from p (cursor + p.step_ns) (n + 1) count)

covers_horizon-folds_from :
    (p : ValidationPolicy) (cursor n count : ℕ)
    → IsGuarded p
    → all_folds (covers_horizon p.label_horizon_ns) (folds_from p cursor n count) ≡ true
unfolding fold_at
covers_horizon-folds_from p cursor n zero g = refl
covers_horizon-folds_from p cursor n (suc count) g =
    ground (arith, g.horizon, covers_horizon-folds_from p (cursor + p.step_ns) (n + 1) count g)

before_holdout-folds_from :
    (p : ValidationPolicy) (holdout end_ts cursor n count : ℕ)
    → Fits p holdout cursor count
    → all_folds
        (before_holdout (window final_holdout_role holdout end_ts))
        (folds_from p cursor n count)
      ≡ true
unfolding fold_at
before_holdout-folds_from p holdout end_ts cursor n zero f = refl
before_holdout-folds_from p holdout end_ts cursor n (suc count) (room, f) =
    ground
      (arith, room, before_holdout-folds_from p holdout end_ts (cursor + p.step_ns) (n + 1) count f)

plan-holds :
    (sha : ℕ) (dataset start end_ts : ℕ) (p : ValidationPolicy) (count : ℕ)
    → IsGuarded p
    → start < end_ts - p.final_holdout_ns
    → 0 < p.final_holdout_ns
    → Fits p (end_ts - p.final_holdout_ns) start count
    → p.minimum_folds ≤ count
    → (require_positive_duration (window final_holdout_role (end_ts - p.final_holdout_ns) end_ts)
        && holdout_is_untouched_by_folds (
            make_plan sha dataset p
              (end_ts - p.final_holdout_ns)
              end_ts
              (folds_from p start 0 count)))
      ≡ true
unfolding require_positive_duration holdout_is_untouched_by_folds
plan-holds sha dataset start end_ts p count g room positive fits many = ground (
  arith,
  g.minimum,
  length-folds_from p start 0 count,
  covers_horizon-folds_from p start 0 count g,
  before_holdout-folds_from p (end_ts - p.final_holdout_ns) end_ts start 0 count fits,
)

-- For a valid policy and a dataset that reaches beyond its holdout, planning always ends, and never in
-- a failed validation: the folds are exactly those of the reference description, as many as fit before
-- the holdout; if they are fewer than the policy's minimum, that is the error, else they are the plan.
pub plan_walk_forward-folds_from :
    (sha : ValidationPolicy → ℕ) (dataset start end_ts : ℕ) (p : ValidationPolicy)
    → guard_leakage_boundaries p ≡ true
    → start < end_ts - p.final_holdout_ns
    → (count : ℕ) × Fits p (end_ts - p.final_holdout_ns) start count
      × (plan_walk_forward sha dataset start end_ts p ≡ (
          if ltb count p.minimum_folds
          then err too_few_folds
          else ok (
              make_plan
                (sha p)
                dataset
                p
                (end_ts - p.final_holdout_ns)
                end_ts
                (folds_from p start 0 count))))
unfolding plan_walk_forward
plan_walk_forward-folds_from sha dataset start end_ts p guarded room =
    let g = IsGuarded-of p guarded in
    let (count, fits, e) =
      fold_loop-folds_from (suc (end_ts - p.final_holdout_ns)) p (end_ts - p.final_holdout_ns) start
        0 g (omega arith) (omega arith) in
    (count, fits, finish count fits e)
  where
    not_early : leb end_ts start ≡ false
    not_early = ground (arith, room)

    not_long : leb (end_ts - p.final_holdout_ns) start ≡ false
    not_long = ground (arith, room)

    plan_of : ℕ → ValidationPlan
    plan_of count =
        make_plan (sha p) dataset p (end_ts - p.final_holdout_ns) end_ts
          (folds_from p start 0 count)

    checked : ℕ → Bool
    checked count =
        require_positive_duration (window final_holdout_role (end_ts - p.final_holdout_ns) end_ts)
        && holdout_is_untouched_by_folds (plan_of count)

    by_count :
        (b : Bool) (count : ℕ)
        → ltb count p.minimum_folds ≡ b
        → Fits p (end_ts - p.final_holdout_ns) start count
        → (if b
            then err too_few_folds
            else if checked count
            then ok (plan_of count)
            else err invalid_model)
          ≡ (if b then err too_few_folds else ok (plan_of count))
    by_count true count e fits = refl
    by_count false count e fits = rw (
        plan-holds (sha p) dataset start end_ts p count (IsGuarded-of p guarded) room
          (unfold guard_leakage_boundaries in ground arith) fits (ground (arith, e)))

    finish :
        (count : ℕ)
        → Fits p (end_ts - p.final_holdout_ns) start count
        → fold_loop (suc (end_ts - p.final_holdout_ns)) p (end_ts - p.final_holdout_ns) start 0
          ≡ ok (folds_from p start 0 count)
        → plan_walk_forward sha dataset start end_ts p
          ≡ (if ltb count p.minimum_folds then err too_few_folds else ok (plan_of count))
    finish count fits e =
        rw (not_early, not_long, e)
          (subst
            (λ n.
              (if ltb n p.minimum_folds
                then err too_few_folds
                else if checked count
                then ok (plan_of count)
                else err invalid_model)
              ≡ (if ltb count p.minimum_folds then err too_few_folds else ok (plan_of count)))
            (sym (length-folds_from p start 0 count))
            (by_count (ltb count p.minimum_folds) count refl fits))
