-- ===== src/Validation/Leakage.antt =====
-- The test windows and the holdout of a walk-forward plan.
use mathlib.Core.Path.{subst}
use aiquant_trader.Prelude.{
  ℕ, zero, suc, ◌+◌, ◌-◌, ◌≤◌, ◌<◌, ◌≡◌, sym, ◌∙◌, Bool, true, false, List, [], ◌∷◌, ltb,
  if◌then◌else◌, All, arith,
}
use aiquant_trader.Validation.Plan.{
  WalkForwardFold, ValidationPolicy, guard_leakage_boundaries, ValidationPlan, span, fold_at, ok,
  err, too_few_folds, make_plan, plan_walk_forward,
}
use aiquant_trader.Validation.Folds.{
  IsGuarded, IsGuarded-of, folds_from, Fits, plan_walk_forward-folds_from,
}

-- In a fold, the purge of the policy and the label horizon pass between training and validation, the
-- embargo of the policy passes between validation and test, and the test ends before the holdout.
pub record IsOrdered (p : ValidationPolicy) (plan : ValidationPlan) (f : WalkForwardFold)
    : Type 0 where
  pub purged : f.train.end_ts_ns + p.purge_ns ≤ f.validation.start_ts_ns
  pub past_horizon : f.train.end_ts_ns + plan.plan_label_horizon_ns ≤ f.validation.start_ts_ns
  pub embargoed : f.validation.end_ts_ns + p.embargo_ns ≤ f.test.start_ts_ns
  pub tested_later : f.validation.end_ts_ns < f.test.start_ts_ns
  pub untouched : f.test.end_ts_ns ≤ plan.final_holdout.start_ts_ns

-- The test windows follow one another without an overlap.
abbrev pub AreDisjoint : List WalkForwardFold → Type 0
AreDisjoint [] = Unit
AreDisjoint (f ∷ fs) =
    All (λ (g : WalkForwardFold). f.test.end_ts_ns ≤ g.test.start_ts_ns) fs × AreDisjoint fs

later_tests :
    (p : ValidationPolicy) (bound cursor n count : ℕ)
    → bound + p.test_ns ≤ cursor + span p
    → All (λ (g : WalkForwardFold). bound ≤ g.test.start_ts_ns) (folds_from p cursor n count)
unfolding fold_at
later_tests p bound cursor n zero h = tt
later_tests p bound cursor n (suc count) h =
    (omega (arith, h), later_tests p bound (cursor + p.step_ns) (n + 1) count (omega (arith, h)))

folds_from-AreDisjoint :
    (p : ValidationPolicy) (cursor n count : ℕ)
    → IsGuarded p
    → AreDisjoint (folds_from p cursor n count)
unfolding fold_at
folds_from-AreDisjoint p cursor n zero g = tt
folds_from-AreDisjoint p cursor n (suc count) g = (
  later_tests p (fold_at p cursor n).test.end_ts_ns (cursor + p.step_ns) (n + 1) count
      (omega (arith, g.disjoint)),
  folds_from-AreDisjoint p (cursor + p.step_ns) (n + 1) count g,
)

folds_from-IsOrdered :
    (sha dataset end_ts holdout : ℕ) (gs : List WalkForwardFold) (p : ValidationPolicy)
    (cursor n count : ℕ)
    → IsGuarded p
    → Fits p holdout cursor count
    → All (IsOrdered p (make_plan sha dataset p holdout end_ts gs)) (folds_from p cursor n count)
unfolding fold_at
folds_from-IsOrdered sha dataset end_ts holdout gs p cursor n zero g f = tt
folds_from-IsOrdered sha dataset end_ts holdout gs p cursor n (suc count) g (room, f) = (
  record {
    purged = omega arith;
    past_horizon = omega (arith, g.horizon);
    embargoed = omega arith;
    tested_later = omega (arith, g.embargo);
    untouched = omega (arith, room);
  },
  folds_from-IsOrdered sha dataset end_ts holdout gs p (cursor + p.step_ns) (n + 1) count g f,
)

-- In a plan made with a valid policy, for a range that is longer than the holdout, no test window
-- overlaps another or the holdout, and in each fold at least `purge_ns` and the label horizon pass
-- between the training and the validation, and at least `embargo_ns`, which is not 0, between the
-- validation and the test.
pub plan_walk_forward-IsOrdered :
    (sha : ValidationPolicy → ℕ) (dataset start end_ts : ℕ) (p : ValidationPolicy)
    (plan : ValidationPlan)
    → guard_leakage_boundaries p ≡ true
    → start < end_ts - p.final_holdout_ns
    → plan_walk_forward sha dataset start end_ts p ≡ ok plan
    → All (IsOrdered p plan) plan.folds × AreDisjoint plan.folds
plan_walk_forward-IsOrdered sha dataset start end_ts p plan guarded room h =
    let (count, fits, e) = plan_walk_forward-folds_from sha dataset start end_ts p guarded room in
    by_count (ltb count p.minimum_folds) count fits (sym e ∙ h)
  where
    holdout : ℕ
    holdout = end_ts - p.final_holdout_ns

    plan_of : ℕ → ValidationPlan
    plan_of count = make_plan (sha p) dataset p holdout end_ts (folds_from p start 0 count)

    by_count :
        (b : Bool) (count : ℕ)
        → Fits p holdout start count
        → (if b then err too_few_folds else ok (plan_of count)) ≡ ok plan
        → All (IsOrdered p plan) plan.folds × AreDisjoint plan.folds
    by_count true count fits q = absurd (never q)
      where
        never : err too_few_folds ≡ ok plan → ⊥
        never e = cc
    by_count false count fits q =
        subst (λ (x : ValidationPlan). All (IsOrdered p x) x.folds × AreDisjoint x.folds) (value q)
          (
            folds_from-IsOrdered (sha p) dataset end_ts holdout (folds_from p start 0 count) p start
                0 count (IsGuarded-of p guarded) fits,
            folds_from-AreDisjoint p start 0 count (IsGuarded-of p guarded),
          )
      where
        value : ok (plan_of count) ≡ ok plan → plan_of count ≡ plan
        value e = cc
