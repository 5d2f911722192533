-- ===== src/Validation/Selection.antt =====
-- `select_candidate` and `authorize_holdout` of backtest/validation.py. A finite score is a multiple of
-- 2⁻¹⁰⁷⁴, and the count of these stands for it; candidate identifiers are numbered in their order, 0
-- being the empty one.
use aiquant_trader.Prelude.{
  ℕ, ◌≡◌, Bool, true, false, not, ◌&&◌, ◌||◌, List, [], ◌∷◌, leb, ◌==◌, if◌then◌else◌, arith,
}
use aiquant_trader.Prelude.Int.{ℤ, ltb_ℤ}
use aiquant_trader.Validation.Plan.{TimeWindow, ValidationPlan}

pub data SelectionError : Type 0 where
  no_scores empty_metric empty_candidate not_finite wrong_plan not_selected : SelectionError

pub data Result (A : Type 0) : Type 0 where
  ok : A → Result A
  err : SelectionError → Result A

-- A `float`: finite, or an infinity or a NaN.
pub data Score : Type 0 where
  finite : ℤ → Score
  non_finite : Score

pub record Candidate : Type 0 where
  pub candidate_id : ℕ
  pub score : Score

pub record SelectionReceipt : Type 0 where
  pub selected_candidate_id : ℕ
  pub validation_plan_sha256 : ℕ
  pub selection_metric : ℕ

abbrev pub any_empty : List Candidate → Bool
any_empty [] = false
any_empty (c ∷ cs) = c.candidate_id == 0 || any_empty cs

abbrev pub is_finite : Score → Bool
is_finite (finite z) = true
is_finite non_finite = false

abbrev pub any_not_finite : List Candidate → Bool
any_not_finite [] = false
any_not_finite (c ∷ cs) = not (is_finite c.score) || any_not_finite cs

abbrev pub better : Bool → Score → Score → Bool
better maximize (finite x) (finite y) = if maximize then ltb_ℤ y x else ltb_ℤ x y
better maximize _ _ = false

-- The order of the sorting key: the score, negated when it is maximized, then the identifier.
unfoldable pub precedes : Bool → Candidate → Candidate → Bool
precedes maximize a b =
    better maximize a.score b.score
    || (not (better maximize b.score a.score) && leb a.candidate_id b.candidate_id)

-- The first of the sorted candidates.
unfoldable pub first_sorted : Bool → Candidate → List Candidate → Candidate
unfolding precedes
first_sorted maximize c [] = c
first_sorted maximize c (d ∷ ds) =
    let rest = first_sorted maximize d ds in if precedes maximize c rest then c else rest

-- `plan_sha` is the digest of the plan.
unfoldable pub select_candidate :
    (ValidationPlan → ℕ) → ValidationPlan → List Candidate → ℕ → Bool → Result SelectionReceipt
unfolding first_sorted
select_candidate plan_sha plan [] metric maximize = err no_scores
select_candidate plan_sha plan (c ∷ cs) metric maximize =
    if metric == 0
    then err empty_metric
    else if any_empty (c ∷ cs)
    then err empty_candidate
    else if any_not_finite (c ∷ cs)
    then err not_finite
    else ok (record {
      selected_candidate_id = (first_sorted maximize c cs).candidate_id;
      validation_plan_sha256 = plan_sha plan;
      selection_metric = metric;
    })

unfoldable pub authorize_holdout :
    (ValidationPlan → ℕ) → ValidationPlan → SelectionReceipt → ℕ → Result TimeWindow
authorize_holdout plan_sha plan receipt candidate =
    if not (receipt.validation_plan_sha256 == plan_sha plan)
    then err wrong_plan
    else if not (receipt.selected_candidate_id == candidate)
    then err not_selected
    else ok plan.final_holdout

-- A score at least as good.
abbrev pub IsAtLeast : Bool → Candidate → Candidate → Type 0
IsAtLeast maximize best c = better maximize c.score best.score ≡ false

pub better_trans :
    (m : Bool) (x y z : Score)
    → is_finite x ≡ true
    → is_finite y ≡ true
    → is_finite z ≡ true
    → better m y x ≡ false
    → better m z y ≡ false
    → better m z x ≡ false
better_trans m (finite x) (finite y) (finite z) fx fy fz a b = ground arith
better_trans m non_finite y z fx fy fz a b = ground arith
better_trans m (finite x) non_finite z fx fy fz a b = ground arith
better_trans m (finite x) (finite y) non_finite fx fy fz a b = ground arith
