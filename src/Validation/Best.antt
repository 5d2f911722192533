-- ===== src/Validation/Best.antt =====
-- The selection of a candidate and the authorization of the holdout, together.
use aiquant_trader.Prelude.{
  ℕ, ◌≡◌, refl, ap, ◌∙◌, ◌⊎◌, inl, inr, Bool, true, false, List, [], ◌∷◌, ◌==◌, if◌then◌else◌, All,
  arith,
}
use aiquant_trader.Validation.Plan.{ValidationPlan}
use aiquant_trader.Validation.Selection.{
  ok, err, not_selected, Score, finite, non_finite, Candidate, SelectionReceipt, is_finite,
  any_not_finite, better, precedes, first_sorted, select_candidate, authorize_holdout, IsAtLeast,
  better_trans,
}

abbrev pub IsIn : Candidate → List Candidate → Type 0
IsIn c [] = ⊥
IsIn c (d ∷ ds) = (c ≡ d) ⊎ IsIn c ds

abbrev AreFinite : List Candidate → Type 0
AreFinite cs = All (λ (c : Candidate). is_finite c.score ≡ true) cs

-- A property that the head or the first of the rest has, as the order decides.
first_sorted-cases :
    (P : Candidate → Type 0) (m : Bool) (c d : Candidate) (ds : List Candidate)
    → (precedes m c (first_sorted m d ds) ≡ true → P c)
    → (precedes m c (first_sorted m d ds) ≡ false → P (first_sorted m d ds))
    → P (first_sorted m c (d ∷ ds))
unfolding first_sorted
first_sorted-cases P m c d ds head tail = by_order (precedes m c (first_sorted m d ds)) refl
  where
    by_order :
        (b : Bool)
        → precedes m c (first_sorted m d ds) ≡ b
        → P (if b then c else first_sorted m d ds)
    by_order true e = head e
    by_order false e = tail e

first_sorted-IsIn :
    (m : Bool) (c : Candidate) (cs : List Candidate) → IsIn (first_sorted m c cs) (c ∷ cs)
first_sorted-IsIn m c [] = inl (unfold first_sorted in refl)
first_sorted-IsIn m c (d ∷ ds) =
    first_sorted-cases (λ x. IsIn x (c ∷ d ∷ ds)) m c d ds (λ q. inl refl)
      (λ q. inr (first_sorted-IsIn m d ds))

in_finite :
    (c : Candidate) (cs : List Candidate) → IsIn c cs → AreFinite cs → is_finite c.score ≡ true
in_finite c [] i f = absurd i
in_finite c (d ∷ ds) (inl e) (f, fs) = ap (λ (x : Candidate). is_finite x.score) e ∙ f
in_finite c (d ∷ ds) (inr i) (f, fs) = in_finite c ds i fs

better_irrefl : (m : Bool) (x : Score) → better m x x ≡ false
better_irrefl m (finite x) = ground arith
better_irrefl m non_finite = refl

precedes-better :
    (m : Bool) (a b : Candidate) → precedes m a b ≡ true → better m b.score a.score ≡ false
unfolding precedes
precedes-better m a b h = asym a.score b.score refl refl
  where
    asym : (x y : Score) → a.score ≡ x → b.score ≡ y → better m b.score a.score ≡ false
    asym (finite x) (finite y) p q = ground (arith, p, q)
    asym non_finite y p q = rw (p, q) (worst y)
      where
        worst : (z : Score) → better m z non_finite ≡ false
        worst (finite z) = refl
        worst non_finite = refl
    asym (finite x) non_finite p q = rw (p, q) refl

AreAtLeast-trans :
    (m : Bool) (c best : Candidate)
    → is_finite c.score ≡ true
    → is_finite best.score ≡ true
    → better m best.score c.score ≡ false
    → (es : List Candidate) → AreFinite es
    → All (IsAtLeast m best) es
    → All (IsAtLeast m c) es
AreAtLeast-trans m c best fc fb above [] g h = tt
AreAtLeast-trans m c best fc fb above (e ∷ es) (g, gs) (h, hs) = (
  better_trans m c.score best.score e.score fc fb g above h,
  AreAtLeast-trans m c best fc fb above es gs hs,
)

first_sorted-IsAtLeast :
    (m : Bool) (c : Candidate) (cs : List Candidate)
    → AreFinite (c ∷ cs)
    → All (IsAtLeast m (first_sorted m c cs)) (c ∷ cs)
first_sorted-IsAtLeast m c [] f = (unfold first_sorted in better_irrefl m c.score, tt)
first_sorted-IsAtLeast m c (d ∷ ds) (f, fs) =
    first_sorted-cases (λ x. All (IsAtLeast m x) (c ∷ d ∷ ds)) m c d ds
      (λ q. (
        better_irrefl m c.score,
        AreAtLeast-trans m c (first_sorted m d ds) f
            (in_finite (first_sorted m d ds) (d ∷ ds) (first_sorted-IsIn m d ds) fs)
            (precedes-better m c (first_sorted m d ds) q) (d ∷ ds) fs
            (first_sorted-IsAtLeast m d ds fs),
      ))
      (λ q. (not_better q, first_sorted-IsAtLeast m d ds fs))
  where
    not_better :
        precedes m c (first_sorted m d ds) ≡ false
        → better m c.score (first_sorted m d ds).score ≡ false
    not_better q = unfold precedes in ground arith

AreFinite-of : (cs : List Candidate) → any_not_finite cs ≡ false → AreFinite cs
AreFinite-of [] h = tt
AreFinite-of (c ∷ cs) h = (ground arith, AreFinite-of cs (ground arith))

-- A selection is of one of the candidates, and no candidate has a better score; and with its receipt
-- the holdout of the same plan is opened for that candidate and refused to any other.
pub select_candidate-authorize_holdout :
    (plan_sha : ValidationPlan → ℕ) (plan : ValidationPlan) (cs : List Candidate) (metric : ℕ)
    (m : Bool) (receipt : SelectionReceipt) (candidate : ℕ)
    → select_candidate plan_sha plan cs metric m ≡ ok receipt
    → (best : Candidate) × IsIn best cs
      × All (IsAtLeast m best) cs
      × (authorize_holdout plan_sha plan receipt candidate
          ≡ (if best.candidate_id == candidate then ok plan.final_holdout else err not_selected))
unfolding select_candidate authorize_holdout
select_candidate-authorize_holdout plan_sha plan [] metric m receipt candidate h = ground arith
select_candidate-authorize_holdout plan_sha plan (c ∷ cs) metric m receipt candidate h = (
  first_sorted m c cs,
  first_sorted-IsIn m c cs,
  first_sorted-IsAtLeast m c cs (AreFinite-of (c ∷ cs) (ground arith)),
  opened,
)
  where
    selected : (first_sorted m c cs).candidate_id ≡ receipt.selected_candidate_id
    selected = ground arith

    bound : receipt.validation_plan_sha256 ≡ plan_sha plan
    bound = ground arith

    opened : authorize_holdout plan_sha plan receipt candidate ≡ (
        if (first_sorted m c cs).candidate_id == candidate
        then ok plan.final_holdout
        else err not_selected)
    opened = rw (bound, selected) (ground arith)
