-- ===== src/Market/Sorted.antt =====
-- Sorted lists, as the validators of domain/market.py and backtest/kernel.py test them.
use aiquant_trader.Prelude.{
  ℕ, zero, suc, ◌≡◌, refl, Bool, true, inl, inr, List, [], ◌∷◌, map, keep, take, All, All-keep,
  All-take, All-implies, arith, Bool-cases,
}
use aiquant_trader.Market.Domain.{is_sorted, every}

module _ {ℓ} {A : Type ℓ} where
  pub every→All : (p : A → Bool) (xs : List A) → every p xs ≡ true → All (λ x. p x ≡ true) xs
  every→All p [] h = tt
  every→All p (x ∷ xs) h = (ground (arith, h), every→All p xs (ground (arith, h)))

  pub All→every : (p : A → Bool) (xs : List A) → All (λ x. p x ≡ true) xs → every p xs ≡ true
  All→every p [] h = refl
  All→every p (x ∷ xs) (a, h) = rw (a, All→every p xs h)

  -- Every element comes before all that follow it.
  abbrev pub Pairwise : (A → A → Bool) → List A → Type ℓ
  Pairwise r [] = Unit
  Pairwise r (x ∷ xs) = All (λ y. r x y ≡ true) xs × Pairwise r xs

  module _ (r : A → A → Bool) where
    pub Pairwise→is_sorted : (xs : List A) → Pairwise r xs → is_sorted r xs ≡ true
    Pairwise→is_sorted [] h = refl
    Pairwise→is_sorted (x ∷ []) h = refl
    Pairwise→is_sorted (x ∷ y ∷ ys) ((a, b), h) = rw (a, Pairwise→is_sorted (y ∷ ys) h)

    pub Pairwise-keep : (p : A → Bool) (xs : List A) → Pairwise r xs → Pairwise r (keep p xs)
    Pairwise-keep p [] h = tt
    Pairwise-keep p (x ∷ xs) (a, h) = elim (Bool-cases (p x)) [
      | inl q ↦ rw q (All-keep _ p xs a, Pairwise-keep p xs h)
      | inr q ↦ rw q (Pairwise-keep p xs h)
    ]

    pub Pairwise-take : (n : ℕ) (xs : List A) → Pairwise r xs → Pairwise r (take n xs)
    Pairwise-take zero xs h = tt
    Pairwise-take (suc n) [] h = tt
    Pairwise-take (suc n) (x ∷ xs) (a, h) = (All-take _ n xs a, Pairwise-take n xs h)

    module _ (trans : (x y z : A) → r x y ≡ true → r y z ≡ true → r x z ≡ true) where
      pub is_sorted→Pairwise : (xs : List A) → is_sorted r xs ≡ true → Pairwise r xs
      is_sorted→Pairwise [] h = tt
      is_sorted→Pairwise (x ∷ []) h = (tt, tt)
      is_sorted→Pairwise (x ∷ y ∷ ys) h =
          let (first, rest) = is_sorted→Pairwise (y ∷ ys) (ground (arith, h)) in
          let before : r x y ≡ true = ground (arith, h) in
          ((before, All-implies (λ z q. trans x y z before q) ys first), (first, rest))

pub All-map {ℓ κ} :
    {A : Type ℓ} {B : Type κ} (P : B → Type 0) (f : A → B) (xs : List A)
    → All (λ x. P (f x)) xs
    → All P (map f xs)
All-map P f [] h = tt
All-map P f (x ∷ xs) (a, h) = (a, All-map P f xs h)

pub Pairwise-map {ℓ κ} :
    {A : Type ℓ} {B : Type κ} (r : B → B → Bool) (f : A → B) (xs : List A)
    → Pairwise (λ x y. r (f x) (f y)) xs
    → Pairwise r (map f xs)
Pairwise-map r f [] h = tt
Pairwise-map r f (x ∷ xs) (a, h) = (All-map _ f xs a, Pairwise-map r f xs h)
