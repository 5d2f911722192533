-- ===== src/Prelude/Sublists.antt =====
-- Subsequences: what is left of a list when elements are taken out and the order is kept.
use mathlib.Core.Logic.{inl, inr}
use mathlib.Core.Bool.{Bool}
use mathlib.Core.List.{List, [], ◌∷◌, ◌++◌, map}
use aiquant_trader.Prelude.Tests.{Bool-cases}
use aiquant_trader.Prelude.Lists.{keep}

pub data Subsequence {ℓ} {A : Type ℓ} : List A → List A → Type ℓ where
  ended : Subsequence [] []
  kept : {xs ys : List A} → (x : A) → Subsequence xs ys → Subsequence (x ∷ xs) (x ∷ ys)
  dropped : {xs ys : List A} → (x : A) → Subsequence xs ys → Subsequence xs (x ∷ ys)

module _ {ℓ} {A : Type ℓ} where
  pub Subsequence-refl : (xs : List A) → Subsequence xs xs
  Subsequence-refl [] = ended
  Subsequence-refl (x ∷ xs) = kept x (Subsequence-refl xs)

  pub Subsequence-trans :
      (xs ys zs : List A) → Subsequence xs ys → Subsequence ys zs → Subsequence xs zs
  Subsequence-trans xs ys [] s ended = s
  Subsequence-trans xs ys (z ∷ zs) s (dropped _ t) = dropped z (Subsequence-trans xs ys zs s t)
  Subsequence-trans (x ∷ xs) (y ∷ ys) (z ∷ zs) (kept _ s) (kept _ t) =
      kept x (Subsequence-trans xs ys zs s t)
  Subsequence-trans xs (y ∷ ys) (z ∷ zs) (dropped _ s) (kept _ t) =
      dropped z (Subsequence-trans xs ys zs s t)

  pub Subsequence-append :
      {xs ys us vs : List A}
      → Subsequence xs ys
      → Subsequence us vs
      → Subsequence (xs ++ us) (ys ++ vs)
  Subsequence-append ended t = t
  Subsequence-append (kept x s) t = kept x (Subsequence-append s t)
  Subsequence-append (dropped x s) t = dropped x (Subsequence-append s t)

  pub Subsequence-map-keep :
      {B : Type ℓ} (f : B → A) (p : B → Bool) (xs : List B)
      → Subsequence (map f (keep p xs)) (map f xs)
  Subsequence-map-keep f p [] = ended
  Subsequence-map-keep f p (x ∷ xs) = elim (Bool-cases (p x)) [
    | inl h ↦ rw h (kept (f x) (Subsequence-map-keep f p xs))
    | inr h ↦ rw h (dropped (f x) (Subsequence-map-keep f p xs))
  ]

  pub Subsequence-skip_last : (xs : List A) (x : A) → Subsequence xs (xs ++ x ∷ [])
  Subsequence-skip_last [] x = dropped x ended
  Subsequence-skip_last (y ∷ ys) x = kept y (Subsequence-skip_last ys x)
