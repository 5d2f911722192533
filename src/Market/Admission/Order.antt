-- ===== src/Market/Admission/Order.antt =====
-- The order in which `build_dataset_manifest` of market_data/admission.py is given the segments.
use mathlib.Core.Path.{subst}
use mathlib.Core.List.{Permᴰ}
use aiquant_trader.Prelude.{
  ℕ, ◌≡◌, refl, sym, ap, ◌∙◌, true, false, inl, inr, List, [], ◌∷◌, ◌==◌, All, arith, Bool-cases,
}
use aiquant_trader.Market.Admission.{
  Segment, not_later, insert_segment, sort_segments, Digests, DataQualityPolicy, admit_ordered,
  build_dataset_manifest,
}

abbrev pub OtherId : Segment → Segment → Type 0
OtherId a b = (b.raw.segment_id == a.raw.segment_id) ≡ false

-- No two segments have the same identifier.
abbrev pub Distinct : List Segment → Type 0
Distinct [] = Unit
Distinct (s ∷ ss) = All (OtherId s) ss × Distinct ss

OtherId-sym : (a b : Segment) → OtherId a b → OtherId b a
OtherId-sym a b h = ground (arith, h)

All-Perm : (P : Segment → Type 0) {xs ys : List Segment} → Permᴰ xs ys → All P xs → All P ys
All-Perm P Permᴰ.nil h = tt
All-Perm P (Permᴰ.cons e d) (a, h) = (subst P e a, All-Perm P d h)
All-Perm P (Permᴰ.swap e f) (a, (b, h)) = (subst P f b, (subst P e a, h))
All-Perm P (Permᴰ.trans d d') h = All-Perm P d' (All-Perm P d h)

later_one : (a b : Segment) → OtherId a b → not_later a b ≡ false → not_later b a ≡ true
later_one a b h q = ground (arith, h, q)

earlier_one : (a b : Segment) → OtherId a b → not_later a b ≡ true → not_later b a ≡ false
earlier_one a b h q = ground (arith, h, q)

not_later_trans :
    (a b c : Segment) → not_later a b ≡ true → not_later b c ≡ true → not_later a c ≡ true
not_later_trans a b c p q = ground (arith, p, q)

between : (a b c : Segment) → not_later b c ≡ true → not_later a c ≡ false → not_later a b ≡ false
between a b c p q = ground (arith, p, q)

insert_earlier :
    (a b : Segment) (xs : List Segment)
    → OtherId a b
    → not_later a b ≡ true
    → insert_segment a (insert_segment b xs) ≡ insert_segment b (insert_segment a xs)
unfolding insert_segment
insert_earlier a b [] h q = rw (q, earlier_one a b h q) refl
insert_earlier a b (x ∷ xs) h q = elim (Bool-cases (not_later b x)) [
  | inl bx ↦ rw (bx, not_later_trans a b x q bx, q, earlier_one a b h q, bx) refl
  | inr bx ↦ elim (Bool-cases (not_later a x)) [
    | inl ax ↦ rw (bx, ax, earlier_one a b h q, bx) refl
    | inr ax ↦ rw (bx, ax, bx) (ap (λ ys. x ∷ ys) (insert_earlier a b xs h q))
  ]
]

insert_comm :
    (a b : Segment) (xs : List Segment)
    → OtherId a b
    → insert_segment a (insert_segment b xs) ≡ insert_segment b (insert_segment a xs)
insert_comm a b xs h = elim (Bool-cases (not_later a b)) [
  | inl q ↦ insert_earlier a b xs h q
  | inr q ↦ sym (insert_earlier b a xs (OtherId-sym a b h) (later_one a b h q))
]

Distinct-Perm : {xs ys : List Segment} → Permᴰ xs ys → Distinct xs → Distinct ys
Distinct-Perm Permᴰ.nil h = tt
Distinct-Perm (Permᴰ.cons {a = a'} {l₂ = ys} e d) (a, h) =
    (subst (λ s. All (OtherId s) ys) e (All-Perm (OtherId a') d a), Distinct-Perm d h)
Distinct-Perm (Permᴰ.swap {a = a} {b = b} {l = l} e f) ((ab, al), (bl, h)) =
    let swapped : Distinct (b ∷ a ∷ l) = ((OtherId-sym a b ab, bl), (al, h)) in
    subst Distinct (λ i. f i ∷ e i ∷ l) swapped
Distinct-Perm (Permᴰ.trans d d') h = Distinct-Perm d' (Distinct-Perm d h)

sort_segments-Perm :
    {xs ys : List Segment} → Permᴰ xs ys → Distinct xs → sort_segments xs ≡ sort_segments ys
unfolding sort_segments
sort_segments-Perm Permᴰ.nil h = refl
sort_segments-Perm (Permᴰ.cons e d) (a, h) = λ i. insert_segment (e i) (sort_segments-Perm d h i)
sort_segments-Perm (Permᴰ.swap {a = a} {b = b} {l = l} e f) ((ab, al), (bl, h)) =
    insert_comm a b (sort_segments l) ab
    ∙ (λ i. insert_segment (f i) (insert_segment (e i) (sort_segments l)))
sort_segments-Perm (Permᴰ.trans d d') h =
    sort_segments-Perm d h ∙ sort_segments-Perm d' (Distinct-Perm d h)

-- If no two segments have the same identifier, the order in which they are given makes no difference: the
-- same manifest with the same identity, or the same error.
pub build_dataset_manifest-Perm :
    (d : Digests) (p : DataQualityPolicy) (created : ℕ) (xs ys : List Segment)
    → Permᴰ xs ys
    → Distinct xs
    → build_dataset_manifest d p created xs ≡ build_dataset_manifest d p created ys
unfolding build_dataset_manifest
build_dataset_manifest-Perm d p created xs ys same h =
    ap (admit_ordered d p created) (sort_segments-Perm same h)
