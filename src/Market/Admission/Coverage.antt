-- ===== src/Market/Admission/Coverage.antt =====
-- What the manifest of `build_dataset_manifest` of market_data/admission.py says of the time between its
-- segments.
use mathlib.Core.Path.{subst}
use aiquant_trader.Prelude.{
  ℕ, ◌+◌, ◌-◌, ◌≤◌, ◌<◌, ◌≡◌, refl, ap, ◌⊎◌, Bool, true, false, ◌&&◌, inl, inr, List, [], ◌∷◌, ltb,
  leb, ◌==◌, All, arith, Bool-cases, if_cases, map, ltb→le,
}
use aiquant_trader.Market.Admission.{
  RawSegmentManifest, Segment, DatasetGap, DataQualityPolicy, DatasetManifest, Digests,
  DatasetQualityError, Result, ok, err, ◌>>=◌, raise_if, is_unexplained, not_later, insert_segment,
  sort_segments, check_limits, gap_between, check_gap, find_gaps, admit_ordered,
  build_dataset_manifest,
}

abbrev pub Some {ℓ} : {A : Type ℓ} → (A → Type 0) → List A → Type 0
Some P [] = ⊥
Some P (x ∷ xs) = P x ⊎ Some P xs

-- The instant `t` is in a segment, and in a gap.
abbrev pub IsRecorded : ℕ → Segment → Type 0
IsRecorded t s = (s.raw.started_at_ns ≤ t) × (t ≤ s.raw.ended_at_ns)

abbrev pub IsMissing : ℕ → DatasetGap → Type 0
IsMissing t g = (g.start_ts_ns < t) × (t < g.end_ts_ns)

-- A gap that the policy accepts.
pub record IsAllowed (p : DataQualityPolicy) (g : DatasetGap) : Type 0 where
  pub lasts : g.start_ts_ns + g.duration_ns ≡ g.end_ts_ns
  pub positive : 1 ≤ g.duration_ns
  pub within : g.duration_ns ≤ p.max_classified_gap_ns
  pub explained : is_unexplained g.classification && p.reject_unexplained_gaps ≡ false

module _ (P : Segment → Type 0) where
  skip_into :
      (s x : Segment) (xs rest : List Segment)
      → (Some P (s ∷ xs) → Some P rest)
      → Some P (s ∷ x ∷ xs)
      → Some P (x ∷ rest)
  skip_into s x xs rest f (inl a) = inr (f (inl a))
  skip_into s x xs rest f (inr (inl a)) = inl a
  skip_into s x xs rest f (inr (inr a)) = inr (f (inr a))

  skip_out :
      (s x : Segment) (xs rest : List Segment)
      → (Some P rest → Some P (s ∷ xs))
      → Some P (x ∷ rest)
      → Some P (s ∷ x ∷ xs)
  skip_out s x xs rest f (inl a) = inr (inl a)
  skip_out s x xs rest f (inr h) = elim (f h) [ inl a ↦ inl a | inr a ↦ inr (inr a) ]

  Some-insert_segment :
      (s : Segment) (xs : List Segment)
      → (Some P (s ∷ xs) → Some P (insert_segment s xs))
        × (Some P (insert_segment s xs) → Some P (s ∷ xs))
  unfolding insert_segment
  Some-insert_segment s [] = (λ h. h, λ h. h)
  Some-insert_segment s (x ∷ xs) =
      let (into, out) = Some-insert_segment s xs in
      if_cases (λ ys. (Some P (s ∷ x ∷ xs) → Some P ys) × (Some P ys → Some P (s ∷ x ∷ xs)))
        (not_later s x) (λ q. (λ h. h, λ h. h))
        (λ q.
          (skip_into s x xs (insert_segment s xs) into, skip_out s x xs (insert_segment s xs) out))

  Some-sort_segments :
      (ss : List Segment)
      → (Some P ss → Some P (sort_segments ss)) × (Some P (sort_segments ss) → Some P ss)
  unfolding sort_segments
  Some-sort_segments [] = (λ h. h, λ h. h)
  Some-sort_segments (s ∷ ss) =
      let (into, out) = Some-sort_segments ss in
      let (into', out') = Some-insert_segment s (sort_segments ss) in
      (
        λ h. into' (elim h [ inl a ↦ inl a | inr a ↦ inr (into a) ]),
        λ h. elim (out' h) [ inl a ↦ inl a | inr a ↦ inr (out a) ],
      )

-- The first of the ordered segments starts before any of them.
abbrev StartsBy : ℕ → List Segment → Type 0
StartsBy t [] = ⊥
StartsBy t (s ∷ ss) = s.raw.started_at_ns ≤ t

insert_segment-StartsBy :
    (t : ℕ) (s : Segment) (xs : List Segment)
    → (s.raw.started_at_ns ≤ t) ⊎ StartsBy t xs
    → StartsBy t (insert_segment s xs)
unfolding insert_segment
insert_segment-StartsBy t s [] (inl a) = a
insert_segment-StartsBy t s [] (inr a) = absurd a
insert_segment-StartsBy t s (x ∷ xs) (inl a) =
    if_cases (StartsBy t) (not_later s x) (λ q. a) (λ q. ground (arith, q, a))
insert_segment-StartsBy t s (x ∷ xs) (inr a) =
    if_cases (StartsBy t) (not_later s x) (λ q. ground (arith, q, a)) (λ q. a)

sort_segments-StartsBy :
    (t : ℕ) (ss : List Segment)
    → Some (λ s. s.raw.started_at_ns ≤ t) ss
    → StartsBy t (sort_segments ss)
unfolding sort_segments
sort_segments-StartsBy t (s ∷ ss) (inl a) = insert_segment-StartsBy t s (sort_segments ss) (inl a)
sort_segments-StartsBy t (s ∷ ss) (inr a) =
    insert_segment-StartsBy t s (sort_segments ss) (inr (sort_segments-StartsBy t ss a))
sort_segments-StartsBy t [] h = absurd h

bind_inverse :
    {X Y : Type 0} {y : Y} (next : X → Result Y) (first : Result X)
    → (first >>= next) ≡ ok y
    → (x : X) × (first ≡ ok x) × (next x ≡ ok y)
bind_inverse next (err e) h = absurd (never h)
  where
    never : {Y : Type 0} {y : Y} → err e ≡ ok y → ⊥
    never q = cc
bind_inverse next (ok x) h = (x, refl, h)

ok_injective : {X : Type 0} {x y : X} → ok x ≡ ok y → x ≡ y
ok_injective q = cc

raise_if-ok : (b : Bool) (e : DatasetQualityError) (r : Bool) → raise_if b e ≡ ok r → b ≡ false
raise_if-ok true e r h = absurd (never h)
  where
    never : err e ≡ ok r → ⊥
    never q = cc
raise_if-ok false e r h = refl

check_gap-IsAllowed :
    (p : DataQualityPolicy) (a b : RawSegmentManifest) (r : Bool)
    → a.ended_at_ns < b.started_at_ns
    → check_gap p (gap_between a b) ≡ ok r
    → IsAllowed p (gap_between a b)
check_gap-IsAllowed p a b r later h =
    let (x, explained, within) = bind_inverse _ _ h in
    record {
      lasts = omega (arith, later);
      positive = omega (arith, later);
      within = ltb→le _ _ (raise_if-ok _ _ r within);
      explained = raise_if-ok _ _ x explained;
    }

-- What a successful search found behind `s`: no gap before `x`, or one that is allowed.
data Found (p : DataQualityPolicy) (s x : RawSegmentManifest) (xs : List Segment)
    (gs : List DatasetGap) : Type 0 where
  adjacent : x.started_at_ns ≤ s.ended_at_ns → find_gaps p x xs ≡ ok gs → Found p s x xs gs
  apart :
      (rest : List DatasetGap)
      → s.ended_at_ns < x.started_at_ns
      → IsAllowed p (gap_between s x)
      → find_gaps p x xs ≡ ok rest
      → gap_between s x ∷ rest ≡ gs
      → Found p s x xs gs

find_gaps-Found :
    (p : DataQualityPolicy) (s : RawSegmentManifest) (x : Segment) (xs : List Segment)
    (gs : List DatasetGap)
    → find_gaps p s (x ∷ xs) ≡ ok gs
    → Found p s x.raw xs gs
unfolding find_gaps
find_gaps-Found p s x xs gs h =
    if_cases (λ r. r ≡ ok gs → Found p s x.raw xs gs) (x.raw.started_at_ns - s.ended_at_ns == 0)
      (λ q k. adjacent (ground (arith, q)) k)
      (λ q k.
        let later : s.ended_at_ns < x.raw.started_at_ns = ground (arith, q) in
        let (r, checked, k') =
          bind_inverse
            (λ _.
              find_gaps p x.raw xs >>= λ (gaps : List DatasetGap). ok (gap_between s x.raw ∷ gaps))
            (check_gap p (gap_between s x.raw)) k in
        let (rest, found, done) =
          bind_inverse (λ (gaps : List DatasetGap). ok (gap_between s x.raw ∷ gaps))
            (find_gaps p x.raw xs) k' in
        apart rest later (check_gap-IsAllowed p s x.raw r later checked) found (ok_injective done))
      h

find_gaps-IsAllowed :
    (p : DataQualityPolicy) (s : RawSegmentManifest) (ss : List Segment) (gs : List DatasetGap)
    → find_gaps p s ss ≡ ok gs
    → All (IsAllowed p) gs
unfolding find_gaps
find_gaps-IsAllowed p s [] gs h = subst (All (IsAllowed p)) (ok_injective h) tt
find_gaps-IsAllowed p s (x ∷ xs) gs h = elim (find_gaps-Found p s x xs gs h) [
  | adjacent q k ↦ find_gaps-IsAllowed p x.raw xs gs k
  | apart rest q a k e ↦ subst (All (IsAllowed p)) e (a, find_gaps-IsAllowed p x.raw xs rest k)
]

module _ (p : DataQualityPolicy) (t : ℕ) where
  abbrev IsCovered : List Segment → List DatasetGap → Type 0
  IsCovered ss gs = Some (IsRecorded t) ss ⊎ Some (IsMissing t) gs

  later :
      (s : Segment) (ss : List Segment) (gs : List DatasetGap)
      → IsCovered ss gs
      → IsCovered (s ∷ ss) gs
  later s ss gs (inl a) = inl (inr a)
  later s ss gs (inr a) = inr a

  find_gaps-covers :
      (s : Segment) (ss : List Segment) (gs : List DatasetGap)
      → find_gaps p s.raw ss ≡ ok gs
      → s.raw.started_at_ns ≤ t
      → Some (λ x. t ≤ x.raw.ended_at_ns) (s ∷ ss)
      → IsCovered (s ∷ ss) gs
  find_gaps-covers s ss gs h from (inl to) = inl (inl (from, to))
  find_gaps-covers s (x ∷ xs) gs h from (inr to) = elim (Bool-cases (leb t s.raw.ended_at_ns)) [
    | inl q ↦ inl (inl (from, ground (arith, q)))
    | inr after ↦ elim (find_gaps-Found p s.raw x xs gs h) [
      | adjacent q k ↦
          later s (x ∷ xs) gs (find_gaps-covers x xs gs k (ground (arith, q, after)) to)
      | apart rest q a k e ↦ elim (Bool-cases (ltb t x.raw.started_at_ns)) [
        | inl before ↦
            subst (IsCovered (s ∷ x ∷ xs)) e
              (inr (inl (ground (arith, after), ground (arith, before))))
        | inr reached ↦ subst (IsCovered (s ∷ x ∷ xs)) e (
            later s (x ∷ xs) (gap_between s.raw x.raw ∷ rest) (
              wider (x ∷ xs) (gap_between s.raw x.raw) rest
                (find_gaps-covers x xs rest k (ground (arith, reached)) to)))
      ]
    ]
  ]
    where
      wider :
          (ss : List Segment) (g : DatasetGap) (gs : List DatasetGap)
          → IsCovered ss gs
          → IsCovered ss (g ∷ gs)
      wider ss g gs (inl a) = inl a
      wider ss g gs (inr a) = inr (inr a)
  find_gaps-covers s [] gs h from (inr to) = absurd to

admit_ordered-covers :
    (d : Digests) (p : DataQualityPolicy) (created : ℕ) (os : List Segment) (m : DatasetManifest)
    (t : ℕ)
    → admit_ordered d p created os ≡ ok m
    → StartsBy t os
    → Some (λ s. t ≤ s.raw.ended_at_ns) os
    → (Some (IsRecorded t) os ⊎ Some (IsMissing t) m.gaps) × All (IsAllowed p) m.gaps
unfolding admit_ordered
admit_ordered-covers d p created [] m t h from to = absurd from
admit_ordered-covers d p created (s ∷ ss) m t h from to =
    let (c, counted, h') =
      bind_inverse (λ _. find_gaps p s.raw ss >>= build) (check_limits p (s ∷ ss)) h in
    let (gs, found, done) = bind_inverse build (find_gaps p s.raw ss) h' in
    let gaps = ap (λ (x : DatasetManifest). x.gaps) (ok_injective done) in
    subst (λ g. (Some (IsRecorded t) (s ∷ ss) ⊎ Some (IsMissing t) g) × All (IsAllowed p) g) gaps
      (find_gaps-covers p t s ss gs found from to, find_gaps-IsAllowed p s.raw ss gs found)
  where
    build : List DatasetGap → Result DatasetManifest
    build gaps =
        let hashes = map (λ (x : Segment). d.normalized_sha256 x.normalized) (s ∷ ss) in
        ok (record {
          dataset_id = d.identity_sha256 hashes (d.policy_digest p) gaps;
          normalized_manifest_sha256s = hashes;
          policy_sha256 = d.policy_digest p;
          gaps = gaps;
          created_at = created;
        })

-- A manifest that is built leaves no time out: every instant that is not before all segments and not
-- after all of them is in a segment or inside a gap of the manifest. Each of its gaps has the length that
-- it states, which is positive and within the policy, and is explained if the policy asks for it.
pub build_dataset_manifest-covers :
    (d : Digests) (p : DataQualityPolicy) (created : ℕ) (ss : List Segment) (m : DatasetManifest)
    (t : ℕ)
    → build_dataset_manifest d p created ss ≡ ok m
    → Some (λ s. s.raw.started_at_ns ≤ t) ss
    → Some (λ s. t ≤ s.raw.ended_at_ns) ss
    → (Some (IsRecorded t) ss ⊎ Some (IsMissing t) m.gaps) × All (IsAllowed p) m.gaps
unfolding build_dataset_manifest
build_dataset_manifest-covers d p created ss m t h from to =
    let (covered, allowed) =
      admit_ordered-covers d p created (sort_segments ss) m t h (sort_segments-StartsBy t ss from)
        ((Some-sort_segments (λ s. t ≤ s.raw.ended_at_ns) ss).0 to) in
    (
      elim covered [ inl a ↦ inl ((Some-sort_segments (IsRecorded t) ss).1 a) | inr a ↦ inr a ],
      allowed,
    )
