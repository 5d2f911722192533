-- ===== src/Market/Admission.antt =====
-- market_data/admission.py: `build_dataset_manifest` and `_classify_gap`, over the manifests of
-- domain/data.py. Identifiers of segments are natural numbers in the order of their texts. The SHA-256
-- of a manifest, of the policy and of the identity of a dataset are parameters, and so is the time of
-- creation.
mod Order
mod Coverage
mod Tests
use aiquant_trader.Prelude.{
  ℕ, ◌+◌, ◌-◌, ◌≡◌, Bool, true, false, not, ◌&&◌, ◌||◌, Option, none, some, List, [], ◌∷◌, ◌++◌,
  map, ltb, leb, ◌==◌, if◌then◌else◌, length, keep,
}
use aiquant_trader.Market.Integrity.{
  QualityIssue, QualityIssueKind, schema_error, duplicate, timestamp_regression, crossed_book,
  silence, reconnect, cadence_anomaly, disk_pressure, unexplained_gap,
}

pub data SegmentFinalizationReason : Type 0 where
  rotation disconnect shutdown stale_feed full_disk error : SegmentFinalizationReason

pub data GapClassification : Type 0 where
  planned_rotation recorder_restart venue_disconnect stale_feed_recovery : GapClassification
  disk_pressure_gap unexplained : GapClassification

-- The fields of `RawSegmentManifest` that the admission reads.
pub record RawSegmentManifest : Type 0 where
  pub segment_id : ℕ
  pub started_at_ns : ℕ
  pub ended_at_ns : ℕ
  pub finalization_reason : SegmentFinalizationReason

-- `NormalizedSegmentManifest`: its issues, and the rest of it.
pub record NormalizedSegmentManifest : Type 0 where
  pub issues : List QualityIssue
  pub contents : ℕ

pub record Segment : Type 0 where
  pub raw : RawSegmentManifest
  pub normalized : NormalizedSegmentManifest

pub record DatasetGap : Type 0 where
  pub start_ts_ns : ℕ
  pub end_ts_ns : ℕ
  pub duration_ns : ℕ
  pub classification : GapClassification
  pub previous_segment_id : ℕ
  pub next_segment_id : ℕ

pub record DataQualityPolicy : Type 0 where
  pub max_classified_gap_ns : ℕ
  pub max_schema_errors : ℕ
  pub max_crossed_books : ℕ
  pub max_timestamp_regressions : ℕ
  pub max_duplicates : ℕ
  pub reject_unexplained_gaps : Bool

pub record DatasetManifest : Type 0 where
  pub dataset_id : ℕ
  pub normalized_manifest_sha256s : List ℕ
  pub policy_sha256 : ℕ
  pub gaps : List DatasetGap
  pub created_at : ℕ

pub record Digests : Type 0 where
  pub normalized_sha256 : NormalizedSegmentManifest → ℕ
  pub policy_digest : DataQualityPolicy → ℕ
  pub identity_sha256 : List ℕ → ℕ → List DatasetGap → ℕ

pub data DatasetQualityError : Type 0 where
  no_segment : DatasetQualityError
  count_exceeds : QualityIssueKind → ℕ → DatasetQualityError
  unexplained_recorder_gap : DatasetQualityError
  gap_exceeds : ℕ → DatasetQualityError

pub data Result (A : Type 0) : Type 0 where
  ok : A → Result A
  err : DatasetQualityError → Result A

infixl 5 ◌>>=◌
abbrev pub ◌>>=◌ : {A B : Type 0} → Result A → (A → Result B) → Result B
ok a >>= f = f a
err e >>= f = err e

abbrev pub raise_if : Bool → DatasetQualityError → Result Bool
raise_if true e = err e
raise_if false e = ok true

-- `_classify_gap`
unfoldable pub classify_gap : RawSegmentManifest → GapClassification
classify_gap previous = elim previous.finalization_reason [
  | rotation ↦ planned_rotation
  | disconnect ↦ venue_disconnect
  | shutdown ↦ recorder_restart
  | stale_feed ↦ stale_feed_recovery
  | full_disk ↦ disk_pressure_gap
  | error ↦ unexplained
]

abbrev pub is_unexplained : GapClassification → Bool
is_unexplained unexplained = true
is_unexplained _ = false

-- The order of the key `(started_at_ns, segment_id)`: not after.
abbrev pub not_later : Segment → Segment → Bool
not_later a b =
    ltb a.raw.started_at_ns b.raw.started_at_ns
    || (a.raw.started_at_ns == b.raw.started_at_ns && leb a.raw.segment_id b.raw.segment_id)

unfoldable pub insert_segment : Segment → List Segment → List Segment
insert_segment s [] = s ∷ []
insert_segment s (x ∷ xs) =
    let rest = insert_segment s xs in if not_later s x then s ∷ x ∷ xs else x ∷ rest

unfoldable pub sort_segments : List Segment → List Segment
unfolding insert_segment
sort_segments [] = []
sort_segments (s ∷ ss) = insert_segment s (sort_segments ss)

abbrev pub kind_code : QualityIssueKind → ℕ
kind_code schema_error = 0
kind_code duplicate = 1
kind_code timestamp_regression = 2
kind_code crossed_book = 3
kind_code silence = 4
kind_code reconnect = 5
kind_code cadence_anomaly = 6
kind_code disk_pressure = 7
kind_code unexplained_gap = 8

abbrev pub count_kind : QualityIssueKind → List QualityIssue → ℕ
count_kind k is = length (keep (λ (i : QualityIssue). kind_code i.kind == kind_code k) is)

-- `issue_counts[kind]`
unfoldable pub count_issues : QualityIssueKind → List Segment → ℕ
count_issues k [] = 0
count_issues k (s ∷ ss) = count_kind k s.normalized.issues + count_issues k ss

abbrev pub check_count : QualityIssueKind → ℕ → List Segment → Result Bool
check_count k limit ss =
    raise_if (ltb limit (count_issues k ss)) (count_exceeds k (count_issues k ss))

-- The loop over `limits`, in the order of the dictionary.
unfoldable pub check_limits : DataQualityPolicy → List Segment → Result Bool
unfolding count_issues
check_limits p ss = do
  _ ← check_count schema_error p.max_schema_errors ss
  _ ← check_count crossed_book p.max_crossed_books ss
  _ ← check_count timestamp_regression p.max_timestamp_regressions ss
  check_count duplicate p.max_duplicates ss

abbrev pub gap_between : RawSegmentManifest → RawSegmentManifest → DatasetGap
gap_between a b = record {
  start_ts_ns = a.ended_at_ns;
  end_ts_ns = b.started_at_ns;
  duration_ns = b.started_at_ns - a.ended_at_ns;
  classification = classify_gap a;
  previous_segment_id = a.segment_id;
  next_segment_id = b.segment_id;
}

abbrev pub check_gap : DataQualityPolicy → DatasetGap → Result Bool
check_gap p g = do
  _ ←
      raise_if (is_unexplained g.classification && p.reject_unexplained_gaps)
        unexplained_recorder_gap
  raise_if (ltb p.max_classified_gap_ns g.duration_ns) (gap_exceeds g.duration_ns)

-- The loop over the pairs of neighbours, after the segment `previous`.
unfoldable pub find_gaps :
    DataQualityPolicy → RawSegmentManifest → List Segment → Result (List DatasetGap)
unfolding classify_gap
find_gaps p previous [] = ok []
find_gaps p previous (s ∷ ss) =
    let rest = find_gaps p s.raw ss in
    if s.raw.started_at_ns - previous.ended_at_ns == 0 then rest else do
      _ ← check_gap p (gap_between previous s.raw)
      gaps ← rest
      ok (gap_between previous s.raw ∷ gaps)

-- The rest of the function, on the ordered segments.
unfoldable pub admit_ordered :
    Digests → DataQualityPolicy → ℕ → List Segment → Result DatasetManifest
unfolding check_limits find_gaps
admit_ordered d p created [] = err no_segment
admit_ordered d p created (s ∷ ss) = do
  _ ← check_limits p (s ∷ ss)
  gaps ← find_gaps p s.raw ss
  let hashes = map (λ (x : Segment). d.normalized_sha256 x.normalized) (s ∷ ss)
  ok (record {
    dataset_id = d.identity_sha256 hashes (d.policy_digest p) gaps;
    normalized_manifest_sha256s = hashes;
    policy_sha256 = d.policy_digest p;
    gaps = gaps;
    created_at = created;
  })

unfoldable pub build_dataset_manifest :
    Digests → DataQualityPolicy → ℕ → List Segment → Result DatasetManifest
unfolding sort_segments admit_ordered
build_dataset_manifest d p created ss = admit_ordered d p created (sort_segments ss)
