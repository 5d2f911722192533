-- ===== src/Market/Admission/Tests.antt =====
-- The admission of market_data/admission.py at concrete inputs: three segments, out of order, with a
-- gap of a disconnection before the last.
use mathlib.Core.List.{Permᴰ}
use aiquant_trader.Prelude.{
  ℕ, ◌+◌, ◌*◌, ◌≡◌, refl, ◌⊎◌, inl, inr, true, List, [], ◌∷◌, All, length, arith,
}
use aiquant_trader.Market.Admission.{
  SegmentFinalizationReason, rotation, disconnect, Segment, DataQualityPolicy, DatasetManifest,
  Digests, ok, err, gap_exceeds, classify_gap, insert_segment, sort_segments, count_issues,
  check_limits, gap_between, find_gaps, admit_ordered, build_dataset_manifest,
}
use aiquant_trader.Market.Admission.Order.{Distinct, build_dataset_manifest-Perm}
use aiquant_trader.Market.Admission.Coverage.{
  Some, IsRecorded, IsMissing, IsAllowed, build_dataset_manifest-covers,
}

abbrev segment : ℕ → ℕ → ℕ → SegmentFinalizationReason → Segment
segment id started ended reason = record {
  raw = record {
    segment_id = id;
    started_at_ns = started;
    ended_at_ns = ended;
    finalization_reason = reason;
  };
  normalized = record { issues = []; contents = id };
}

abbrev digests : Digests
digests = record {
  normalized_sha256 = λ n. n.contents * 10;
  policy_digest = λ p. p.max_duplicates;
  identity_sha256 = λ hashes policy gaps. length hashes + policy + 10 * length gaps;
}

abbrev policy : ℕ → DataQualityPolicy
policy longest = record {
  max_classified_gap_ns = longest;
  max_schema_errors = 0;
  max_crossed_books = 0;
  max_timestamp_regressions = 0;
  max_duplicates = 0;
  reject_unexplained_gaps = true;
}

abbrev first : Segment
first = segment 1 0 50 rotation

abbrev second : Segment
second = segment 2 50 80 disconnect

abbrev third : Segment
third = segment 3 90 120 rotation

abbrev segments : List Segment
segments = third ∷ first ∷ second ∷ []

abbrev manifest : DatasetManifest
manifest = record {
  dataset_id = 13;
  normalized_manifest_sha256s = 10 ∷ 20 ∷ 30 ∷ [];
  policy_sha256 = 0;
  gaps = gap_between second.raw third.raw ∷ [];
  created_at = 7;
}

built : build_dataset_manifest digests (policy 30) 7 segments ≡ ok manifest
unfolding build_dataset_manifest admit_ordered sort_segments insert_segment check_limits
    count_issues find_gaps classify_gap
built = refl

over_limit : build_dataset_manifest digests (policy 9) 7 segments ≡ err (gap_exceeds 10)
unfolding build_dataset_manifest admit_ordered sort_segments insert_segment check_limits
    count_issues find_gaps classify_gap
over_limit = refl

distinct : Distinct segments
distinct = ((refl, (refl, tt)), ((refl, tt), (tt, tt)))

build_dataset_manifest-Perm_example :
    build_dataset_manifest digests (policy 30) 7 segments
    ≡ build_dataset_manifest digests (policy 30) 7 (first ∷ third ∷ second ∷ [])
build_dataset_manifest-Perm_example =
    build_dataset_manifest-Perm digests (policy 30) 7 segments (first ∷ third ∷ second ∷ [])
      (Permᴰ.swap refl refl) distinct

build_dataset_manifest-covers_example :
    (Some (IsRecorded 85) segments ⊎ Some (IsMissing 85) manifest.gaps)
    × All (IsAllowed (policy 30)) manifest.gaps
build_dataset_manifest-covers_example =
    build_dataset_manifest-covers digests (policy 30) 7 segments manifest 85 built
      (inr (inl (omega arith))) (inl (omega arith))
