-- ===== src/Risk/Consume.antt =====
-- `RiskAuthority.consume` of risk/authority.py.
pub mod Once
pub mod Rate
pub mod Fresh
use aiquant_trader.Prelude.{
  ℕ, Bool, not, ◌||◌, Option, none, some, [], ◌∷◌, ◌++◌, ltb, leb, ◌==◌, if◌then◌else◌, member,
}
use aiquant_trader.Risk.Domain.{OrderIntent, RiskSnapshot, RiskDecision, state_code}
use aiquant_trader.Risk.Assess.{assess}
use aiquant_trader.Risk.Evaluate.{Payload, Digests, Authority, World, rate_limited}

-- `ApprovalError`, by its message.
pub data ApprovalError : Type 0 where
  not_approved expired state_changed inflight_limit content_mismatch : ApprovalError
  limits_mismatch signature_invalid already_consumed rate_limit : ApprovalError

pub data Consumption : Type 0 where
  dispatched : Consumption
  refused : ApprovalError → Consumption

abbrev pub payload_of : RiskDecision → Payload
payload_of d = record {
  decision_id = d.decision_id;
  intent_sha256 = d.intent_sha256;
  snapshot_sha256 = d.snapshot_sha256;
  limits_sha256 = d.limits_sha256;
  state = d.state;
  issued_ts_ns = d.issued_ts_ns;
  expires_ts_ns = d.expires_ts_ns;
}

-- The checks that read no state of the authority, in their order; `none` when all pass.
unfoldable pub decision_error :
    Digests → Authority → World → RiskDecision → OrderIntent → RiskSnapshot → Option ApprovalError
decision_error d a w decision i s = elim decision.approval_signature [
  | none ↦ some not_approved
  | some signature ↦
      if not decision.allowed
      then some not_approved
      else if ltb decision.expires_ts_ns w.now
      then some expired
      else if not (state_code (assess a.limits w.kill s w.now).0 == state_code decision.state)
      then some state_changed
      else if leb a.execution.max_inflight_requests w.inflight
      then some inflight_limit
      else if not (decision.intent_sha256 == d.of_intent i)
          || not (decision.snapshot_sha256 == d.of_snapshot s)
      then some content_mismatch
      else if not (decision.limits_sha256 == d.of_limits a.limits)
      then some limits_mismatch
      else if not (signature == d.sign (payload_of decision))
      then some signature_invalid
      else none
]

unfoldable pub record_dispatch : Authority → ℕ → ℕ → Consumption × Authority
record_dispatch a id now = (
  dispatched,
  record a { consumed = id ∷ a.consumed; submissions_ns = a.submissions_ns ++ now ∷ [] },
)

-- The block under the lock. The rate limit shortens the deque even where it refuses.
unfoldable pub spend : Authority → World → ℕ → Bool → Consumption × Authority
unfolding record_dispatch rate_limited
spend a w id only =
    if member id a.consumed
    then (refused already_consumed, a)
    else if only
    then record_dispatch a id w.now
    else let (limited, a') = rate_limited a w.now in
      if limited then (refused rate_limit, a') else record_dispatch a' id w.now

-- An early `raise`, or the block under the lock.
abbrev pub settle :
    Option ApprovalError → Authority → Consumption × Authority → Consumption × Authority
settle (some e) a spent = (refused e, a)
settle none a spent = spent

unfoldable pub consume :
    Digests
    → Authority
    → World
    → RiskDecision
    → OrderIntent
    → RiskSnapshot
    → Consumption × Authority
consume d a w decision i s =
    settle (decision_error d a w decision i s) a (spend a w decision.decision_id i.reduce_only)
