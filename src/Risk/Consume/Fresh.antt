-- ===== src/Risk/Consume/Fresh.antt =====
-- `RiskAuthority.evaluate`, and a later `consume` of its decision.
use aiquant_trader.Prelude.{
  ℕ, ◌+◌, ◌*◌, ◌≤◌, ◌<◌, ◌≡◌, refl, sym, ap, ◌∙◌, ◌⊎◌, inl, inr, Bool, true, false, Option, none,
  some, List, [], ◌∷◌, arith, if◌then◌else◌, length, member,
}
use aiquant_trader.Risk.Domain.{OrderIntent, RiskSnapshot, RiskDecision, ms, validate_decision}
use aiquant_trader.Risk.Assess.{assess}
use aiquant_trader.Risk.Evaluate.{
  Digests, Authority, World, expire_submissions, exposure_branch, exposure_step, payload, evaluate,
}
use aiquant_trader.Risk.Evaluate.Limits.{IsClear-of_allowed, exposure_clear}
use aiquant_trader.Risk.Consume.Once.{IsAuthentic, decision_error-eq_none}
use aiquant_trader.Risk.Consume.{ApprovalError, dispatched, decision_error, spend, settle, consume}

-- The deque only gets shorter as time goes on.
length-expire :
    (now later : ℕ) (xs : List ℕ)
    → now ≤ later
    → length (expire_submissions later (expire_submissions now xs))
      ≤ length (expire_submissions now xs)
unfolding expire_submissions
length-expire now later [] h = omega arith
length-expire now later (x ∷ xs) h = ground (arith, length-expire now later xs h, shorter later xs)
  where
    shorter : (t : ℕ) (ys : List ℕ) → length (expire_submissions t ys) ≤ length ys
    shorter t [] = omega arith
    shorter t (y ∷ ys) = ground (arith, shorter t ys)

-- `evaluate` leaves all but the deque as it was.
branch-limits :
    (a : Authority) (w : World) (i : OrderIntent) (s : RiskSnapshot) (only : Bool)
    → ((exposure_branch a w i s only).1.limits ≡ a.limits)
      × ((exposure_branch a w i s only).1.execution ≡ a.execution)
      × ((exposure_branch a w i s only).1.consumed ≡ a.consumed)
unfolding exposure_branch
branch-limits a w i s true = (refl, refl, refl)
branch-limits a w i s false = (refl, refl, refl)

-- After an approval at `w`, the rate limit does not refuse the dispatch at a later `v`.
branch-spend :
    (a : Authority) (w v : World) (i : OrderIntent) (s : RiskSnapshot) (id : ℕ) (only : Bool)
    → w.now ≤ v.now
    → (exposure_branch a w i s only).0 ≡ []
    → member id a.consumed ≡ false
    → (spend (exposure_branch a w i s only).1 v id only).0 ≡ dispatched
unfolding spend exposure_branch
branch-spend a w v i s id true le clear fresh = rw fresh
branch-spend a w v i s id false le clear fresh =
    let below = (exposure_clear a w i s false refl clear).1 in
    ground (arith, below, length-expire w.now v.now a.submissions_ns le)

sign_if : (b : Bool) (n : ℕ) → b ≡ true → (if b then some n else none) ≡ some n
sign_if b n h = ground arith

-- A decision of `evaluate` always passes its own validator: it expires no sooner than it is issued,
-- and it carries a signature exactly when it is allowed.
pub evaluate-validate_decision :
    (d : Digests) (a : Authority) (w : World) (i : OrderIntent) (s : RiskSnapshot)
    → validate_decision (evaluate d a w i s).0 ≡ true
unfolding validate_decision evaluate payload
evaluate-validate_decision d a w i s = ground arith

-- The authorities that calls lead to from `first`, whatever their clocks, decisions and errors.
pub data Reaches (d : Digests) (first : Authority) : Authority → Type 0 where
  no_call : Reaches d first first
  evaluated :
      {b : Authority} (w : World) (i : OrderIntent) (s : RiskSnapshot)
      → Reaches d first b
      → Reaches d first (evaluate d b w i s).1
  consuming :
      {b : Authority} (w : World) (decision : RiskDecision) (i : OrderIntent) (s : RiskSnapshot)
      → Reaches d first b
      → Reaches d first (consume d b w decision i s).1

spend-limits :
    (a : Authority) (w : World) (id : ℕ) (only : Bool)
    → ((spend a w id only).1.limits ≡ a.limits) × ((spend a w id only).1.execution ≡ a.execution)
unfolding spend
spend-limits a w id only = (ground arith, ground arith)

settle-limits :
    (o : Option ApprovalError) (a : Authority) (w : World) (id : ℕ) (only : Bool)
    → let after = (settle o a (spend a w id only)).1 in
      (after.limits ≡ a.limits) × (after.execution ≡ a.execution)
settle-limits none a w id only = spend-limits a w id only
settle-limits (some e) a w id only = (refl, refl)

-- No call changes the limits or the execution settings.
Reaches-limits :
    {d : Digests} {first b : Authority}
    → Reaches d first b
    → (b.limits ≡ first.limits) × (b.execution ≡ first.execution)
unfolding evaluate exposure_step consume
Reaches-limits no_call = (refl, refl)
Reaches-limits (evaluated {b} w i s r) =
    let (limits, execution, _) = branch-limits b w i s i.reduce_only in
    (limits ∙ (Reaches-limits r).0, execution ∙ (Reaches-limits r).1)
Reaches-limits {d} (consuming {b} w decision i s r) =
    let (limits, execution) =
      settle-limits (decision_error d b w decision i s) b w decision.decision_id i.reduce_only in
    (limits ∙ (Reaches-limits r).0, execution ∙ (Reaches-limits r).1)

-- Why the rate limit does not refuse the order at `v`: it is the next call and the clock has not gone
-- back, or the order only reduces, or the last second before `v` has room for it.
abbrev pub HasRoom : Authority → Authority → World → World → OrderIntent → Type 0
HasRoom first b w v i =
    ((b ≡ first) × (w.now ≤ v.now))
    ⊎ ((i.reduce_only ≡ true)
        ⊎ (length (expire_submissions v.now b.submissions_ns) < b.limits.max_orders_per_second))

spend_room :
    (b : Authority) (v : World) (id : ℕ) (only : Bool)
    → (only ≡ true)
      ⊎ (length (expire_submissions v.now b.submissions_ns) < b.limits.max_orders_per_second)
    → member id b.consumed ≡ false
    → (spend b v id only).0 ≡ dispatched
unfolding spend
spend_room b v id only (inl reducing) fresh = rw (fresh, reducing) refl
spend_room b v id only (inr room) fresh = ground (arith, fresh, room)

-- An approval is honoured. If `evaluate` allowed the order at `w`, then `consume` dispatches it at `v`,
-- after any other calls of `evaluate` and `consume` in between, under these conditions: the approval's
-- time to live is not over, the account is in the same state, a request slot is free, and the
-- decision has not been spent; and the rate limit has room, which is no condition for an order that
-- only reduces, or when `consume` is the next call after `evaluate` and the clock has not gone back.
pub evaluate-consume :
    (d : Digests) (a b : Authority) (w v : World) (i : OrderIntent) (s : RiskSnapshot)
    → (evaluate d a w i s).0.allowed ≡ true
    → Reaches d (evaluate d a w i s).1 b
    → v.now ≤ w.now + a.execution.approval_ttl_ms * ms
    → (assess a.limits v.kill s v.now).0 ≡ (assess a.limits w.kill s w.now).0
    → v.inflight < a.execution.max_inflight_requests
    → member w.uuid b.consumed ≡ false
    → HasRoom (evaluate d a w i s).1 b w v i
    → (consume d b v (evaluate d a w i s).0 i s).0 ≡ dispatched
unfolding consume evaluate payload exposure_step
evaluate-consume d a b w v i s h calls ttl same slot fresh room =
    rw (decision_error-eq_none d b v (evaluate d a w i s).0 i s authentic) spent
  where
    authentic : IsAuthentic d b v (evaluate d a w i s).0 i s
    authentic =
        let (limits, execution, _) = branch-limits a w i s i.reduce_only in
        let same_limits : b.limits ≡ a.limits = (Reaches-limits calls).0 ∙ limits in
        let same_execution : b.execution ≡ a.execution = (Reaches-limits calls).1 ∙ execution in
        record {
          allowed = h;
          signed = sign_if _ _ h;
          not_expired = ttl;
          same_state = rw same_limits same;
          inflight = rw same_execution slot;
          same_intent = refl;
          same_snapshot = refl;
          same_limits = rw same_limits refl;
        }

    spent : (spend b v w.uuid i.reduce_only).0 ≡ dispatched
    spent = elim room [
      | inl (next, le) ↦
          let fresh_before : member w.uuid a.consumed ≡ false =
            (let (_, _, kept) = branch-limits a w i s i.reduce_only in
              sym (ap (λ (x : Authority). member w.uuid x.consumed) next ∙ ap (member w.uuid) kept)
              ∙ fresh) in
          rw next (
            branch-spend a w v i s w.uuid i.reduce_only le (IsClear-of_allowed d a w i s h).exposure
              fresh_before)
      | inr has ↦ spend_room b v w.uuid i.reduce_only has fresh
    ]
