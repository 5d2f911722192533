-- ===== src/Risk/Consume/Once.antt =====
-- `RiskAuthority.consume` and the identifiers of the decisions that it has spent.
use aiquant_trader.Prelude.{
  ℕ, ◌≤◌, ◌<◌, ◌≡◌, refl, sym, ap, ◌∙◌, Bool, true, false, Option, none, some, List, [], ◌∷◌, ◌++◌,
  arith, member,
}
use mathlib.Core.Path.{subst}
use aiquant_trader.Risk.Domain.{OrderIntent, RiskSnapshot, RiskDecision, RiskState, state_code}
use aiquant_trader.Risk.Assess.{assess}
use aiquant_trader.Risk.Evaluate.{Digests, Authority, World}
use aiquant_trader.Risk.Consume.{
  ApprovalError, Consumption, dispatched, refused, payload_of, decision_error, spend, settle,
  consume,
}

pub state_code-injective : (x y : RiskState) → state_code x ≡ state_code y → x ≡ y
state_code-injective x y h = ground arith

-- What a dispatch has checked.
pub record IsAuthentic (d : Digests) (a : Authority) (w : World) (decision : RiskDecision)
    (i : OrderIntent) (s : RiskSnapshot) : Type 0 where
  pub allowed : decision.allowed ≡ true
  pub signed : decision.approval_signature ≡ some (d.sign (payload_of decision))
  pub not_expired : w.now ≤ decision.expires_ts_ns
  pub same_state : (assess a.limits w.kill s w.now).0 ≡ decision.state
  pub inflight : w.inflight < a.execution.max_inflight_requests
  pub same_intent : decision.intent_sha256 ≡ d.of_intent i
  pub same_snapshot : decision.snapshot_sha256 ≡ d.of_snapshot s
  pub same_limits : decision.limits_sha256 ≡ d.of_limits a.limits

decision_error-none :
    (d : Digests) (a : Authority) (w : World) (decision : RiskDecision) (i : OrderIntent)
    (s : RiskSnapshot)
    → decision_error d a w decision i s ≡ none
    → IsAuthentic d a w decision i s
unfolding decision_error
decision_error-none d a w decision i s h = record {
  allowed = ground arith;
  signed = ground arith;
  not_expired = ground arith;
  same_state = state_code-injective _ _ (ground arith);
  inflight = ground arith;
  same_intent = ground arith;
  same_snapshot = ground arith;
  same_limits = ground arith;
}

pub settle-dispatched :
    (e : Option ApprovalError) (a : Authority) (spent : Consumption × Authority)
    → (settle e a spent).0 ≡ dispatched
    → (e ≡ none) × (spent.0 ≡ dispatched) × (settle e a spent ≡ spent)
settle-dispatched (some e) a spent h = absurd (ground arith)
settle-dispatched none a spent h = (refl, h, refl)

spend_once :
    (a : Authority) (w : World) (id : ℕ) (only : Bool)
    → (spend a w id only).0 ≡ dispatched
    → (member id a.consumed ≡ false) × ((spend a w id only).1.consumed ≡ id ∷ a.consumed)
unfolding spend
spend_once a w id only h = ground arith

-- A dispatch means that the decision is allowed, unexpired, signed by this authority for this very
-- intent, snapshot and limits, that the state of the account is still the decision's, that a
-- request slot is free, and that the decision had not been consumed before; it is consumed now.
pub consume-IsAuthentic :
    (d : Digests) (a : Authority) (w : World) (decision : RiskDecision) (i : OrderIntent)
    (s : RiskSnapshot)
    → (consume d a w decision i s).0 ≡ dispatched
    → IsAuthentic d a w decision i s
      × (member decision.decision_id a.consumed ≡ false)
      × ((consume d a w decision i s).1.consumed ≡ decision.decision_id ∷ a.consumed)
unfolding consume
consume-IsAuthentic d a w decision i s h =
    let (clear, spent, same) = settle-dispatched (decision_error d a w decision i s) a _ h in
    let (fresh, now) = spend_once a w decision.decision_id i.reduce_only spent in
    (
      decision_error-none d a w decision i s clear,
      fresh,
      ap (λ (r : Consumption × Authority). r.1.consumed) same ∙ now,
    )

-- A refusal leaves the set of consumed decisions as it was.
spend_refused :
    (a : Authority) (w : World) (id : ℕ) (only : Bool) (e : ApprovalError)
    → (spend a w id only).0 ≡ refused e
    → (spend a w id only).1.consumed ≡ a.consumed
unfolding spend
spend_refused a w id only e h = ground arith

settle-refused :
    (o : Option ApprovalError) (e : ApprovalError) (a : Authority) (w : World) (id : ℕ)
    (only : Bool)
    → (settle o a (spend a w id only)).0 ≡ refused e
    → (settle o a (spend a w id only)).1.consumed ≡ a.consumed
settle-refused (some x) e a w id only h = refl
settle-refused none e a w id only h = spend_refused a w id only e h

-- A call of `consume`, with what it read.
pub record Call : Type 0 where
  pub world : World
  pub decision : RiskDecision
  pub intent : OrderIntent
  pub snapshot : RiskSnapshot

abbrev pub call : Digests → Authority → Call → Consumption × Authority
call d a c = consume d a c.world c.decision c.intent c.snapshot

abbrev pub dispatched_id : Consumption → ℕ → List ℕ
dispatched_id dispatched id = id ∷ []
dispatched_id (refused e) id = []

-- The decisions that a sequence of calls dispatches, in order, and the authority that it leaves.
unfoldable pub dispatches : Digests → Authority → List Call → List ℕ × Authority
dispatches d a [] = ([], a)
dispatches d a (c ∷ cs) =
    let (r, a') = call d a c in
    let (ids, last) = dispatches d a' cs in (dispatched_id r c.decision.decision_id ++ ids, last)

abbrev pub AllDistinct : List ℕ → Type 0
AllDistinct [] = Unit
AllDistinct (x ∷ xs) = (member x xs ≡ false) × AllDistinct xs

-- None of the identifiers has been consumed by `a`.
abbrev pub AllUnspent : List ℕ → List ℕ → Type 0
AllUnspent spent [] = Unit
AllUnspent spent (x ∷ xs) = (member x spent ≡ false) × AllUnspent spent xs

AllUnspent-cons :
    (x : ℕ) (spent ids : List ℕ)
    → AllUnspent (x ∷ spent) ids
    → (member x ids ≡ false) × AllUnspent spent ids
AllUnspent-cons x spent [] h = (refl, tt)
AllUnspent-cons x spent (y ∷ ys) h = ground (arith, AllUnspent-cons x spent ys h.1)

-- Over any sequence of calls, whatever the clock, the decisions and the errors between, no decision
-- is dispatched twice, and none that was consumed before.
pub dispatches_once :
    (d : Digests) (a : Authority) (cs : List Call)
    → AllDistinct (dispatches d a cs).0 × AllUnspent a.consumed (dispatches d a cs).0
unfolding dispatches
dispatches_once d a [] = (tt, tt)
dispatches_once d a (c ∷ cs) = step (call d a c) refl (dispatches_once d (call d a c).1 cs)
  where
    step :
        (r : Consumption × Authority)
        → call d a c ≡ r
        → AllDistinct (dispatches d r.1 cs).0 × AllUnspent r.1.consumed (dispatches d r.1 cs).0
        → AllDistinct (dispatched_id r.0 c.decision.decision_id ++ (dispatches d r.1 cs).0)
          × AllUnspent a.consumed
              (dispatched_id r.0 c.decision.decision_id ++ (dispatches d r.1 cs).0)
    step (dispatched, a') e (distinct, unspent) =
        let (_, fresh, added) =
          consume-IsAuthentic d a c.world c.decision c.intent c.snapshot
            (ap (λ (x : Consumption × Authority). x.0) e) in
        let cons : a'.consumed ≡ c.decision.decision_id ∷ a.consumed =
          ap (λ (x : Consumption × Authority). x.1.consumed) (sym e) ∙ added in
        let (new, rest) =
          AllUnspent-cons c.decision.decision_id a.consumed _
            (subst (λ (l : List ℕ). AllUnspent l (dispatches d a' cs).0) cons unspent) in
        ((new, distinct), (fresh, rest))
    step (refused x, a') e (distinct, unspent) =
        let same : a'.consumed ≡ a.consumed =
          ap (λ (y : Consumption × Authority). y.1.consumed) (sym e)
          ∙ kept x (ap (λ (y : Consumption × Authority). y.0) e) in
        (distinct, subst (λ (l : List ℕ). AllUnspent l (dispatches d a' cs).0) same unspent)
      where
        kept :
            (x : ApprovalError) → (call d a c).0 ≡ refused x → (call d a c).1.consumed ≡ a.consumed
        kept x h =
            unfold consume in
            settle-refused (decision_error d a c.world c.decision c.intent c.snapshot) x a c.world
              c.decision.decision_id c.intent.reduce_only h

pub decision_error-eq_none :
    (d : Digests) (a : Authority) (w : World) (decision : RiskDecision) (i : OrderIntent)
    (s : RiskSnapshot)
    → IsAuthentic d a w decision i s
    → decision_error d a w decision i s ≡ none
unfolding decision_error
decision_error-eq_none d a w decision i s h = ground (
  arith,
  ap state_code h.same_state,
  h.allowed,
  h.signed,
  h.not_expired,
  h.inflight,
  h.same_intent,
  h.same_snapshot,
  h.same_limits,
)
