-- ===== src/Risk/Consume/Rate.antt =====
-- The submission rate limit of `RiskAuthority`, and its deque of submissions.
use aiquant_trader.Prelude.{
  ℕ, ◌+◌, ◌≤◌, ◌<◌, ◌≡◌, refl, sym, ap, ◌∙◌, Bool, true, false, Option, none, some, List, [], ◌∷◌,
  ◌++◌, arith, ltb, if◌then◌else◌, length,
}
use aiquant_trader.Risk.Domain.{OrderIntent, RiskSnapshot}
use aiquant_trader.Risk.Evaluate.{
  Digests, Authority, World, second, expire_submissions, exposure_branch, exposure_step, evaluate,
}
use aiquant_trader.Risk.Consume.{
  ApprovalError, Consumption, dispatched, refused, decision_error, spend, settle, consume,
}
use aiquant_trader.Risk.Consume.Once.{Call, call, settle-dispatched}

-- How many of the times lie in the second that ends at `now`.
unfoldable pub count_since : ℕ → List ℕ → ℕ
count_since now [] = 0
count_since now (t ∷ ts) = (if ltb now (t + second) then 1 else 0) + count_since now ts

count_since-append :
    (now : ℕ) (xs ys : List ℕ)
    → count_since now (xs ++ ys) ≡ count_since now xs + count_since now ys
unfolding count_since
count_since-append now [] ys = omega arith
count_since-append now (x ∷ xs) ys = omega (arith, count_since-append now xs ys)

count_since-le-length : (now : ℕ) (xs : List ℕ) → count_since now xs ≤ length xs
unfolding count_since
count_since-le-length now [] = omega arith
count_since-le-length now (x ∷ xs) = ground (arith, count_since-le-length now xs)

-- What is dropped at `now` is too old to count at `now` or later.
count_since-expire :
    (now later : ℕ) (xs : List ℕ)
    → now ≤ later
    → count_since later (expire_submissions now xs) ≡ count_since later xs
unfolding count_since expire_submissions
count_since-expire now later [] h = refl
count_since-expire now later (x ∷ xs) h = ground (arith, count_since-expire now later xs h)

abbrev pub dispatch_time : Consumption → ℕ → List ℕ
dispatch_time dispatched now = now ∷ []
dispatch_time (refused e) now = []

spend-count :
    (a : Authority) (w : World) (id : ℕ) (only : Bool) (later : ℕ)
    → w.now ≤ later
    → count_since later (spend a w id only).1.submissions_ns
      ≡ count_since later a.submissions_ns
        + count_since later (dispatch_time (spend a w id only).0 w.now)
unfolding spend
spend-count a w id only later h = ground (
  arith,
  count_since-expire w.now later a.submissions_ns h,
  count_since-append later a.submissions_ns (w.now ∷ []),
  count_since-append later (expire_submissions w.now a.submissions_ns) (w.now ∷ []),
  none_counts later,
)
  where
    none_counts : (t : ℕ) → count_since t [] ≡ 0
    none_counts t = unfold count_since in refl

settle-count :
    (o : Option ApprovalError) (a : Authority) (w : World) (id : ℕ) (only : Bool) (later : ℕ)
    → w.now ≤ later
    → count_since later (settle o a (spend a w id only)).1.submissions_ns
      ≡ count_since later a.submissions_ns
        + count_since later (dispatch_time (settle o a (spend a w id only)).0 w.now)
settle-count (some e) a w id only later h = unfold count_since in omega arith
settle-count none a w id only later h = spend-count a w id only later h

exposure-count :
    (a : Authority) (w : World) (i : OrderIntent) (s : RiskSnapshot) (only : Bool) (later : ℕ)
    → w.now ≤ later
    → count_since later (exposure_branch a w i s only).1.submissions_ns
      ≡ count_since later a.submissions_ns
unfolding exposure_branch
exposure-count a w i s true later h = refl
exposure-count a w i s false later h = count_since-expire w.now later a.submissions_ns h

-- The uses of an authority: evaluations and dispatches in any order, under a clock that does not go
-- back. `history` holds the times of all dispatches, oldest first.
pub data Used (d : Digests) (first : Authority) : List ℕ → Authority → ℕ → Type 0 where
  start : (now : ℕ) → first.submissions_ns ≡ [] → Used d first [] first now
  evaluated :
      {history : List ℕ} {a : Authority} {clock : ℕ}
      → Used d first history a clock
      → (w : World) (i : OrderIntent) (s : RiskSnapshot) → clock ≤ w.now
      → Used d first history (evaluate d a w i s).1 w.now
  called :
      {history : List ℕ} {a : Authority} {clock : ℕ}
      → Used d first history a clock
      → (c : Call) → clock ≤ c.world.now
      → Used d first
          (history ++ dispatch_time (call d a c).0 c.world.now)
          (call d a c).1
          c.world.now

history-count :
    (d : Digests) (first : Authority) {history : List ℕ} {a : Authority} {clock : ℕ}
    → Used d first history a clock
    → (later : ℕ) → clock ≤ later
    → count_since later history ≡ count_since later a.submissions_ns
unfolding consume evaluate exposure_step
history-count d first (start now e) later h = ap (count_since later) (sym e)
history-count d first (evaluated {a = a} u w i s le) later h =
    history-count d first u later (omega arith) ∙ sym (exposure-count a w i s i.reduce_only later h)
history-count d first (called {history} {a} u c le) later h =
    let earlier = history-count d first u later (omega arith) in
    let now =
      settle-count (decision_error d a c.world c.decision c.intent c.snapshot) a c.world
        c.decision.decision_id c.intent.reduce_only later h in
    omega (
      arith,
      earlier,
      now,
      count_since-append later history (dispatch_time (call d a c).0 c.world.now),
    )

one_counts : (now : ℕ) → count_since now (now ∷ []) ≡ 1
unfolding count_since
one_counts now = ground arith

dispatched-below :
    (a : Authority) (w : World) (id : ℕ) (only : Bool)
    → only ≡ false
    → (spend a w id only).0 ≡ dispatched
    → length (expire_submissions w.now a.submissions_ns) < a.limits.max_orders_per_second
unfolding spend
dispatched-below a w id only e h = ground arith

-- Whatever evaluations and dispatches came before, under a clock that does not go back, a dispatch
-- of an order that is not reduce-only is at most the `max_orders_per_second`-th dispatch of the
-- second that ends with it, reduce-only dispatches included.
pub dispatch_rate :
    (d : Digests) (first : Authority) {history : List ℕ} {a : Authority} {clock : ℕ} (c : Call)
    → Used d first history a clock
    → clock ≤ c.world.now
    → (call d a c).0 ≡ dispatched
    → c.intent.reduce_only ≡ false
    → count_since c.world.now (history ++ c.world.now ∷ []) ≤ a.limits.max_orders_per_second
unfolding consume
dispatch_rate d first {history} {a} c u le h only =
    let now = c.world.now in
    let spent =
      settle-dispatched (decision_error d a c.world c.decision c.intent c.snapshot) a _ h in
    omega (
      arith,
      history-count d first u now le,
      count_since-append now history (now ∷ []),
      one_counts now,
      count_since-expire now now a.submissions_ns (omega arith),
      count_since-le-length now (expire_submissions now a.submissions_ns),
      dispatched-below a c.world c.decision.decision_id c.intent.reduce_only only spent.1,
    )
