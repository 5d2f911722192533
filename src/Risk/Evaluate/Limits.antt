-- ===== src/Risk/Evaluate/Limits.antt =====
-- What an approval of `RiskAuthority.evaluate` guarantees about the order and the account.
use aiquant_trader.Prelude.{
  ℕ, ◌+◌, ◌*◌, ◌≤◌, ◌<◌, ◌≡◌, refl, ap, ◌||◌, ◌⊎◌, inl, inr, Bool, true, false, List, [], ◌∷◌,
  arith, append-nil_left, append-nil_right, length, leb→lt, Bool-cases,
}
use aiquant_trader.Prelude.Int.{ℤ, pos, pos_part, neg_part, abs, ◌+ℤ◌, ◌-ℤ◌, int_laws}
use aiquant_trader.Risk.Domain.{
  OrderSide, buy, sell, OrderIntent, RiskState, RiskSnapshot, RiskLimits, active, reduce_only,
  cancel_only, halted, flattening, unit, ms,
}
use aiquant_trader.Risk.Domain
use aiquant_trader.Risk.Assess.{Assessment, assess}
use aiquant_trader.Risk.Assess.Priority.{explained, assess-explained, assess_killed}
use aiquant_trader.Risk.Evaluate.{
  Digests, Authority, World, is_reducing, worst_long, worst_short, projected_base, request_reasons,
  exposure_reasons, exposure_branch, exposure_step, payload, state_reasons, unique_reasons, reasons,
  is_empty, evaluate, reference_price, expire_submissions, rate_limited,
}

is_empty→nil : (rs : List Domain.RiskReason) → is_empty rs ≡ true → rs ≡ []
is_empty→nil [] h = refl
is_empty→nil (r ∷ rs) h = ground arith

unique_reasons-nil : (rs : List Domain.RiskReason) → unique_reasons rs ≡ [] → rs ≡ []
unfolding unique_reasons
unique_reasons-nil [] h = refl
unique_reasons-nil (r ∷ rs) h = ground arith

-- No reason was found in any of the three groups.
pub record IsClear (a : Authority) (w : World) (i : OrderIntent) (s : RiskSnapshot) : Type 0 where
  pub request : request_reasons a w i s ≡ []
  pub exposure : (exposure_step a w i s).0 ≡ []
  pub account : state_reasons (assess a.limits w.kill s w.now) i.reduce_only (is_reducing i s) ≡ []

pub IsClear-of_allowed :
    (d : Digests) (a : Authority) (w : World) (i : OrderIntent) (s : RiskSnapshot)
    → (evaluate d a w i s).0.allowed ≡ true
    → IsClear a w i s
unfolding evaluate reasons
IsClear-of_allowed d a w i s h =
    let e = unique_reasons-nil _ (is_empty→nil _ h) in
    let tail = append-nil_right (request_reasons a w i s) _ e in
    record {
      request = append-nil_left (request_reasons a w i s) _ e;
      exposure = append-nil_left (exposure_step a w i s).0 _ tail;
      account = append-nil_right (exposure_step a w i s).0 _ tail;
    }

-- What every approved order satisfies.
pub record IsWithinRequest (a : Authority) (w : World) (i : OrderIntent) (s : RiskSnapshot)
    : Type 0 where
  pub not_future : i.created_ts_ns ≤ w.now
  pub not_old : w.now ≤ i.created_ts_ns + a.execution.unknown_order_timeout_ms * ms
  pub size : i.quantity_base ≤ a.limits.max_order_size_base
  pub notional :
      i.quantity_base * reference_price i.limit_price s.mark_price
      ≤ a.limits.max_order_notional_usd * unit
  pub inflight : w.inflight < a.execution.max_inflight_requests

request_reasons-IsWithin :
    (a : Authority) (w : World) (i : OrderIntent) (s : RiskSnapshot)
    → request_reasons a w i s ≡ []
    → IsWithinRequest a w i s
unfolding request_reasons
request_reasons-IsWithin a w i s h = record {
  not_future = ground arith;
  not_old = ground arith;
  size = ground arith;
  notional = ground arith;
  inflight = ground arith;
}

pub record IsWithinExposure (limits : RiskLimits) (i : OrderIntent) (s : RiskSnapshot)
    : Type 0 where
  pub position : projected_base i s ≤ limits.max_position_size_base
  pub inventory : projected_base i s * s.mark_price ≤ limits.max_inventory_notional_usd * unit
  pub leverage :
      projected_base i s * s.mark_price ≤ limits.max_leverage * pos_part s.account_equity_usd
  pub open_orders : s.open_order_count < limits.max_open_orders

exposure_reasons-IsWithin :
    (limits : RiskLimits) (i : OrderIntent) (s : RiskSnapshot) (limited : Bool)
    → exposure_reasons limits i s limited ≡ []
    → IsWithinExposure limits i s × (limited ≡ false)
unfolding exposure_reasons
exposure_reasons-IsWithin limits i s limited h = ground arith

-- The buys and the sells that could still execute if this order is sent.
abbrev pub open_buys : OrderIntent → RiskSnapshot → ℕ
open_buys i s = s.pending_buy_base + elim i.side [ buy ↦ i.quantity_base | sell ↦ 0 ]

abbrev pub open_sells : OrderIntent → RiskSnapshot → ℕ
open_sells i s = s.pending_sell_base + elim i.side [ buy ↦ 0 | sell ↦ i.quantity_base ]

between :
    (lo x hi : ℤ) (n : ℕ)
    → abs lo ≤ n
    → abs hi ≤ n
    → pos_part lo + neg_part x ≤ pos_part x + neg_part lo
    → pos_part x + neg_part hi ≤ pos_part hi + neg_part x
    → abs x ≤ n
between lo x hi n hl hh l h = ground arith

worst_long_parts :
    (i : OrderIntent) (s : RiskSnapshot)
    → pos_part (worst_long i s) + neg_part s.position_base
      ≡ neg_part (worst_long i s) + pos_part s.position_base + open_buys i s
unfolding worst_long
worst_long_parts i s = grind (int_laws)

worst_short_parts :
    (i : OrderIntent) (s : RiskSnapshot)
    → pos_part (worst_short i s) + neg_part s.position_base + open_sells i s
      ≡ neg_part (worst_short i s) + pos_part s.position_base
unfolding worst_short
worst_short_parts i s = grind (int_laws)

-- Whatever part of the open buys and sells executes, the position stays below `projected_base`.
projected_base-bound :
    (i : OrderIntent) (s : RiskSnapshot) (b c : ℕ)
    → b ≤ open_buys i s
    → c ≤ open_sells i s
    → abs (s.position_base +ℤ pos b -ℤ pos c) ≤ projected_base i s
unfolding projected_base
projected_base-bound i s b c hb hc =
    between (worst_short i s) (s.position_base +ℤ pos b -ℤ pos c) (worst_long i s) _ (omega arith)
      (omega arith) (omega (int_laws, worst_short_parts i s))
      (omega (int_laws, worst_long_parts i s))

-- An order that is approved passes every limit of the request: it is neither from the future nor
-- older than the timeout, its size and its notional are within the limits, and a request slot is free.
pub evaluate-IsWithinRequest :
    (d : Digests) (a : Authority) (w : World) (i : OrderIntent) (s : RiskSnapshot)
    → (evaluate d a w i s).0.allowed ≡ true
    → IsWithinRequest a w i s
evaluate-IsWithinRequest d a w i s h =
    request_reasons-IsWithin a w i s (IsClear-of_allowed d a w i s h).request

pub exposure_clear :
    (a : Authority) (w : World) (i : OrderIntent) (s : RiskSnapshot) (only : Bool)
    → only ≡ false
    → (exposure_branch a w i s only).0 ≡ []
    → IsWithinExposure a.limits i s × ((rate_limited a w.now).0 ≡ false)
unfolding exposure_branch
exposure_clear a w i s true only h = cc
exposure_clear a w i s false only h =
    exposure_reasons-IsWithin a.limits i s (rate_limited a w.now).0 h

-- An approved order that is not reduce-only keeps the account within its limits in every outcome:
-- whichever part of the open orders and of this one executes, the position stays within the
-- position limit, and its notional at the mark within the inventory and the leverage limit; and
-- one more open order, and one more submission in this second, were still allowed.
pub evaluate_worst_case :
    (d : Digests) (a : Authority) (w : World) (i : OrderIntent) (s : RiskSnapshot) (b c : ℕ)
    → (evaluate d a w i s).0.allowed ≡ true
    → i.reduce_only ≡ false
    → b ≤ open_buys i s
    → c ≤ open_sells i s
    → let position = abs (s.position_base +ℤ pos b -ℤ pos c) in
      (position ≤ a.limits.max_position_size_base)
      × (position * s.mark_price ≤ a.limits.max_inventory_notional_usd * unit)
      × (position * s.mark_price ≤ a.limits.max_leverage * pos_part s.account_equity_usd)
      × (s.open_order_count < a.limits.max_open_orders)
      × (length (expire_submissions w.now a.submissions_ns) < a.limits.max_orders_per_second)
unfolding rate_limited
evaluate_worst_case d a w i s b c h only hb hc =
    let (e, r) =
      exposure_clear a w i s i.reduce_only only
        (unfold exposure_step in (IsClear-of_allowed d a w i s h).exposure) in
    let p = projected_base-bound i s b c hb hc in
    let m = times_mono s.mark_price p in
    (
      omega (arith, e.position),
      omega (arith, e.inventory),
      omega (arith, e.leverage),
      e.open_orders,
      leb→lt _ _ r,
    )
  where
    times_mono : {x y : ℕ} (k : ℕ) → x ≤ y → x * k ≤ y * k
    times_mono k q = grind arith

state_reasons_lem :
    (x : Assessment) (only reducing : Bool)
    → explained x ≡ true
    → state_reasons x only reducing ≡ []
    → (x.0 ≡ active)
      ⊎ (((x.0 ≡ reduce_only) ⊎ (x.0 ≡ flattening)) × (only ≡ true) × (reducing ≡ true))
unfolding state_reasons
state_reasons_lem (active, rs) only reducing e h = inl refl
state_reasons_lem (cancel_only, rs) only reducing e h = ground arith
state_reasons_lem (halted, rs) only reducing e h = ground arith
state_reasons_lem (reduce_only, rs) only reducing e h = inr (inl refl, ground arith, ground arith)
state_reasons_lem (flattening, rs) only reducing e h = inr (inr refl, ground arith, ground arith)

-- The state in which an order was approved: active, or one in which only a reduce-only order that
-- makes the position strictly smaller is approved.
pub evaluate_state :
    (d : Digests) (a : Authority) (w : World) (i : OrderIntent) (s : RiskSnapshot)
    → (evaluate d a w i s).0.allowed ≡ true
    → let state = (evaluate d a w i s).0.state in
      (state ≡ active)
      ⊎ (((state ≡ reduce_only) ⊎ (state ≡ flattening))
          × (i.reduce_only ≡ true)
          × (is_reducing i s ≡ true))
evaluate_state d a w i s h =
    unfold evaluate payload in
    state_reasons_lem (assess a.limits w.kill s w.now) i.reduce_only (is_reducing i s)
      (assess-explained a.limits w.kill s w.now) (IsClear-of_allowed d a w i s h).account

-- While a kill is active, by the switch or in the snapshot, no order is approved, reduce-only or
-- not, and the decision says that the account is halted.
pub evaluate_killed :
    (d : Digests) (a : Authority) (w : World) (i : OrderIntent) (s : RiskSnapshot)
    → (w.kill || s.operator_kill) ≡ true
    → ((evaluate d a w i s).0.allowed ≡ false) × ((evaluate d a w i s).0.state ≡ halted)
evaluate_killed d a w i s h = (
  elim (Bool-cases (evaluate d a w i s).0.allowed) [
    | inl yes_allowed ↦ absurd (not_halted (evaluate_state d a w i s yes_allowed) halts)
    | inr denied ↦ denied
  ],
  halts,
)
  where
    halts : (evaluate d a w i s).0.state ≡ halted
    halts =
        unfold evaluate payload in
        ap (λ (x : Assessment). x.0) (assess_killed a.limits w.kill s w.now h)

    not_halted :
        {x : RiskState} {P Q : Type 0}
        → (x ≡ active) ⊎ (((x ≡ reduce_only) ⊎ (x ≡ flattening)) × P × Q)
        → x ≡ halted
        → ⊥
    not_halted (inl e) g = cc
    not_halted (inr (inl e, p, q)) g = cc
    not_halted (inr (inr e, p, q)) g = cc
