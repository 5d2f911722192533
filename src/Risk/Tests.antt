-- ===== src/Risk/Tests.antt =====
-- The risk authority and the kill switch at concrete inputs.
use aiquant_trader.Prelude.{
  ◌+◌, ◌*◌, ◌≤◌, ◌<◌, ◌≡◌, refl, ◌↔◌, ◌⊎◌, inr, true, false, none, some, [], ◌∷◌, arith, length,
  member,
}
use aiquant_trader.Prelude.Int.{pos, abs, ◌+ℤ◌, ◌-ℤ◌}
use aiquant_trader.Risk.Domain.{
  sell, limit, gtc, OrderIntent, RiskSnapshot, RiskDecision, RiskLimits, active, reduce_only,
  flattening, unit, validate_decision,
}
use aiquant_trader.Risk.Assess.{
  assess, account_state, stale_reasons, economic_reasons, loss_at_least,
}
use aiquant_trader.Risk.Assess.Priority.{IsTrusted, IsSound, assess_active}
use aiquant_trader.Risk.Evaluate.{
  Digests, Authority, World, expire_submissions, is_reducing, evaluate, exposure_step, reasons,
  request_reasons, exposure_reasons, projected_base, worst_long, worst_short, state_reasons,
  unique_reasons,
}
use aiquant_trader.Risk.Evaluate.Limits.{
  IsWithinRequest, evaluate-IsWithinRequest, evaluate_worst_case, evaluate_state,
}
use aiquant_trader.Risk.Consume.{dispatched, decision_error, spend, consume}
use aiquant_trader.Risk.Consume.Once.{
  IsAuthentic, Call, AllDistinct, AllUnspent, dispatches, consume-IsAuthentic, dispatches_once,
}
use aiquant_trader.Risk.Consume.Rate.{start, count_since, dispatch_rate}
use aiquant_trader.Risk.Consume.Fresh.{
  evaluate-validate_decision, no_call, consuming, evaluate-consume,
}
use aiquant_trader.Risk.KillSwitch.{KillSwitchRecord, holds, Disk, write}
use aiquant_trader.Risk.KillSwitch.Crash.{IsPartial, write-IsPartial}

-- The defaults of `RiskLimits`.
abbrev limits : RiskLimits
limits = record {
  daily_loss_fraction = 500_000;
  max_drawdown_fraction = 1_000_000;
  max_leverage = 100_000_000;
  max_order_size_base = 500_000;
  max_position_size_base = 2_000_000;
  max_order_notional_usd = 25_000_000_000;
  max_inventory_notional_usd = 100_000_000_000;
  max_open_orders = 4;
  max_orders_per_second = 5;
  public_data_stale_after_ms = 1_500;
  private_data_stale_after_ms = 3_000;
}

abbrev authority : Authority
authority = record {
  limits = limits;
  execution = record {
    max_inflight_requests = 20;
    unknown_order_timeout_ms = 5_000;
    approval_ttl_ms = 250;
  };
  submissions_ns = [];
  consumed = [];
}

-- Digests that only serve to run the authority.
abbrev digests : Digests
digests = record {
  of_intent = λ i. i.intent_id;
  of_snapshot = λ s. s.snapshot_ts_ns;
  of_limits = λ l. l.max_open_orders;
  sign = λ p. p.decision_id + p.intent_sha256;
}

abbrev world : World
world = record { now = 10_000_000_000; inflight = 0; kill = false; uuid = 77 }

abbrev killed_world : World
killed_world = record world { kill = true }

abbrev later : World
later = record { now = 10_000_200_000; inflight = 3; kill = false; uuid = 78 }

-- Sell 0.001 BTC at 50,000 USD, from a long position of 0.002 BTC.
abbrev intent : OrderIntent
intent = record {
  intent_id = 5;
  strategy_id = 1;
  side = sell;
  kind = limit;
  quantity_base = 100_000;
  limit_price = some 5_000_000_000_000;
  time_in_force = gtc;
  post_only = true;
  reduce_only = false;
  created_ts_ns = 9_999_000_000;
}

abbrev snapshot : RiskSnapshot
snapshot = record {
  snapshot_ts_ns = 9_999_500_000;
  public_data_ts_ns = 9_999_400_000;
  private_data_ts_ns = 9_999_300_000;
  mark_price = 5_000_000_000_000;
  position_base = pos 200_000;
  pending_buy_base = 100_000;
  pending_sell_base = 0;
  account_equity_usd = pos 99_900_000_000;
  day_start_equity_usd = pos 100_000_000_000;
  high_water_equity_usd = pos 100_000_000_000;
  leverage = pos 10_000_000;
  open_order_count = 1;
  exchange_connected = true;
  reconciliation_complete = true;
  deployment_approved = true;
  approved_capital_limit_usd = some (pos 100_000_000_000);
  operator_kill = false;
  flatten_requested = false;
}

evaluate_allows : (evaluate digests authority world intent snapshot).0.allowed ≡ true
unfolding evaluate reasons request_reasons exposure_reasons projected_base worst_long worst_short
    state_reasons unique_reasons assess stale_reasons account_state economic_reasons loss_at_least
    is_reducing expire_submissions ◌+ℤ◌ ◌-ℤ◌
evaluate_allows = refl

active_now : (assess limits false snapshot 10_000_000_000).0 ≡ active
unfolding assess stale_reasons account_state economic_reasons loss_at_least ◌-ℤ◌
active_now = refl

active_later :
    (assess limits false snapshot 10_000_200_000).0
    ≡ (assess limits false snapshot 10_000_000_000).0
unfolding assess stale_reasons account_state economic_reasons loss_at_least ◌-ℤ◌
active_later = refl

assess_active_example :
    ((assess limits false snapshot 10_000_000_000).0 ≡ active)
    ↔ (IsTrusted limits false snapshot 10_000_000_000 × IsSound limits snapshot)
assess_active_example = assess_active limits false snapshot 10_000_000_000

evaluate-IsWithinRequest_example : IsWithinRequest authority world intent snapshot
evaluate-IsWithinRequest_example =
    evaluate-IsWithinRequest digests authority world intent snapshot evaluate_allows

-- All the buys execute, and none of the sells.
evaluate_worst_case_example :
    let position = abs (pos 200_000 +ℤ pos 100_000 -ℤ pos 0) in
    (position ≤ 2_000_000)
    × (position * 5_000_000_000_000 ≤ 100_000_000_000 * unit)
    × (position * 5_000_000_000_000 ≤ 100_000_000 * 99_900_000_000)
    × (1 < 4)
    × (length (expire_submissions 10_000_000_000 []) < 5)
evaluate_worst_case_example =
    evaluate_worst_case digests authority world intent snapshot 100_000 0 evaluate_allows refl
      (omega arith) (omega arith)

evaluate_state_example :
    let state = (evaluate digests authority world intent snapshot).0.state in
    (state ≡ active)
    ⊎ (((state ≡ reduce_only) ⊎ (state ≡ flattening))
        × (false ≡ true)
        × (is_reducing intent snapshot ≡ true))
evaluate_state_example = evaluate_state digests authority world intent snapshot evaluate_allows

evaluate-validate_decision_example :
    validate_decision (evaluate digests authority world intent snapshot).0 ≡ true
evaluate-validate_decision_example =
    evaluate-validate_decision digests authority world intent snapshot

abbrev decision : RiskDecision
decision = record {
  decision_id = 77;
  intent_sha256 = 5;
  snapshot_sha256 = 9_999_500_000;
  limits_sha256 = 4;
  state = active;
  allowed = true;
  reasons = [];
  issued_ts_ns = 10_000_000_000;
  expires_ts_ns = 10_250_000_000;
  approval_signature = some 82;
}

-- Another order of the same content is dispatched between the approval and its consumption.
abbrev between : Authority
between =
    (consume digests (evaluate digests authority world intent snapshot).1 later
      (record decision { decision_id = 78; approval_signature = some 83 }) intent snapshot).1

between-consumed : between.consumed ≡ 78 ∷ []
unfolding consume decision_error spend expire_submissions assess stale_reasons account_state
    economic_reasons loss_at_least ◌-ℤ◌ evaluate exposure_step
between-consumed = refl

between-submissions : length (expire_submissions 10_000_200_000 between.submissions_ns) ≡ 1
unfolding consume decision_error spend expire_submissions assess stale_reasons account_state
    economic_reasons loss_at_least ◌-ℤ◌ evaluate exposure_step
between-submissions = refl

between-limits : between.limits.max_orders_per_second ≡ 5
unfolding consume decision_error spend expire_submissions assess stale_reasons account_state
    economic_reasons loss_at_least ◌-ℤ◌ evaluate exposure_step
between-limits = refl

evaluate-consume_example :
    (consume digests between later
      (evaluate digests authority world intent snapshot).0
      intent
      snapshot).0
    ≡ dispatched
evaluate-consume_example =
    evaluate-consume digests authority between world later intent snapshot evaluate_allows
      (consuming later (record decision { decision_id = 78; approval_signature = some 83 }) intent
        snapshot no_call)
      (omega arith) active_later (omega arith) (rw between-consumed refl)
      (inr (inr (omega (arith, between-submissions, between-limits))))

abbrev dispatch : Call
dispatch = record { world = later; decision = decision; intent = intent; snapshot = snapshot }

consume_dispatches : (consume digests authority later decision intent snapshot).0 ≡ dispatched
unfolding consume decision_error spend expire_submissions assess stale_reasons account_state
    economic_reasons loss_at_least ◌-ℤ◌
consume_dispatches = refl

consume-IsAuthentic_example :
    IsAuthentic digests authority later decision intent snapshot
    × (member 77 [] ≡ false)
    × ((consume digests authority later decision intent snapshot).1.consumed ≡ 77 ∷ [])
consume-IsAuthentic_example =
    consume-IsAuthentic digests authority later decision intent snapshot consume_dispatches

dispatches_once_example :
    AllDistinct (dispatches digests authority (dispatch ∷ dispatch ∷ [])).0
    × AllUnspent [] (dispatches digests authority (dispatch ∷ dispatch ∷ [])).0
dispatches_once_example = dispatches_once digests authority (dispatch ∷ dispatch ∷ [])

-- The second call is refused.
dispatches_one : (dispatches digests authority (dispatch ∷ dispatch ∷ [])).0 ≡ 77 ∷ []
unfolding dispatches consume decision_error spend expire_submissions assess stale_reasons
    account_state economic_reasons loss_at_least ◌-ℤ◌
dispatches_one = refl

dispatch_rate_example : count_since 10_000_200_000 (10_000_200_000 ∷ []) ≤ 5
dispatch_rate_example =
    dispatch_rate digests authority dispatch (start 0 refl) (omega arith) consume_dispatches refl

abbrev kill_record : KillSwitchRecord
kill_record = record { record_id = 9; active = true; changed_ts_ns = 4; actor = 2; reason = 3 }

abbrev clear_record : KillSwitchRecord
clear_record = record { record_id = 10; active = false; changed_ts_ns = 8; actor = 2; reason = 6 }

abbrev killed_disk : Disk
killed_disk = record { state = holds kill_record; audit = kill_record ∷ []; temporary = none }

write-IsPartial_example : IsPartial clear_record killed_disk (write 2 clear_record killed_disk)
write-IsPartial_example = write-IsPartial 2 clear_record killed_disk
