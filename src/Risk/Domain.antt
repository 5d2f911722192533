-- ===== src/Risk/Domain.antt =====
-- domain/execution.py and config/models.py: orders, snapshots, risk states and limits.
-- A decimal is the count of its units of 10⁻⁸; a field that is validated as positive or not
-- negative is a natural number, unless the authority tests its sign itself. Identifiers and
-- digests are only compared, so natural numbers stand for them.
use aiquant_trader.Prelude.{
  ℕ, Bool, true, false, not, ◌&&◌, Option, List, ltb, is_some, if◌then◌else◌,
}
use aiquant_trader.Prelude.Int.{ℤ}

pub data OrderSide : Type 0 where
  buy sell : OrderSide

pub data OrderKind : Type 0 where
  limit market : OrderKind

pub data TimeInForce : Type 0 where
  gtc ioc : TimeInForce

pub record OrderIntent : Type 0 where
  pub intent_id : ℕ
  pub strategy_id : ℕ
  pub side : OrderSide
  pub kind : OrderKind
  pub quantity_base : ℕ
  pub limit_price : Option ℕ
  pub time_in_force : TimeInForce
  pub post_only : Bool
  pub reduce_only : Bool
  pub created_ts_ns : ℕ

abbrev pub is_market : OrderKind → Bool
is_market limit = false
is_market market = true

abbrev pub is_gtc : TimeInForce → Bool
is_gtc gtc = true
is_gtc ioc = false

-- `OrderIntent.validate_execution_instructions`: false where the validator raises.
unfoldable pub validate_execution_instructions : OrderIntent → Bool
validate_execution_instructions i =
    if not (is_market i.kind) && not (is_some i.limit_price)
    then false
    else if is_market i.kind && is_some i.limit_price
    then false
    else if i.post_only && is_market i.kind
    then false
    else if i.post_only && not (is_gtc i.time_in_force)
    then false
    else if is_market i.kind && is_gtc i.time_in_force
    then false
    else true

pub data RiskState : Type 0 where
  active reduce_only cancel_only halted flattening : RiskState

-- `StrEnum` members are compared by identity; the numbers tell them apart.
abbrev pub state_code : RiskState → ℕ
state_code active = 0
state_code reduce_only = 1
state_code cancel_only = 2
state_code halted = 3
state_code flattening = 4

pub data RiskReason : Type 0 where
  approved operator_kill flatten_requested exchange_disconnected : RiskReason
  reconciliation_incomplete public_data_stale private_data_stale : RiskReason
  invalid_account_state deployment_approval_invalid capital_limit : RiskReason
  daily_loss_limit drawdown_limit order_size_limit order_notional_limit : RiskReason
  position_limit inventory_limit leverage_limit open_order_limit : RiskReason
  inflight_request_limit order_rate_limit reduce_only_required : RiskReason
  not_position_reducing intent_too_old invalid_timestamp : RiskReason

abbrev pub reason_code : RiskReason → ℕ
reason_code approved = 0
reason_code operator_kill = 1
reason_code flatten_requested = 2
reason_code exchange_disconnected = 3
reason_code reconciliation_incomplete = 4
reason_code public_data_stale = 5
reason_code private_data_stale = 6
reason_code invalid_account_state = 7
reason_code deployment_approval_invalid = 8
reason_code capital_limit = 9
reason_code daily_loss_limit = 10
reason_code drawdown_limit = 11
reason_code order_size_limit = 12
reason_code order_notional_limit = 13
reason_code position_limit = 14
reason_code inventory_limit = 15
reason_code leverage_limit = 16
reason_code open_order_limit = 17
reason_code inflight_request_limit = 18
reason_code order_rate_limit = 19
reason_code reduce_only_required = 20
reason_code not_position_reducing = 21
reason_code intent_too_old = 22
reason_code invalid_timestamp = 23

pub record RiskSnapshot : Type 0 where
  pub snapshot_ts_ns : ℕ
  pub public_data_ts_ns : ℕ
  pub private_data_ts_ns : ℕ
  pub mark_price : ℕ
  pub position_base : ℤ
  pub pending_buy_base : ℕ
  pub pending_sell_base : ℕ
  pub account_equity_usd : ℤ
  pub day_start_equity_usd : ℤ
  pub high_water_equity_usd : ℤ
  pub leverage : ℤ
  pub open_order_count : ℕ
  pub exchange_connected : Bool
  pub reconciliation_complete : Bool
  pub deployment_approved : Bool
  pub approved_capital_limit_usd : Option ℤ
  pub operator_kill : Bool
  pub flatten_requested : Bool

pub record RiskDecision : Type 0 where
  pub decision_id : ℕ
  pub intent_sha256 : ℕ
  pub snapshot_sha256 : ℕ
  pub limits_sha256 : ℕ
  pub state : RiskState
  pub allowed : Bool
  pub reasons : List RiskReason
  pub issued_ts_ns : ℕ
  pub expires_ts_ns : ℕ
  pub approval_signature : Option ℕ

-- `RiskDecision.validate_decision`: false where the validator raises.
unfoldable pub validate_decision : RiskDecision → Bool
validate_decision d =
    if ltb d.expires_ts_ns d.issued_ts_ns
    then false
    else if d.allowed && not (is_some d.approval_signature)
    then false
    else if not d.allowed && is_some d.approval_signature
    then false
    else true

-- The number of units in 1.
abbrev pub unit : ℕ
unit = 100_000_000

abbrev pub ms : ℕ
ms = 1_000_000

pub record RiskLimits : Type 0 where
  pub daily_loss_fraction : ℕ
  pub max_drawdown_fraction : ℕ
  pub max_leverage : ℕ
  pub max_order_size_base : ℕ
  pub max_position_size_base : ℕ
  pub max_order_notional_usd : ℕ
  pub max_inventory_notional_usd : ℕ
  pub max_open_orders : ℕ
  pub max_orders_per_second : ℕ
  pub public_data_stale_after_ms : ℕ
  pub private_data_stale_after_ms : ℕ

pub record ExecutionConfig : Type 0 where
  pub max_inflight_requests : ℕ
  pub unknown_order_timeout_ms : ℕ
  pub approval_ttl_ms : ℕ
