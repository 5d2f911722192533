-- ===== src/Risk/Evaluate.antt =====
-- `RiskAuthority` of risk/authority.py: its state, and `evaluate`.
pub mod Limits
use aiquant_trader.Prelude.{
  ℕ, ◌+◌, ◌-◌, ◌*◌, max, Bool, true, false, not, Option, none, some, List, [], ◌∷◌, ◌++◌, ltb, leb,
  ◌==◌, if◌then◌else◌, when, length, keep,
}
use aiquant_trader.Prelude.Int.{ℤ, pos, pos_part, abs, ◌+ℤ◌, ◌-ℤ◌}
use aiquant_trader.Risk.Domain.{
  OrderSide, buy, sell, OrderIntent, RiskState, RiskReason, RiskSnapshot, RiskDecision, RiskLimits,
  ExecutionConfig, active, reduce_only, cancel_only, halted, flattening, unit, ms, reason_code,
}
use aiquant_trader.Risk.Assess.{Assessment, assess}

-- What a decision's signature covers.
pub record Payload : Type 0 where
  pub decision_id : ℕ
  pub intent_sha256 : ℕ
  pub snapshot_sha256 : ℕ
  pub limits_sha256 : ℕ
  pub state : RiskState
  pub issued_ts_ns : ℕ
  pub expires_ts_ns : ℕ

-- The canonical SHA-256 digests, and the HMAC under the authority's key.
pub record Digests : Type 0 where
  pub of_intent : OrderIntent → ℕ
  pub of_snapshot : RiskSnapshot → ℕ
  pub of_limits : RiskLimits → ℕ
  pub sign : Payload → ℕ

pub record Authority : Type 0 where
  pub limits : RiskLimits
  pub execution : ExecutionConfig
  pub submissions_ns : List ℕ
  pub consumed : List ℕ

-- What a call reads from outside: the clock, the inflight count, the kill switch and a fresh UUID.
pub record World : Type 0 where
  pub now : ℕ
  pub inflight : ℕ
  pub kill : Bool
  pub uuid : ℕ

abbrev pub second : ℕ
second = 1_000_000_000

-- The `while` loop of `_rate_limited`: drop the oldest submissions up to the cutoff.
unfoldable pub expire_submissions : ℕ → List ℕ → List ℕ
expire_submissions now [] = []
expire_submissions now (t ∷ ts) =
    let rest = expire_submissions now ts in if leb (t + second) now then rest else t ∷ ts

-- `_rate_limited`: the answer, and the authority with its deque shortened.
unfoldable pub rate_limited : Authority → ℕ → Bool × Authority
rate_limited a now =
    let recent = expire_submissions now a.submissions_ns in
    (leb a.limits.max_orders_per_second (length recent), record a { submissions_ns = recent })

-- `intent.limit_price or snapshot.mark_price`
unfoldable pub reference_price : Option ℕ → ℕ → ℕ
reference_price none mark = mark
reference_price (some price) mark = if price == 0 then mark else price

unfoldable pub signed_quantity : OrderSide → ℕ → ℤ
signed_quantity buy q = pos q
signed_quantity sell q = pos 0 -ℤ pos q

unfoldable pub is_reducing : OrderIntent → RiskSnapshot → Bool
unfolding signed_quantity
is_reducing i s =
    ltb (abs (s.position_base +ℤ signed_quantity i.side i.quantity_base)) (abs s.position_base)

unfoldable pub worst_long : OrderIntent → RiskSnapshot → ℤ
worst_long i s =
    let base = s.position_base +ℤ pos s.pending_buy_base in
    elim i.side [ buy ↦ base +ℤ pos i.quantity_base | sell ↦ base ]

unfoldable pub worst_short : OrderIntent → RiskSnapshot → ℤ
worst_short i s =
    let base = s.position_base -ℤ pos s.pending_sell_base in
    elim i.side [ buy ↦ base | sell ↦ base -ℤ pos i.quantity_base ]

unfoldable pub projected_base : OrderIntent → RiskSnapshot → ℕ
projected_base i s = max (abs (worst_long i s)) (abs (worst_short i s))

-- The reasons that concern every order.
unfoldable pub request_reasons : Authority → World → OrderIntent → RiskSnapshot → List RiskReason
unfolding reference_price
request_reasons a w i s =
    (if ltb w.now i.created_ts_ns
      then RiskReason.invalid_timestamp ∷ []
      else when (ltb (a.execution.unknown_order_timeout_ms * ms) (w.now - i.created_ts_ns))
          RiskReason.intent_too_old)
    ++ (when (ltb a.limits.max_order_size_base i.quantity_base) RiskReason.order_size_limit
        ++ (when
              (ltb (a.limits.max_order_notional_usd * unit)
                (i.quantity_base * reference_price i.limit_price s.mark_price))
              RiskReason.order_notional_limit
            ++ (when (elim i.reduce_only [ true ↦ not (is_reducing i s) | false ↦ false ])
                  RiskReason.not_position_reducing
                ++ when (leb a.execution.max_inflight_requests w.inflight)
                    RiskReason.inflight_request_limit)))

-- The reasons that concern an order that is not reduce-only. The equity is positive, and the
-- quotient by it is cleared.
unfoldable pub exposure_reasons : RiskLimits → OrderIntent → RiskSnapshot → Bool → List RiskReason
exposure_reasons limits i s limited =
    let notional = projected_base i s * s.mark_price in
    when (ltb limits.max_position_size_base (projected_base i s)) RiskReason.position_limit
    ++ (when (ltb (limits.max_inventory_notional_usd * unit) notional) RiskReason.inventory_limit
        ++ (when (ltb (limits.max_leverage * pos_part s.account_equity_usd) notional)
              RiskReason.leverage_limit
            ++ (when (leb limits.max_open_orders s.open_order_count) RiskReason.open_order_limit
                ++ when limited RiskReason.order_rate_limit)))

-- The reasons that the state of the account adds.
unfoldable pub state_reasons : Assessment → Bool → Bool → List RiskReason
state_reasons (active, rs) only reducing = []
state_reasons (cancel_only, rs) only reducing = rs
state_reasons (halted, rs) only reducing = rs
state_reasons (reduce_only, rs) only reducing =
    if not only
    then rs ++ RiskReason.reduce_only_required ∷ []
    else if not reducing
    then rs ++ RiskReason.not_position_reducing ∷ []
    else []
state_reasons (flattening, rs) only reducing =
    if not only
    then rs ++ RiskReason.reduce_only_required ∷ []
    else if not reducing
    then rs ++ RiskReason.not_position_reducing ∷ []
    else []

-- `list(dict.fromkeys(reasons))`: the first occurrence of each reason, in order.
unfoldable pub unique_reasons : List RiskReason → List RiskReason
unique_reasons [] = []
unique_reasons (r ∷ rs) = r ∷ keep (λ q. not (reason_code q == reason_code r)) (unique_reasons rs)

-- The rate limit is asked only for an order that is not reduce-only.
unfoldable pub exposure_branch :
    Authority → World → OrderIntent → RiskSnapshot → Bool → List RiskReason × Authority
unfolding rate_limited
exposure_branch a w i s true = ([], a)
exposure_branch a w i s false =
    let (limited, a') = rate_limited a w.now in (exposure_reasons a.limits i s limited, a')

unfoldable pub exposure_step :
    Authority → World → OrderIntent → RiskSnapshot → List RiskReason × Authority
unfolding exposure_branch
exposure_step a w i s = exposure_branch a w i s i.reduce_only

abbrev pub or_approved : List RiskReason → List RiskReason
or_approved [] = RiskReason.approved ∷ []
or_approved (r ∷ rs) = r ∷ rs

abbrev pub is_empty : List RiskReason → Bool
is_empty [] = true
is_empty (r ∷ rs) = false

unfoldable pub payload : Digests → Authority → World → OrderIntent → RiskSnapshot → Payload
payload d a w i s = record {
  decision_id = w.uuid;
  intent_sha256 = d.of_intent i;
  snapshot_sha256 = d.of_snapshot s;
  limits_sha256 = d.of_limits a.limits;
  state = (assess a.limits w.kill s w.now).0;
  issued_ts_ns = w.now;
  expires_ts_ns = w.now + a.execution.approval_ttl_ms * ms;
}

-- All reasons to refuse the order, each once.
unfoldable pub reasons : Authority → World → OrderIntent → RiskSnapshot → List RiskReason
unfolding exposure_step
reasons a w i s = unique_reasons (
    request_reasons a w i s
    ++ ((exposure_step a w i s).0
        ++ state_reasons (assess a.limits w.kill s w.now) i.reduce_only (is_reducing i s)))

unfoldable pub evaluate :
    Digests → Authority → World → OrderIntent → RiskSnapshot → RiskDecision × Authority
unfolding exposure_step payload
evaluate d a w i s =
    let p = payload d a w i s in
    let allowed = is_empty (reasons a w i s) in
    (
      record {
        decision_id = p.decision_id;
        intent_sha256 = p.intent_sha256;
        snapshot_sha256 = p.snapshot_sha256;
        limits_sha256 = p.limits_sha256;
        state = p.state;
        allowed = allowed;
        reasons = or_approved (reasons a w i s);
        issued_ts_ns = p.issued_ts_ns;
        expires_ts_ns = p.expires_ts_ns;
        approval_signature = if allowed then some (d.sign p) else none;
      },
      (exposure_step a w i s).1,
    )
