-- ===== src/Risk/Assess.antt =====
-- `RiskAuthority._state` of risk/authority.py: the state of the account, with its reasons.
pub mod Priority
use aiquant_trader.Prelude.{
  ℕ, ◌-◌, ◌*◌, Bool, false, not, ◌||◌, Option, none, some, List, [], ◌∷◌, ◌++◌, ltb, leb,
  if◌then◌else◌, when,
}
use aiquant_trader.Prelude.Int.{ℤ, pos, pos_part, ◌-ℤ◌, ltb_ℤ, leb_ℤ}
use aiquant_trader.Risk.Domain.{
  RiskState, RiskReason, RiskSnapshot, RiskLimits, active, reduce_only, cancel_only, halted,
  flattening, unit, ms,
}

abbrev pub Assessment : Type 0
Assessment = RiskState × List RiskReason

-- `max(0, (start - equity) / start) >= fraction`, cleared of the quotient. It is reached with
-- `start` positive.
unfoldable pub loss_at_least : ℤ → ℤ → ℕ → Bool
loss_at_least start equity fraction =
    leb (fraction * pos_part start) (pos_part (start -ℤ equity) * unit)

abbrev pub exceeds : ℤ → Option ℤ → Bool
exceeds equity none = false
exceeds equity (some cap) = ltb_ℤ cap equity

unfoldable pub stale_reasons : RiskLimits → RiskSnapshot → ℕ → List RiskReason
stale_reasons limits s now =
    when (ltb (limits.public_data_stale_after_ms * ms) (now - s.public_data_ts_ns))
      RiskReason.public_data_stale
    ++ when (ltb (limits.private_data_stale_after_ms * ms) (now - s.private_data_ts_ns))
        RiskReason.private_data_stale

unfoldable pub economic_reasons : RiskLimits → RiskSnapshot → List RiskReason
economic_reasons limits s =
    when (loss_at_least s.day_start_equity_usd s.account_equity_usd limits.daily_loss_fraction)
      RiskReason.daily_loss_limit
    ++ (when
          (loss_at_least s.high_water_equity_usd s.account_equity_usd limits.max_drawdown_fraction)
          RiskReason.drawdown_limit
        ++ when (ltb_ℤ (pos limits.max_leverage) s.leverage) RiskReason.leverage_limit)

-- `if reasons: return state, reasons`, with what follows
abbrev pub if_any : List RiskReason → RiskState → Assessment → Assessment
if_any [] state rest = rest
if_any (r ∷ rs) state rest = (state, r ∷ rs)

-- The account's part of the assessment, once the feeds are known to be fresh.
unfoldable pub account_state : RiskLimits → RiskSnapshot → Assessment
account_state limits s =
    if leb_ℤ s.account_equity_usd (pos 0)
      || leb_ℤ s.day_start_equity_usd (pos 0)
      || leb_ℤ s.high_water_equity_usd (pos 0)
      || ltb_ℤ s.leverage (pos 0)
    then (halted, RiskReason.invalid_account_state ∷ [])
    else if s.flatten_requested
    then (flattening, RiskReason.flatten_requested ∷ [])
    else if_any (economic_reasons limits s) reduce_only (active, [])

-- `_state`; `kill` is `self._kill_switch.read().active`.
unfoldable pub assess : RiskLimits → Bool → RiskSnapshot → ℕ → Assessment
assess limits kill s now =
    if kill || s.operator_kill
    then (halted, RiskReason.operator_kill ∷ [])
    else if not s.deployment_approved
    then (halted, RiskReason.deployment_approval_invalid ∷ [])
    else if exceeds s.account_equity_usd s.approved_capital_limit_usd
    then (halted, RiskReason.capital_limit ∷ [])
    else if not s.exchange_connected
    then (cancel_only, RiskReason.exchange_disconnected ∷ [])
    else if not s.reconciliation_complete
    then (cancel_only, RiskReason.reconciliation_incomplete ∷ [])
    else if ltb now s.snapshot_ts_ns || ltb now s.public_data_ts_ns || ltb now s.private_data_ts_ns
    then (cancel_only, RiskReason.invalid_timestamp ∷ [])
    else if_any (stale_reasons limits s now) cancel_only (account_state limits s)
