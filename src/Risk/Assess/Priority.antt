-- ===== src/Risk/Assess/Priority.antt =====
-- When `RiskAuthority._state` finds the account in each state.
use aiquant_trader.Prelude.{
  ℕ, ◌+◌, ◌*◌, ◌≤◌, ◌<◌, ◌≡◌, ◌≢◌, ◌↔◌, Bool, true, false, ◌||◌, [], ◌∷◌, arith,
}
use aiquant_trader.Prelude.Int.{pos, pos_part, ◌-ℤ◌, ◌≤ℤ◌}
use aiquant_trader.Risk.Domain.{
  RiskReason, RiskSnapshot, RiskLimits, active, cancel_only, halted, unit, ms,
}
use aiquant_trader.Risk.Assess.{
  Assessment, exceeds, loss_at_least, stale_reasons, economic_reasons, account_state, assess,
}

abbrev pub explained : Assessment → Bool
explained (active, rs) = true
explained (_, []) = false
explained (_, r ∷ rs) = true

-- A state other than active always comes with a reason.
pub assess-explained :
    (limits : RiskLimits) (kill : Bool) (s : RiskSnapshot) (now : ℕ)
    → explained (assess limits kill s now) ≡ true
unfolding assess account_state
assess-explained limits kill s now = ground arith

-- The feeds are connected, reconciled and fresh, and nobody has stopped the account.
pub record IsTrusted (limits : RiskLimits) (kill : Bool) (s : RiskSnapshot) (now : ℕ) : Type 0 where
  pub not_killed : (kill ≡ false) × (s.operator_kill ≡ false)
  pub approved : s.deployment_approved ≡ true
  pub capital : exceeds s.account_equity_usd s.approved_capital_limit_usd ≡ false
  pub connected : s.exchange_connected ≡ true
  pub reconciled : s.reconciliation_complete ≡ true
  pub causal : (s.snapshot_ts_ns ≤ now) × (s.public_data_ts_ns ≤ now) × (s.private_data_ts_ns ≤ now)
  pub public_fresh : now ≤ s.public_data_ts_ns + limits.public_data_stale_after_ms * ms
  pub private_fresh : now ≤ s.private_data_ts_ns + limits.private_data_stale_after_ms * ms

-- The account is solvent and inside its loss, drawdown and leverage limits; a loss limit is read
-- as `loss < fraction * start`, in units.
pub record IsSound (limits : RiskLimits) (s : RiskSnapshot) : Type 0 where
  pub equity : pos 1 ≤ℤ s.account_equity_usd
  pub day_start : pos 1 ≤ℤ s.day_start_equity_usd
  pub high_water : pos 1 ≤ℤ s.high_water_equity_usd
  pub not_flattening : s.flatten_requested ≡ false
  pub daily_loss :
      pos_part (s.day_start_equity_usd -ℤ s.account_equity_usd) * unit
      < limits.daily_loss_fraction * pos_part s.day_start_equity_usd
  pub drawdown :
      pos_part (s.high_water_equity_usd -ℤ s.account_equity_usd) * unit
      < limits.max_drawdown_fraction * pos_part s.high_water_equity_usd
  pub leverage : (pos 0 ≤ℤ s.leverage) × (s.leverage ≤ℤ pos limits.max_leverage)

account_state-active :
    (limits : RiskLimits) (s : RiskSnapshot)
    → ((account_state limits s).0 ≡ active) ↔ IsSound limits s
unfolding account_state economic_reasons loss_at_least
account_state-active limits s = (λ h. ground arith, λ h. ground arith)

-- A state other than cancel-only and halted needs a trusted account, and is then the account's.
trusted_state :
    (limits : RiskLimits) (kill : Bool) (s : RiskSnapshot) (now : ℕ)
    → IsTrusted limits kill s now
    → assess limits kill s now ≡ account_state limits s
unfolding assess stale_reasons
trusted_state limits kill s now h = ground arith

IsTrusted-of :
    (limits : RiskLimits) (kill : Bool) (s : RiskSnapshot) (now : ℕ)
    → (assess limits kill s now).0 ≢ cancel_only
    → (assess limits kill s now).0 ≢ halted
    → IsTrusted limits kill s now
unfolding assess stale_reasons
IsTrusted-of limits kill s now h g = ground arith

-- The account is active exactly when it is trusted (not killed, approved, within its capital,
-- connected, reconciled, with fresh data of the past) and sound (solvent, not flattening, inside
-- its daily loss, drawdown and leverage limits).
pub assess_active :
    (limits : RiskLimits) (kill : Bool) (s : RiskSnapshot) (now : ℕ)
    → ((assess limits kill s now).0 ≡ active) ↔ (IsTrusted limits kill s now × IsSound limits s)
assess_active limits kill s now = (forward, backward)
  where
    forward : (assess limits kill s now).0 ≡ active → IsTrusted limits kill s now × IsSound limits s
    forward h =
        let t = IsTrusted-of limits kill s now (λ e. cc) (λ e. cc) in
        (t, (account_state-active limits s).0 (rw (trusted_state limits kill s now t) at h))

    backward :
        IsTrusted limits kill s now × IsSound limits s → (assess limits kill s now).0 ≡ active
    backward (t, k) = rw (trusted_state limits kill s now t) ((account_state-active limits s).1 k)

-- A kill, by the switch or in the snapshot, halts the account whatever else holds.
pub assess_killed :
    (limits : RiskLimits) (kill : Bool) (s : RiskSnapshot) (now : ℕ)
    → (kill || s.operator_kill) ≡ true
    → assess limits kill s now ≡ (halted, RiskReason.operator_kill ∷ [])
unfolding assess
assess_killed limits kill s now h = ground arith
