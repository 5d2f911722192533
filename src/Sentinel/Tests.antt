-- ===== src/Sentinel/Tests.antt =====
-- The sentinel at concrete inputs: a healthy node, and one whose heartbeat is missing.
use aiquant_trader.Prelude.{ℕ, ◌≡◌, refl, true, false, none, some, List, [], ◌∷◌, map, All, arith}
use aiquant_trader.Sentinel.Watch.{
  TradingHeartbeat, SentinelConfig, validate_deadman_timing, Sentinel, unguarded, classify,
}
use aiquant_trader.Sentinel.Step.{
  Call, cancel_all, schedule_cancel, started, World, healthy, cancel_failed, cancel_tries,
  step_unhealthy, step_healthy, step, watch,
}
use aiquant_trader.Sentinel.Safety.{IsJustified, watch-IsJustified}
use aiquant_trader.Sentinel.Retry.{IsRetried, step_retries}

abbrev config : SentinelConfig
config = record {
  poll_interval_ms = 1_000;
  heartbeat_stale_after_ms = 5_000;
  deadman_timeout_ms = 20_000;
  deadman_renew_interval_ms = 5_000;
  cancel_retry_count = 3;
}

abbrev sentinel : Sentinel
sentinel = record {
  config = config;
  own_environment = 1;
  own_account = 2;
  own_fingerprint = 3;
  admission = none;
}

abbrev heartbeat_at : ℕ → TradingHeartbeat
heartbeat_at ts = record {
  heartbeat_ts_ns = ts;
  environment = 1;
  account_address = 2;
  execution_healthy = true;
  reconciliation_complete = true;
  operator_kill = false;
  config_fingerprint = 3;
  deployment_id = none;
  approval_id = none;
  admission_id = none;
  approval_expires_ts_ns = none;
}

abbrev alive : World
alive = record {
  now = 10_000_000_000;
  heartbeat = some (heartbeat_at 9_000_000_000);
  guard = unguarded;
  cancel_succeeds = λ n. true;
  schedule_succeeds = true;
}

abbrev silent : World
silent = record {
  now = 16_000_000_000;
  heartbeat = none;
  guard = unguarded;
  cancel_succeeds = λ n. false;
  schedule_succeeds = true;
}

calls_made :
    map {B = List Call}
      (λ (c : World × List Call). c.1)
      (watch sentinel (alive ∷ silent ∷ []) started)
    ≡ (schedule_cancel 30_000 ∷ []) ∷ (cancel_all ∷ cancel_all ∷ cancel_all ∷ []) ∷ []
unfolding watch step step_healthy step_unhealthy classify cancel_tries
calls_made = refl

timing_valid : validate_deadman_timing config ≡ true
unfolding validate_deadman_timing
timing_valid = refl

alive-healthy : (step sentinel alive started).outcome ≡ healthy
unfolding step step_healthy classify
alive-healthy = refl

silent-failed : (step sentinel silent started).outcome ≡ cancel_failed
unfolding step step_unhealthy classify cancel_tries
silent-failed = refl

silent-sick : classify sentinel unguarded none 16_000_000_000 ≡ false
unfolding classify
silent-sick = refl

step_retries_example :
    IsRetried sentinel silent (step sentinel silent (step sentinel silent started).memory)
step_retries_example =
    step_retries sentinel silent silent started timing_valid silent-failed (omega arith) silent-sick

watch-IsJustified_example :
    All
      (λ (c : World × List Call). All (IsJustified sentinel c.0) c.1)
      (watch sentinel (alive ∷ silent ∷ []) started)
watch-IsJustified_example = watch-IsJustified sentinel (alive ∷ silent ∷ []) started
