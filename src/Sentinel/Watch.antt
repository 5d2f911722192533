-- ===== src/Sentinel/Watch.antt =====
-- `SafetySentinel._classify` of sentinel/service.py, with the heartbeat of domain/execution.py and the
-- timing of config/models.py.
use aiquant_trader.Prelude.{
  ℕ, ◌-◌, ◌*◌, Bool, true, false, not, ◌&&◌, Option, none, some, leb, ◌==◌, eq_option, is_some,
}

pub record TradingHeartbeat : Type 0 where
  pub heartbeat_ts_ns : ℕ
  pub environment : ℕ
  pub account_address : ℕ
  pub execution_healthy : Bool
  pub reconciliation_complete : Bool
  pub operator_kill : Bool
  pub config_fingerprint : ℕ
  pub deployment_id : Option ℕ
  pub approval_id : Option ℕ
  pub admission_id : Option ℕ
  pub approval_expires_ts_ns : Option ℕ

pub record SentinelConfig : Type 0 where
  pub poll_interval_ms : ℕ
  pub heartbeat_stale_after_ms : ℕ
  pub deadman_timeout_ms : ℕ
  pub deadman_renew_interval_ms : ℕ
  pub cancel_retry_count : ℕ

-- `SentinelConfig.validate_deadman_timing`, with the least number of tries.
unfoldable pub validate_deadman_timing : SentinelConfig → Bool
validate_deadman_timing c =
    not (leb (c.deadman_timeout_ms - 5_000) c.deadman_renew_interval_ms)
    && not (leb c.heartbeat_stale_after_ms c.poll_interval_ms)
    && leb 1 c.cancel_retry_count

-- The verified admission that the sentinel was started with; the expiry in nanoseconds.
pub record Admission : Type 0 where
  pub admitted_deployment : ℕ
  pub admitted_approval : ℕ
  pub admitted_id : ℕ
  pub admitted_expiry_ns : ℕ

pub record Sentinel : Type 0 where
  pub config : SentinelConfig
  pub own_environment : ℕ
  pub own_account : ℕ
  pub own_fingerprint : ℕ
  pub admission : Option Admission

-- The admission guard: none was given, or its answer, the expiry in nanoseconds of the active record.
pub data Guard : Type 0 where
  unguarded : Guard
  guarded : Option ℕ → Guard

abbrev pub admission_healthy : Guard → Bool
admission_healthy unguarded = true
admission_healthy (guarded o) = is_some o

abbrev pub expected_expiry : Admission → Guard → ℕ
expected_expiry a unguarded = a.admitted_expiry_ns
expected_expiry a (guarded none) = a.admitted_expiry_ns
expected_expiry a (guarded (some expiry)) = expiry

abbrev pub identity_healthy : Option Admission → Guard → TradingHeartbeat → Bool
identity_healthy none g h = true
identity_healthy (some a) g h =
    eq_option h.deployment_id (some a.admitted_deployment)
    && eq_option h.approval_id (some a.admitted_approval)
    && eq_option h.admission_id (some a.admitted_id)
    && eq_option h.approval_expires_ts_ns (some (expected_expiry a g))

abbrev pub same_bool : Bool → Bool → Bool
same_bool true b = b
same_bool false b = not b

-- The health that `_classify` returns; its age and its admission only feed the metrics.
unfoldable pub classify : Sentinel → Guard → Option TradingHeartbeat → ℕ → Bool
classify s g none now = false
classify s g (some h) now =
    (leb (now - h.heartbeat_ts_ns) (s.config.heartbeat_stale_after_ms * 1_000_000)
      && admission_healthy g
      && identity_healthy s.admission g h)
    && (h.environment == s.own_environment
        && h.account_address == s.own_account
        && h.config_fingerprint == s.own_fingerprint)
    && (h.execution_healthy && h.reconciliation_complete && not h.operator_kill)
