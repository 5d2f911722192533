-- ===== src/Heartbeat.antt =====
-- execution/heartbeat.py: `HeartbeatPublisher`, and the file that it shares with the sentinel. The
-- publisher reads the kill switch (risk/kill_switch.py) at each publication. A publication is the
-- sequence of its file operations, so that a crash is a prefix of the sequence.
pub mod Health
pub mod Kill
mod Tests
use aiquant_trader.Prelude.{
  ℕ, zero, suc, ◌+◌, ◌*◌, Bool, true, false, not, ◌&&◌, ◌||◌, Option, none, some, List, [], ◌∷◌,
  ltb, if◌then◌else◌,
}
use aiquant_trader.Risk.KillSwitch.{StateFile, KillSwitchRecord, read}
use aiquant_trader.Sentinel.Watch.{TradingHeartbeat, Admission}

-- The admission, if there is one, and the expiry of its current authorization, if one is followed;
-- both in nanoseconds.
pub record Publisher : Type 0 where
  pub publisher_environment : ℕ
  pub publisher_account : ℕ
  pub publisher_fingerprint : ℕ
  pub publisher_admission : Option Admission
  pub authorization : Option ℕ
  pub publisher_execution_healthy : Bool
  pub publisher_reconciled : Bool
  pub healthy_until_ns : Option ℕ

-- `set_health`, at the clock `now`.
unfoldable pub set_health : Bool → Bool → Option ℕ → ℕ → Publisher → Publisher
set_health execution reconciled valid_for_ms now p = record p {
  publisher_execution_healthy = execution;
  publisher_reconciled = reconciled;
  healthy_until_ns = elim valid_for_ms [ none ↦ none | some ms ↦ some (now + ms * 1_000_000) ];
}

abbrev pub is_over : Option ℕ → ℕ → Bool
is_over none now = false
is_over (some until) now = ltb until now

abbrev pub authorization_expiry : Option Admission → Option ℕ → Option ℕ
authorization_expiry none authorization = none
authorization_expiry (some a) none = some a.admitted_expiry_ns
authorization_expiry (some a) (some expiry) = some expiry

abbrev pub map_admission : (Admission → ℕ) → Option Admission → Option ℕ
map_admission f none = none
map_admission f (some a) = some (f a)

-- The heartbeat that `publish` writes, at the clock `now` and the state file of the kill switch.
unfoldable pub make_heartbeat : StateFile → ℕ → Publisher → TradingHeartbeat
unfolding read
make_heartbeat file now p =
    let kill_active = (read file now).active in
    let healthy = p.publisher_execution_healthy && not (is_over p.healthy_until_ns now) in
    record {
      heartbeat_ts_ns = now;
      environment = p.publisher_environment;
      account_address = p.publisher_account;
      execution_healthy = healthy && not kill_active;
      reconciliation_complete = p.publisher_reconciled;
      operator_kill = kill_active;
      config_fingerprint = p.publisher_fingerprint;
      deployment_id = map_admission (λ a. a.admitted_deployment) p.publisher_admission;
      approval_id = map_admission (λ a. a.admitted_approval) p.publisher_admission;
      admission_id = map_admission (λ a. a.admitted_id) p.publisher_admission;
      approval_expires_ts_ns = authorization_expiry p.publisher_admission p.authorization;
    }

-- The heartbeat file: none, text that does not validate, or a heartbeat; and the temporary file.
pub data HeartbeatFile : Type 0 where
  absent : HeartbeatFile
  garbled : HeartbeatFile
  published : TradingHeartbeat → HeartbeatFile

pub record Folder : Type 0 where
  pub shared : HeartbeatFile
  pub temporary : HeartbeatFile

-- The file operations of `publish`; the creation of the temporary file and its writing are apart.
pub data PublishStep : Type 0 where
  create_temporary write_temporary replace_shared unlink_temporary : PublishStep

unfoldable pub publish_step : TradingHeartbeat → PublishStep → Folder → Folder
publish_step h create_temporary d = record d { temporary = garbled }
publish_step h write_temporary d = record d { temporary = published h }
publish_step h replace_shared d = record { shared = d.temporary; temporary = absent }
publish_step h unlink_temporary d = record d { temporary = absent }

abbrev pub publish_steps : List PublishStep
publish_steps = create_temporary ∷ write_temporary ∷ replace_shared ∷ unlink_temporary ∷ []

unfoldable pub run_steps : ℕ → TradingHeartbeat → List PublishStep → Folder → Folder
unfolding publish_step
run_steps zero h steps d = d
run_steps (suc left) h [] d = d
run_steps (suc left) h (s ∷ steps) d = run_steps left h steps (publish_step h s d)

-- `publish`, stopped after `done` of its steps; all of them are four.
unfoldable pub publish : ℕ → StateFile → ℕ → Publisher → Folder → Folder
unfolding make_heartbeat run_steps
publish done file now p d = run_steps done (make_heartbeat file now p) publish_steps d

-- `read_heartbeat`, as the sentinel calls it: an error is no heartbeat.
unfoldable pub read_heartbeat : HeartbeatFile → Option TradingHeartbeat
read_heartbeat absent = none
read_heartbeat garbled = none
read_heartbeat (published h) = some h
