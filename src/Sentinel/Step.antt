-- ===== src/Sentinel/Step.antt =====
-- `SafetySentinel.step` of sentinel/service.py: its memory, its calls of the exchange and its
-- operational records. The metrics are left out, and so is a record that cannot be appended. What the
-- exchange answers is an argument.
use aiquant_trader.Prelude.{
  ℕ, zero, suc, ◌+◌, ◌-◌, ◌*◌, ◌/◌, Bool, true, false, not, Option, none, some, List, [], ◌∷◌, ◌++◌,
  ltb, leb, if◌then◌else◌, when,
}
use aiquant_trader.Sentinel.Watch.{TradingHeartbeat, Sentinel, Guard, classify, same_bool}

pub data OperationalRecord : Type 0 where
  emergency_cancel : Bool → OperationalRecord
  deadman_schedule : Bool → OperationalRecord
  heartbeat_state : Bool → OperationalRecord

pub data Call : Type 0 where
  cancel_all : Call
  schedule_cancel : ℕ → Call

pub record Memory : Type 0 where
  pub last_renew_ns : ℕ
  pub last_emergency_cancel_ns : Option ℕ
  pub last_health : Option Bool
  pub last_deadman_schedule_success : Option Bool
  pub last_emergency_cancel_success : Option Bool

-- The memory of a new sentinel.
abbrev pub started : Memory
started = record {
  last_renew_ns = 0;
  last_emergency_cancel_ns = none;
  last_health = none;
  last_deadman_schedule_success = none;
  last_emergency_cancel_success = none;
}

-- The environment of a step: clock, heartbeat file, guard, and the answers of the exchange, a cancel
-- succeeding or failing at each try.
pub record World : Type 0 where
  pub now : ℕ
  pub heartbeat : Option TradingHeartbeat
  pub guard : Guard
  pub cancel_succeeds : ℕ → Bool
  pub schedule_succeeds : Bool

pub data Outcome : Type 0 where
  healthy unhealthy cancel_failed schedule_failed : Outcome

pub record Report : Type 0 where
  pub outcome : Outcome
  pub memory : Memory
  pub calls : List Call
  pub records : List OperationalRecord

abbrev pub remembers : Bool → Option Bool → Bool
remembers b none = false
remembers b (some c) = same_bool b c

-- The tries of `cancel_all`: whether one succeeded, and the calls.
unfoldable pub cancel_tries : (ℕ → Bool) → ℕ → ℕ → Bool × List Call
cancel_tries succeeds try zero = (false, [])
cancel_tries succeeds try (suc more) =
    let rest = cancel_tries succeeds (try + 1) more in
    if succeeds try then (true, cancel_all ∷ []) else (rest.0, cancel_all ∷ rest.1)

abbrev pub cancel_is_due : ℕ → ℕ → Option ℕ → Bool
cancel_is_due interval now none = true
cancel_is_due interval now (some last) = leb interval (now - last)

-- `_record_health_transition`
abbrev pub health_records : Bool → Memory → List OperationalRecord
health_records b m = when (not (remembers b m.last_health)) (heartbeat_state b)

abbrev pub note_unhealthy : Memory → List Call → List OperationalRecord → Report
note_unhealthy m calls rs = record {
  outcome = unhealthy;
  memory = record m { last_health = some false };
  calls = calls;
  records = rs ++ health_records false m;
}

unfoldable pub step_unhealthy : Sentinel → World → Memory → Report
unfolding cancel_tries
step_unhealthy s w m =
    if not (
      cancel_is_due (s.config.deadman_renew_interval_ms * 1_000_000) w.now
        m.last_emergency_cancel_ns)
    then note_unhealthy m [] []
    else let (done, calls) = cancel_tries w.cancel_succeeds 0 s.config.cancel_retry_count in
      let rs =
        when (not (remembers done m.last_emergency_cancel_success)) (emergency_cancel done) in
      if not done
      then record {
        outcome = cancel_failed;
        memory = record m { last_emergency_cancel_success = some false };
        calls = calls;
        records = rs;
      }
      else note_unhealthy
          (record m {
            last_emergency_cancel_success = some true;
            last_emergency_cancel_ns = some w.now;
          })
          calls rs

abbrev pub note_healthy : Memory → List Call → List OperationalRecord → Report
note_healthy m calls rs = record {
  outcome = healthy;
  memory = record m { last_health = some true };
  calls = calls;
  records = rs ++ health_records true m;
}

abbrev pub deadline : Sentinel → ℕ → ℕ
deadline s now = now / 1_000_000 + s.config.deadman_timeout_ms

unfoldable pub step_healthy : Sentinel → World → Memory → Report
step_healthy s w before =
    let m = record before {
      last_emergency_cancel_ns = none;
      last_emergency_cancel_success = none;
    } in
    let calls = schedule_cancel (deadline s w.now) ∷ [] in
    let rs =
      when (not (remembers w.schedule_succeeds m.last_deadman_schedule_success))
        (deadman_schedule w.schedule_succeeds) in
    if ltb (w.now - m.last_renew_ns) (s.config.deadman_renew_interval_ms * 1_000_000)
    then note_healthy m [] []
    else if not w.schedule_succeeds
    then record {
      outcome = schedule_failed;
      memory = record m { last_deadman_schedule_success = some false };
      calls = calls;
      records = rs;
    }
    else note_healthy
        (record m { last_deadman_schedule_success = some true; last_renew_ns = w.now }) calls rs

unfoldable pub step : Sentinel → World → Memory → Report
unfolding classify step_healthy step_unhealthy
step s w m =
    if classify s w.guard w.heartbeat w.now then step_healthy s w m else step_unhealthy s w m

-- The calls of a run, each with the step that made it.
unfoldable pub watch : Sentinel → List World → Memory → List (World × List Call)
unfolding step
watch s [] m = []
watch s (w ∷ ws) m = let r = step s w m in (w, r.calls) ∷ watch s ws r.memory
