-- ===== src/Risk/KillSwitch.antt =====
-- risk/kill_switch.py: the operator kill state on disk. A write is the sequence of its durable file
-- operations, so that a crash is a prefix of the sequence. Actors, reasons and record identifiers
-- are only stored, so natural numbers stand for them.
pub mod Crash
use aiquant_trader.Prelude.{
  ℕ, zero, suc, ◌+◌, Bool, true, false, Option, none, some, List, [], ◌∷◌, ◌++◌, if◌then◌else◌,
}

pub record KillSwitchRecord : Type 0 where
  pub record_id : ℕ
  pub active : Bool
  pub changed_ts_ns : ℕ
  pub actor : ℕ
  pub reason : ℕ

-- What stands at the state path: nothing, text that does not validate, or a record.
pub data StateFile : Type 0 where
  missing : StateFile
  unreadable : StateFile
  holds : KillSwitchRecord → StateFile

pub record Disk : Type 0 where
  pub state : StateFile
  pub audit : List KillSwitchRecord
  pub temporary : Option KillSwitchRecord

-- `read`: a missing file is inactive, and any other failure that it catches is an active kill: an
-- `OSError`, text that is not JSON, or a record that does not validate. Bytes that are not UTF-8,
-- where it raises, are left out. The identifiers of the two synthetic records are 0 and 1.
unfoldable pub read : StateFile → ℕ → KillSwitchRecord
read missing now = record {
  record_id = 0;
  active = false;
  changed_ts_ns = 0;
  actor = 0;
  reason = 0;
}
read unreadable now = record {
  record_id = 1;
  active = true;
  changed_ts_ns = now;
  actor = 0;
  reason = 1;
}
read (holds r) now = r

-- The file operations of a write, each of them flushed before the next. To append an audit entry is
-- one of them; a line that a crash tears is left out.
pub data FileStep : Type 0 where
  write_temporary replace_state append_audit unlink_temporary : FileStep

unfoldable pub file_step : KillSwitchRecord → FileStep → Disk → Disk
file_step r write_temporary disk = record disk { temporary = some r }
file_step r replace_state disk = record disk { state = holds r; temporary = none }
file_step r append_audit disk = record disk { audit = disk.audit ++ r ∷ [] }
file_step r unlink_temporary disk = record disk { temporary = none }

-- The order of `_write`: a kill takes force before it is audited, and a clearing is audited before
-- it takes force.
unfoldable pub write_steps : Bool → List FileStep
write_steps true = write_temporary ∷ replace_state ∷ append_audit ∷ unlink_temporary ∷ []
write_steps false = write_temporary ∷ append_audit ∷ replace_state ∷ unlink_temporary ∷ []

-- The disk when the process stops after `done` of the steps.
unfoldable pub run_steps : ℕ → KillSwitchRecord → List FileStep → Disk → Disk
run_steps zero r steps disk = disk
run_steps (suc left) r [] disk = disk
run_steps (suc left) r (step ∷ steps) disk = run_steps left r steps (file_step r step disk)

-- `_write`, stopped after `done` of its steps; all of them are four.
unfoldable pub write : ℕ → KillSwitchRecord → Disk → Disk
unfolding run_steps file_step write_steps
write done r disk = run_steps done r (write_steps r.active) disk
