-- ===== src/Heartbeat/Tests.antt =====
-- The heartbeat at concrete inputs: a healthy publication, and a kill that stops before its last step.
use aiquant_trader.Prelude.{◌≡◌, ◌≢◌, ◌⊎◌, inr, refl, true, false, none, some, List, [], ◌∷◌}
use aiquant_trader.Risk.KillSwitch.{KillSwitchRecord, missing, Disk, read, write}
use aiquant_trader.Sentinel.Watch.{Admission, Sentinel, guarded, classify}
use aiquant_trader.Heartbeat.{Publisher, set_health, make_heartbeat, absent, Folder, read_heartbeat}
use aiquant_trader.Heartbeat.Health.{renewed, AreMatched, is_well, classify-make_heartbeat}
use aiquant_trader.Heartbeat.Kill.{
  Node, NodeEvent, NeverCleared, publishing, writing, node_event, run_node, write-run_node,
}

abbrev admitted : Admission
admitted = record {
  admitted_deployment = 4;
  admitted_approval = 5;
  admitted_id = 6;
  admitted_expiry_ns = 900;
}

abbrev sentinel : Sentinel
sentinel = record {
  config = record {
    poll_interval_ms = 1_000;
    heartbeat_stale_after_ms = 5_000;
    deadman_timeout_ms = 20_000;
    deadman_renew_interval_ms = 5_000;
    cancel_retry_count = 3;
  };
  own_environment = 1;
  own_account = 2;
  own_fingerprint = 3;
  admission = some admitted;
}

abbrev publisher : Publisher
publisher = record {
  publisher_environment = 1;
  publisher_account = 2;
  publisher_fingerprint = 3;
  publisher_admission = some admitted;
  authorization = some 950;
  publisher_execution_healthy = true;
  publisher_reconciled = true;
  healthy_until_ns = some 2_000;
}

matched : AreMatched publisher sentinel (guarded (some 950))
matched = record {
  environments = refl;
  accounts = refl;
  fingerprints = refl;
  admissions = refl;
  authorizations = λ a e. renewed 950;
}

classify-make_heartbeat_example :
    classify sentinel (guarded (some 950)) (some (make_heartbeat missing 1_000 publisher)) 1_500
    ≡ is_well sentinel (guarded (some 950)) publisher missing 1_000 1_500
classify-make_heartbeat_example =
    classify-make_heartbeat sentinel (guarded (some 950)) publisher missing 1_000 1_500 matched

found_well : is_well sentinel (guarded (some 950)) publisher missing 1_000 1_500 ≡ true
unfolding read
found_well = refl

renewed_health : (set_health true true (some 7) 100 publisher).healthy_until_ns ≡ some 7_000_100
unfolding set_health
renewed_health = refl

abbrev kill : KillSwitchRecord
kill = record { record_id = 7; active = true; changed_ts_ns = 1_000; actor = 1; reason = 2 }

abbrev disk : Disk
disk = record { state = missing; audit = []; temporary = none }

abbrev folder : Folder
folder = record { shared = absent; temporary = absent }

kill_audited : (write 3 kill disk).audit ≢ []
unfolding write
kill_audited h = cc

-- A publication that is stopped, a clearing that is stopped before its audit entry, and a complete
-- publication.
abbrev events : List NodeEvent
events =
    publishing 2 1_100 publisher
    ∷ writing 1 (record kill { active = false })
    ∷ publishing 4 1_200 publisher
    ∷ []

abbrev node : Node
node = record { disk = disk; folder = folder }

never_cleared : NeverCleared events (node_event (writing 3 kill) node)
unfolding node_event write
never_cleared = (inr unaudited, tt)
  where
    unaudited : kill ∷ [] ≢ kill ∷ record kill { active = false } ∷ []
    unaudited h = cc

write-run_node_example :
    let shared = (run_node events (node_event (writing 3 kill) node)).folder.shared in
    ((true ≡ false) × (shared ≡ absent))
    ⊎ ((true ≡ true)
        × (classify sentinel (guarded (some 950)) (read_heartbeat shared) 1_300 ≡ false))
write-run_node_example =
    write-run_node 3 kill node events sentinel (guarded (some 950)) 1_300 refl kill_audited
      never_cleared
