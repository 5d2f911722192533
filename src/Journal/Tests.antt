-- ===== src/Journal/Tests.antt =====
-- The execution journal at concrete inputs.
use aiquant_trader.Prelude.{ℕ, ◌+◌, ◌≡◌, refl, false, none, some, List, [], ◌∷◌, length, keep}
use aiquant_trader.Journal.States.{
  ExecutionState, pending_submit, submitted, filled, canceled, unknown, may_follow, terminal,
}
use aiquant_trader.Journal.Table.{
  Row, Event, Journal, empty, find_order, bound_elsewhere, apply_event, set_unknown, update_order,
  has_event, states_of,
}
use aiquant_trader.Journal.Store.{
  ok, is_stale, mark_stale_submissions_unknown, make_event, Command, begin_order, append_event,
  mark_stale, begin, append, execute, run, unresolved_command_count, unknown_command_count,
}
use aiquant_trader.Journal.Lifecycle.{Agrees}
use aiquant_trader.Journal.History.{Records, run-IsSound, empty-IsSound, run_history, run_terminal}
use aiquant_trader.Journal.Complete.{mark_stale_complete}

abbrev event : ℕ → ℕ → ExecutionState → ℕ → Event
event n intent s ts = record {
  event_id = n;
  intent_id = intent;
  client_order_id = some (intent + 100);
  venue_order_id = none;
  state = s;
  event_ts_ns = ts;
  filled_quantity_base = 0;
}

-- Two orders; one is filled, a late cancel of it is refused, and the other becomes unknown.
abbrev commands : List Command
commands =
    begin_order (event 1 7 pending_submit 10)
    ∷ append_event (event 2 7 submitted 11)
    ∷ begin_order (event 3 8 pending_submit 12)
    ∷ append_event (event 4 7 filled 13)
    ∷ append_event (event 5 7 canceled 14)
    ∷ mark_stale 20 (λ r. r.intent_id + 50) 30
    ∷ []

recorded_states : states_of 7 (run commands empty).events ≡ pending_submit ∷ submitted ∷ filled ∷ []
unfolding run execute begin append mark_stale_submissions_unknown make_event find_order
    bound_elsewhere apply_event set_unknown update_order has_event states_of may_follow
recorded_states = refl

marked_states : states_of 8 (run commands empty).events ≡ pending_submit ∷ unknown ∷ []
unfolding run execute begin append mark_stale_submissions_unknown make_event find_order
    bound_elsewhere apply_event set_unknown update_order has_event states_of may_follow
marked_states = refl

open_counts :
    (unresolved_command_count (run commands empty) ≡ 1)
    × (unknown_command_count (run commands empty) ≡ 1)
unfolding run execute begin append mark_stale_submissions_unknown make_event find_order
    bound_elsewhere apply_event set_unknown update_order has_event may_follow
    unresolved_command_count unknown_command_count
open_counts = (refl, refl)

run_history_example :
    Agrees (states_of 7 (run commands empty).events) (find_order 7 (run commands empty).orders)
run_history_example = run_history commands 7

abbrev filled_row : Row
filled_row = record {
  intent_id = 7;
  client_order_id = some 107;
  venue_order_id = none;
  state = filled;
  updated_ts_ns = 13;
  filled_quantity_base = 0;
}

abbrev one_order : List Command
one_order =
    begin_order (event 1 7 pending_submit 10)
    ∷ append_event (event 2 7 submitted 11)
    ∷ append_event (event 4 7 filled 13)
    ∷ []

one_order-Records : Records (run one_order empty) 7 filled
unfolding run execute begin append find_order bound_elsewhere apply_event update_order has_event
    may_follow
one_order-Records = record { row = filled_row; found = refl; state = refl }

run_terminal_example : Records (run commands (run one_order empty)) 7 filled
unfolding terminal
run_terminal_example =
    run_terminal 7 filled refl commands (run one_order empty)
      (run-IsSound one_order empty empty-IsSound) one_order-Records

abbrev open_row : Row
open_row = record {
  intent_id = 8;
  client_order_id = none;
  venue_order_id = none;
  state = submitted;
  updated_ts_ns = 12;
  filled_quantity_base = 0;
}

abbrev before : Journal
before = record { orders = open_row ∷ []; events = [] }

abbrev after : Journal
after = record {
  orders = record open_row { state = unknown; updated_ts_ns = 30 } ∷ [];
  events = make_event (λ r. 9) 30 open_row ∷ [];
}

marks : mark_stale_submissions_unknown 20 (make_event (λ r. 9) 30) before ≡ ok (after, 1)
unfolding mark_stale_submissions_unknown make_event find_order set_unknown update_order has_event
marks = refl

mark_stale_complete_example :
    (1 ≡ length (keep (is_stale 20) before.orders))
    × ((id : ℕ) (row : Row) → find_order id after.orders ≡ some row → is_stale 20 row ≡ false)
mark_stale_complete_example = mark_stale_complete 20 (λ r. 9) 30 before after 1 marks
