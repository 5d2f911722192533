-- ===== src/Market/Integrity/Tests.antt =====
-- The tracker of market_data/integrity.py at concrete inputs: a window of two keys, trades that repeat
-- inside and outside of it, and a frame that does not parse.
use aiquant_trader.Prelude.{ℕ, ◌+◌, ◌*◌, ◌≡◌, refl, none, false, List, [], ◌∷◌, map}
use aiquant_trader.Paper.Orders.{seller}
use aiquant_trader.Market.Domain.{MarketEvent, trade, other, header_of}
use aiquant_trader.Market.Integrity.{
  QualityIssue, QualityIssueKind, schema_error, duplicate, timestamp_regression, cadence_anomaly,
  RawFrameMetadata, ParsedFrame, new_tracker, validation_error, is_duplicate_trade, observe_receipt,
  observe_time, observe_event, observe_events, observe_frame, record_parse_failure, Input,
  parsed_frame, unparsed_frame, observe_inputs,
}
use aiquant_trader.Market.Integrity.Window.{
  recent, remember_all, admitted, events_of, observe_inputs-admitted,
}

abbrev format : ℕ → ℕ → ℕ
format a b = a * 100 + b

abbrev sale : ℕ → ℕ → MarketEvent
sale id ts = trade (record {
  header = record { event_ts_ns = ts; receive_ts_ns = ts };
  trade_id = id;
  price = 90;
  size = 1;
  aggressor = seller;
  transaction_hash = none;
})

abbrev funding : ℕ → MarketEvent
funding ts = other 1 (record { event_ts_ns = ts; receive_ts_ns = ts })

abbrev frame : List MarketEvent → ParsedFrame
frame es = record { channel = 3; events = es; is_control = false }

abbrev received : ℕ → RawFrameMetadata
received ts = record { receive_ts_ns = ts; payload_sha256 = 8 }

-- The trade 1 is repeated while it is in the window, and again after 2 and 3 drove it out.
abbrev inputs : List Input
inputs =
    parsed_frame (frame (sale 1 10 ∷ funding 11 ∷ sale 1 12 ∷ [])) (received 13)
    ∷ unparsed_frame (validation_error false) (received 14)
    ∷ parsed_frame (frame (sale 2 15 ∷ sale 3 14 ∷ sale 1 16 ∷ [])) (received 99)
    ∷ []

times :
    map (λ e. (header_of e).event_ts_ns) (observe_inputs format inputs (new_tracker 50 2)).0
    ≡ 10 ∷ 11 ∷ 15 ∷ 14 ∷ 16 ∷ []
unfolding observe_inputs observe_frame observe_events observe_event observe_time observe_receipt
    is_duplicate_trade record_parse_failure
times = refl

kinds :
    map {B = QualityIssueKind}
      (λ (i : QualityIssue). i.kind)
      (observe_inputs format inputs (new_tracker 50 2)).1.issues
    ≡ duplicate ∷ schema_error ∷ cadence_anomaly ∷ timestamp_regression ∷ []
unfolding observe_inputs observe_frame observe_events observe_event observe_time observe_receipt
    is_duplicate_trade record_parse_failure
kinds = refl

observe_inputs-admitted_example :
    ((observe_inputs format inputs (new_tracker 50 2)).0 ≡ admitted format 2 [] (events_of inputs))
    × ((observe_inputs format inputs (new_tracker 50 2)).1.trade_keys
        ≡ recent 2 (remember_all format 2 [] (events_of inputs)))
observe_inputs-admitted_example = observe_inputs-admitted format 50 2 inputs
