-- ===== src/Market/Integrity.antt =====
-- market_data/integrity.py: `IntegrityTracker`, with the issues of domain/data.py. A text is a natural
-- number; the f-string of the key of a trade is a parameter of two numbers. The keys of the trades are
-- kept with the newest first: the oldest item of the ordered dictionary is the last of the list.
mod Window
mod Tests
use aiquant_trader.Prelude.{
  ℕ, ◌+◌, ◌-◌, max, Bool, true, false, Option, none, some, List, [], ◌∷◌, ◌++◌, ltb, ◌==◌,
  if◌then◌else◌, member, length,
}
use aiquant_trader.Market.Domain.{
  EventHeader, TradeEvent, MarketEvent, l2_book, bbo, trade, other, header_of,
}

pub record RawFrameMetadata : Type 0 where
  pub receive_ts_ns : ℕ
  pub payload_sha256 : ℕ

pub record ParsedFrame : Type 0 where
  pub channel : ℕ
  pub events : List MarketEvent
  pub is_control : Bool

pub data QualityIssueKind : Type 0 where
  schema_error duplicate timestamp_regression crossed_book silence : QualityIssueKind
  reconnect cadence_anomaly disk_pressure unexplained_gap : QualityIssueKind

-- The codes that the tracker writes, and those of protocol errors.
pub data IssueCode : Type 0 where
  receive_gap_exceeded event_time_regressed duplicate_trade_key : IssueCode
  crossed_book_code domain_validation_failed : IssueCode
  protocol_code : ℕ → IssueCode

pub record QualityIssue : Type 0 where
  pub kind : QualityIssueKind
  pub receive_ts_ns : ℕ
  pub event_ts_ns : Option ℕ
  pub channel : ℕ
  pub code : IssueCode
  pub payload_sha256 : Option ℕ

pub record IntegrityTracker : Type 0 where
  pub cadence_threshold_ns : ℕ
  pub duplicate_window : ℕ
  pub issues : List QualityIssue
  pub last_event_ts : List (ℕ × ℕ)
  pub last_receive_ts : List (ℕ × ℕ)
  pub trade_keys : List ℕ

abbrev pub new_tracker : ℕ → ℕ → IntegrityTracker
new_tracker threshold window = record {
  cadence_threshold_ns = threshold;
  duplicate_window = window;
  issues = [];
  last_event_ts = [];
  last_receive_ts = [];
  trade_keys = [];
}

-- A dictionary of texts to integers.
abbrev pub get : ℕ → List (ℕ × ℕ) → Option ℕ
get k [] = none
get k ((key, value) ∷ d) = if k == key then some value else get k d

abbrev pub set : ℕ → ℕ → List (ℕ × ℕ) → List (ℕ × ℕ)
set k v [] = (k, v) ∷ []
set k v ((key, value) ∷ d) =
    let rest = set k v d in if k == key then (k, v) ∷ d else (key, value) ∷ rest

abbrev pub is_late : ℕ → Option ℕ → ℕ → Bool
is_late now none threshold = false
is_late now (some last) threshold = ltb threshold (now - last)

abbrev pub regresses : ℕ → Option ℕ → Bool
regresses ts none = false
regresses ts (some previous) = ltb ts previous

abbrev pub or_zero : Option ℕ → ℕ
or_zero none = 0
or_zero (some n) = n

abbrev pub event_type : MarketEvent → ℕ
event_type (l2_book e) = 0
event_type (bbo e) = 1
event_type (trade e) = 2
event_type (other kind h) = kind + 3

abbrev pub add_issue : Bool → QualityIssue → IntegrityTracker → IntegrityTracker
add_issue found i t = if found then record t { issues = t.issues ++ i ∷ [] } else t

-- The check of the cadence, and the receipt.
unfoldable pub observe_receipt :
    ParsedFrame → RawFrameMetadata → IntegrityTracker → IntegrityTracker
observe_receipt f m t =
    let issue : QualityIssue = record {
      kind = cadence_anomaly;
      receive_ts_ns = m.receive_ts_ns;
      event_ts_ns = none;
      channel = f.channel;
      code = receive_gap_exceeded;
      payload_sha256 = some m.payload_sha256;
    } in
    let late = is_late m.receive_ts_ns (get f.channel t.last_receive_ts) t.cadence_threshold_ns in
    let u = add_issue late issue t in
    record u { last_receive_ts = set f.channel m.receive_ts_ns t.last_receive_ts }

abbrev pub event_issue :
    QualityIssueKind → IssueCode → ParsedFrame → RawFrameMetadata → ℕ → QualityIssue
event_issue kind code f m ts = record {
  kind = kind;
  receive_ts_ns = m.receive_ts_ns;
  event_ts_ns = some ts;
  channel = f.channel;
  code = code;
  payload_sha256 = some m.payload_sha256;
}

-- The check of the time of an event, and the latest time of its type.
unfoldable pub observe_time :
    ParsedFrame → RawFrameMetadata → MarketEvent → IntegrityTracker → IntegrityTracker
observe_time f m e t =
    let ts = (header_of e).event_ts_ns in
    let previous = get (event_type e) t.last_event_ts in
    let u =
      add_issue (regresses ts previous)
        (event_issue timestamp_regression event_time_regressed f m ts) t in
    record u { last_event_ts = set (event_type e) (max (or_zero previous) ts) t.last_event_ts }

-- The key of a trade; 0 is the empty text.
abbrev pub key : (ℕ → ℕ → ℕ) → TradeEvent → ℕ
key format t = format t.trade_id (or_zero t.transaction_hash)

abbrev pub remove : ℕ → List ℕ → List ℕ
remove k [] = []
remove k (x ∷ xs) = let rest = remove k xs in if k == x then xs else x ∷ rest

abbrev pub pop_oldest : List ℕ → List ℕ
pop_oldest [] = []
pop_oldest (x ∷ []) = []
pop_oldest (x ∷ y ∷ ys) = x ∷ pop_oldest (y ∷ ys)

-- `_is_duplicate_trade` on the key: the answer, and the keys after it.
unfoldable pub is_duplicate_trade : ℕ → ℕ → List ℕ → Bool × List ℕ
is_duplicate_trade window k keys =
    if member k keys
    then (true, k ∷ remove k keys)
    else if ltb window (length (k ∷ keys))
    then (false, pop_oldest (k ∷ keys))
    else (false, k ∷ keys)

-- A turn of the loop over the events: whether the event is accepted, and the tracker.
abbrev pub verdict :
    ParsedFrame → RawFrameMetadata → ℕ → IntegrityTracker → Bool × List ℕ → Bool × IntegrityTracker
verdict f m ts t (true, keys) = (
  false,
  record t {
    issues = t.issues ++ event_issue duplicate duplicate_trade_key f m ts ∷ [];
    trade_keys = keys;
  },
)
verdict f m ts t (false, keys) = (true, record t { trade_keys = keys })

unfoldable pub observe_event :
    (ℕ → ℕ → ℕ)
    → ParsedFrame
    → RawFrameMetadata
    → MarketEvent
    → IntegrityTracker
    → Bool × IntegrityTracker
unfolding observe_time is_duplicate_trade
observe_event format f m (trade e) t =
    let u = observe_time f m (trade e) t in
    verdict f m e.header.event_ts_ns u
      (is_duplicate_trade u.duplicate_window (key format e) u.trade_keys)
observe_event format f m (l2_book e) t = (true, observe_time f m (l2_book e) t)
observe_event format f m (bbo e) t = (true, observe_time f m (bbo e) t)
observe_event format f m (other kind h) t = (true, observe_time f m (other kind h) t)

unfoldable pub observe_events :
    (ℕ → ℕ → ℕ)
    → ParsedFrame
    → RawFrameMetadata
    → List MarketEvent
    → IntegrityTracker
    → List MarketEvent × IntegrityTracker
unfolding observe_event
observe_events format f m [] t = ([], t)
observe_events format f m (e ∷ es) t =
    let (accepted, u) = observe_event format f m e t in
    let (rest, v) = observe_events format f m es u in (if accepted then e ∷ rest else rest, v)

-- `observe_frame`
unfoldable pub observe_frame :
    (ℕ → ℕ → ℕ)
    → ParsedFrame
    → RawFrameMetadata
    → IntegrityTracker
    → List MarketEvent × IntegrityTracker
unfolding observe_receipt observe_events
observe_frame format f m t = observe_events format f m f.events (observe_receipt f m t)

-- An error of the parser, with its channel and its code; or of the validation, with whether its message
-- is one of the two about crossed books.
pub data ParseFailure : Type 0 where
  protocol_error : ℕ → ℕ → ParseFailure
  validation_error : Bool → ParseFailure

-- `record_parse_failure`; 0 is the channel "unknown".
abbrev pub failure_issue : ParseFailure → RawFrameMetadata → QualityIssue
failure_issue (protocol_error channel code) m = record {
  kind = schema_error;
  receive_ts_ns = m.receive_ts_ns;
  event_ts_ns = none;
  channel = channel;
  code = protocol_code code;
  payload_sha256 = some m.payload_sha256;
}
failure_issue (validation_error crossed) m = record {
  kind = if crossed then crossed_book else schema_error;
  receive_ts_ns = m.receive_ts_ns;
  event_ts_ns = none;
  channel = 0;
  code = if crossed then crossed_book_code else domain_validation_failed;
  payload_sha256 = some m.payload_sha256;
}

unfoldable pub record_parse_failure :
    ParseFailure → RawFrameMetadata → IntegrityTracker → QualityIssue × IntegrityTracker
record_parse_failure e m t =
    (failure_issue e m, record t { issues = t.issues ++ failure_issue e m ∷ [] })

-- A frame that the parser returned, or its failure.
pub data Input : Type 0 where
  parsed_frame : ParsedFrame → RawFrameMetadata → Input
  unparsed_frame : ParseFailure → RawFrameMetadata → Input

-- The events that a sequence of inputs leaves, and the tracker after it.
unfoldable pub observe_inputs :
    (ℕ → ℕ → ℕ) → List Input → IntegrityTracker → List MarketEvent × IntegrityTracker
unfolding observe_frame record_parse_failure
observe_inputs format [] t = ([], t)
observe_inputs format (parsed_frame f m ∷ is) t =
    let (accepted, u) = observe_frame format f m t in
    let (rest, v) = observe_inputs format is u in (accepted ++ rest, v)
observe_inputs format (unparsed_frame e m ∷ is) t =
    observe_inputs format is (record_parse_failure e m t).1
