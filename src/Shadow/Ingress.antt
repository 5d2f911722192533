-- ===== src/Shadow/Ingress.antt =====
-- shadow/ingress.py: the writer and the reader of the durable table `frames`, and
-- `ShadowIngressEnvelope` of shadow/models.py. The canonical JSON of an envelope and the parser of it are
-- parameters, as is SHA-256. The writer's transaction is one INSERT.
pub mod Pages
pub mod RoundTrip
mod Tests
use aiquant_trader.Prelude.{
  ℕ, zero, suc, ◌+◌, ◌≡◌, max, Bool, true, false, not, ◌&&◌, ◌||◌, Option, none, some, List, [],
  ◌∷◌, ◌++◌, ltb, leb, ◌==◌, if◌then◌else◌, keep, take,
}

-- A market event: its receipt, whether it is of one of `PUBLIC_EVENT_TYPES`, and its contents.
pub record MarketEvent : Type 0 where
  pub event_receive_ts_ns : ℕ
  pub is_public : Bool
  pub contents : ℕ

pub record ParsedFrame : Type 0 where
  pub frame_channel : ℕ
  pub frame_channel_size : ℕ
  pub frame_events : List MarketEvent
  pub frame_is_control : Bool

pub record ShadowIngressEnvelope : Type 0 where
  pub channel : ℕ
  pub channel_size : ℕ
  pub events : List MarketEvent
  pub is_control : Bool
  pub receive_ts_ns : ℕ
  pub written_ts_ns : ℕ

abbrev pub is_empty : List MarketEvent → Bool
is_empty [] = true
is_empty (e ∷ es) = false

abbrev pub all_public : List MarketEvent → Bool
all_public [] = true
all_public (e ∷ es) = e.is_public && all_public es

-- The length of the channel, and `public_events_only`: false where the validation raises.
unfoldable pub validate_envelope : ShadowIngressEnvelope → Bool
validate_envelope e =
    not (ltb e.channel_size 1 || ltb 64 e.channel_size)
    && not (e.is_control && not (is_empty e.events))
    && all_public e.events
    && not (ltb (e.written_ts_ns + 60_000_000_000) e.receive_ts_ns)

-- `canonical_bytes`, `model_validate_json` and `sha256`; what the reader relies on is that a valid
-- envelope is parsed back.
pub record Codec : Type 0 where
  pub canonical_bytes : ShadowIngressEnvelope → List ℕ
  pub parse : List ℕ → Option ShadowIngressEnvelope
  pub sha256 : List ℕ → ℕ

abbrev pub ParsesBack : Codec → Type 0
ParsesBack c =
    (e : ShadowIngressEnvelope)
    → validate_envelope e ≡ true
    → c.parse (c.canonical_bytes e) ≡ some e

pub record FrameRow : Type 0 where
  pub sequence : ℕ
  pub envelope_sha256 : ℕ
  pub envelope_json : List ℕ

pub record ShadowIngressRecord : Type 0 where
  pub record_sequence : ℕ
  pub envelope : ShadowIngressEnvelope
  pub record_sha256 : ℕ

-- The table, and the counter of its AUTOINCREMENT key.
pub record Frames : Type 0 where
  pub rows : List FrameRow
  pub last_sequence : ℕ

pub data IngressError : Type 0 where
  invalid_envelope invalid_cursor sequence_gap checksum_mismatch unparsable : IngressError

pub data Result (A : Type 0) : Type 0 where
  ok : A → Result A
  err : IngressError → Result A

infixl 5 ◌>>=◌
abbrev pub ◌>>=◌ : {A B : Type 0} → Result A → (A → Result B) → Result B
ok a >>= f = f a
err e >>= f = err e

-- `max(..., default=written)`
unfoldable pub latest_receipt : ℕ → List MarketEvent → ℕ
latest_receipt written [] = written
latest_receipt written (e ∷ []) = e.event_receive_ts_ns
latest_receipt written (e ∷ f ∷ es) = max e.event_receive_ts_ns (latest_receipt written (f ∷ es))

abbrev pub envelope_of : ParsedFrame → ℕ → ShadowIngressEnvelope
envelope_of f written = record {
  channel = f.frame_channel;
  channel_size = f.frame_channel_size;
  events = f.frame_events;
  is_control = f.frame_is_control;
  receive_ts_ns = latest_receipt written f.frame_events;
  written_ts_ns = written;
}

-- `ShadowIngressWriter.append` at the clock `written`.
unfoldable pub append : Codec → ParsedFrame → ℕ → Frames → Result (ShadowIngressRecord × Frames)
unfolding validate_envelope latest_receipt
append c f written t =
    let e = envelope_of f written in
    let payload = c.canonical_bytes e in
    let next = t.last_sequence + 1 in
    if not (validate_envelope e)
    then err invalid_envelope
    else ok (
      record { record_sequence = next; envelope = e; record_sha256 = c.sha256 payload },
      record {
        rows =
            t.rows
            ++ record {
              sequence = next;
              envelope_sha256 = c.sha256 payload;
              envelope_json = payload;
            }
              ∷ [];
        last_sequence = next;
      },
    )

-- SELECT COALESCE(MAX(sequence), 0) FROM frames
unfoldable pub latest_sequence : List FrameRow → ℕ
latest_sequence [] = 0
latest_sequence (r ∷ rs) = max r.sequence (latest_sequence rs)

-- ORDER BY sequence
unfoldable pub insert_row : FrameRow → List FrameRow → List FrameRow
insert_row r [] = r ∷ []
insert_row r (x ∷ xs) =
    let rest = insert_row r xs in if leb r.sequence x.sequence then r ∷ x ∷ xs else x ∷ rest

unfoldable pub order_by_sequence : List FrameRow → List FrameRow
unfolding insert_row
order_by_sequence [] = []
order_by_sequence (r ∷ rs) = insert_row r (order_by_sequence rs)

-- SELECT ... WHERE sequence > ? ORDER BY sequence LIMIT ?
unfoldable pub select_after : ℕ → ℕ → List FrameRow → List FrameRow
unfolding order_by_sequence
select_after cursor limit rs =
    take limit (order_by_sequence (keep (λ (r : FrameRow). ltb cursor r.sequence) rs))

-- The loop of `read_after`, from the sequence that it expects.
abbrev pub parsed : Option ShadowIngressEnvelope → Result ShadowIngressEnvelope
parsed none = err unparsable
parsed (some e) = ok e

unfoldable pub check_row : Codec → ℕ → FrameRow → Result ShadowIngressRecord
check_row c expected r =
    if not (r.sequence == expected)
    then err sequence_gap
    else if not (c.sha256 r.envelope_json == r.envelope_sha256)
    then err checksum_mismatch
    else do
      e ← parsed (c.parse r.envelope_json)
      ok (record {
        record_sequence = r.sequence;
        envelope = e;
        record_sha256 = c.sha256 r.envelope_json;
      })

unfoldable pub check_rows : Codec → ℕ → List FrameRow → Result (List ShadowIngressRecord)
unfolding check_row
check_rows c expected [] = ok []
check_rows c expected (r ∷ rs) = do
  first ← check_row c expected r
  rest ← check_rows c (expected + 1) rs
  ok (first ∷ rest)

-- `ShadowIngressReader.read_after`; a cursor is not negative.
unfoldable pub read_after : Codec → ℕ → ℕ → List FrameRow → Result (List ShadowIngressRecord)
unfolding select_after check_rows
read_after c cursor limit rs =
    if ltb limit 1
    then err invalid_cursor
    else check_rows c (cursor + 1) (select_after cursor limit rs)

-- A run of the writer: the records that the successful appends returned, and the table.
unfoldable pub append_all :
    Codec → List (ParsedFrame × ℕ) → Frames → List ShadowIngressRecord × Frames
unfolding append
append_all c [] t = ([], t)
append_all c ((f, written) ∷ fs) t = elim (append c f written t) [
  | ok (r, t') ↦ let (rs, last) = append_all c fs t' in (r ∷ rs, last)
  | err e ↦ append_all c fs t
]

abbrev pub empty : Frames
empty = record { rows = []; last_sequence = 0 }
