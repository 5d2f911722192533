-- ===== src/Shadow/Ingress/Tests.antt =====
-- The shadow ingress at concrete inputs: two valid frames around one that mixes control and events.
use aiquant_trader.Prelude.{
  ℕ, ◌+◌, ◌≡◌, ◌==◌, refl, Bool, true, false, Option, none, some, List, [], ◌∷◌, map, length, take,
  drop, arith,
}
use aiquant_trader.Shadow.Ingress.{
  MarketEvent, ParsedFrame, ShadowIngressEnvelope, validate_envelope, Codec, ParsesBack, FrameRow,
  ShadowIngressRecord, ok, err, checksum_mismatch, sequence_gap, latest_receipt, append, insert_row,
  order_by_sequence, select_after, check_row, check_rows, read_after, append_all, empty,
}
use aiquant_trader.Shadow.Ingress.RoundTrip.{append_all-read_after}
use aiquant_trader.Shadow.Ingress.Pages.{Genuine, read_after-Genuine}

abbrev event_at : ℕ → MarketEvent
event_at ts = record { event_receive_ts_ns = ts; is_public = true; contents = 4 }

abbrev frame : List MarketEvent → ParsedFrame
frame es = record {
  frame_channel = 1;
  frame_channel_size = 3;
  frame_events = es;
  frame_is_control = false;
}

abbrev frames : List (ParsedFrame × ℕ)
frames =
    (frame (event_at 7 ∷ event_at 9 ∷ []), 10)
    ∷ (
      record {
        frame_channel = 1;
        frame_channel_size = 3;
        frame_events = event_at 8 ∷ [];
        frame_is_control = true;
      },
      11,
    )
    ∷ (frame [], 12)
    ∷ []

-- A codec that writes the fields one after the other, an event as three numbers.
abbrev bit : Bool → ℕ
bit true = 1
bit false = 0

abbrev write_events : List MarketEvent → List ℕ
write_events [] = []
write_events (e ∷ es) = e.event_receive_ts_ns ∷ bit e.is_public ∷ e.contents ∷ write_events es

abbrev read_events : List ℕ → List MarketEvent
read_events (ts ∷ p ∷ n ∷ rest) =
    record { event_receive_ts_ns = ts; is_public = p == 1; contents = n } ∷ read_events rest
read_events _ = []

abbrev write_envelope : ShadowIngressEnvelope → List ℕ
write_envelope e =
    e.channel
    ∷ e.channel_size
    ∷ bit e.is_control
    ∷ e.receive_ts_ns
    ∷ e.written_ts_ns
    ∷ write_events e.events

abbrev parse_envelope : List ℕ → Option ShadowIngressEnvelope
parse_envelope (c ∷ n ∷ b ∷ r ∷ w ∷ rest) = some (record {
  channel = c;
  channel_size = n;
  events = read_events rest;
  is_control = b == 1;
  receive_ts_ns = r;
  written_ts_ns = w;
})
parse_envelope _ = none

abbrev codec : Codec
codec = record {
  canonical_bytes = write_envelope;
  parse = parse_envelope;
  sha256 = λ bs. length bs + 1;
}

bit-eq : (b : Bool) → (bit b == 1) ≡ b
bit-eq true = refl
bit-eq false = refl

read_events-write_events : (es : List MarketEvent) → read_events (write_events es) ≡ es
read_events-write_events [] = refl
read_events-write_events (e ∷ es) = rw (bit-eq e.is_public, read_events-write_events es)

codec-ParsesBack : ParsesBack codec
codec-ParsesBack e valid = rw (bit-eq e.is_control, read_events-write_events e.events)

two_sequences :
    map (λ (q : ShadowIngressRecord). q.record_sequence) (append_all codec frames empty).0
    ≡ 1 ∷ 2 ∷ []
unfolding append_all append validate_envelope latest_receipt
two_sequences = refl

abbrev first_bytes : List ℕ
first_bytes = 1 ∷ 3 ∷ 0 ∷ 9 ∷ 10 ∷ 7 ∷ 1 ∷ 4 ∷ []

abbrev row : ℕ → ℕ → FrameRow
row n sha = record { sequence = n; envelope_sha256 = sha; envelope_json = first_bytes }

gap_found : read_after codec 0 5 (row 1 9 ∷ row 3 9 ∷ []) ≡ err sequence_gap
unfolding read_after select_after order_by_sequence insert_row check_rows check_row
gap_found = refl

tampering_found : read_after codec 0 5 (row 1 99 ∷ []) ≡ err checksum_mismatch
unfolding read_after select_after order_by_sequence insert_row check_rows check_row
tampering_found = refl

abbrev genuine : ShadowIngressRecord
genuine = record {
  record_sequence = 2;
  envelope = record {
    channel = 1;
    channel_size = 3;
    events = event_at 7 ∷ [];
    is_control = false;
    receive_ts_ns = 9;
    written_ts_ns = 10;
  };
  record_sha256 = 9;
}

one_read : read_after codec 1 5 (row 2 9 ∷ row 1 9 ∷ []) ≡ ok (genuine ∷ [])
unfolding read_after select_after order_by_sequence insert_row check_rows check_row
one_read = refl

read_after-Genuine_example :
    Genuine codec (row 2 9 ∷ row 1 9 ∷ []) 1 (genuine ∷ [])
    × (1 ≡ length (select_after 1 5 (row 2 9 ∷ row 1 9 ∷ [])))
read_after-Genuine_example =
    read_after-Genuine codec 1 5 (row 2 9 ∷ row 1 9 ∷ []) (genuine ∷ []) one_read

append_all-read_after_example :
    read_after codec 1 5 (append_all codec frames empty).1.rows
    ≡ ok (take 5 (drop 1 (append_all codec frames empty).0))
append_all-read_after_example =
    append_all-read_after codec frames 1 5 codec-ParsesBack (omega arith)
