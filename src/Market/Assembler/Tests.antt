-- ===== src/Market/Assembler/Tests.antt =====
-- The assembler of paper/market.py at concrete inputs: two trades, a snapshot of the book, and best
-- levels before and after it.
use aiquant_trader.Prelude.{
  ℕ, ◌≡◌, refl, true, false, Option, none, some, List, [], ◌∷◌, map, length, All, leb, leb→le,
}
use aiquant_trader.Paper.Orders.{buyer, bids, asks}
use aiquant_trader.Market.Domain.{
  EventHeader, BookLevel, MarketEvent, l2_book, bbo, trade, other, header_of, validate_header,
  validate_book, validate_spread, validate_event,
}
use aiquant_trader.Market.Assembler.{
  Settings, new_assembler, Assembler, nothing, emitted, raised, Outcome, validate_kernel_trade,
  validate_causal_book, make_state, expire_stale_trades, state_due, state_from_l2, state_from_bbo,
  receive_book, accept_l2, accept_bbo, accept_trade, observe, observe_all,
}
use aiquant_trader.Market.Assembler.Custody.{IsKept, arrivals, deliveries, observe_all-IsKept}
use aiquant_trader.Market.Assembler.Emission.{Stream}
use aiquant_trader.Market.Assembler.Stream.{new_assembler-Stream}
use aiquant_trader.Market.Assembler.Total.{IsTimely, InOrder, is_raised, new_assembler_quiet}

abbrev settings : Settings
settings = record { depth_levels = 2; maximum_input_age_ns = 100; minimum_state_interval_ns = 10 }

abbrev at : ℕ → ℕ → EventHeader
at happened received = record { event_ts_ns = happened; receive_ts_ns = received }

abbrev level : ℕ → ℕ → BookLevel
level price size = record { price = price; size = size; order_count = none }

abbrev trade_at : ℕ → ℕ → MarketEvent
trade_at happened received = trade (record {
  header = at happened received;
  trade_id = happened;
  price = 95;
  size = 3;
  aggressor = buyer;
  transaction_hash = none;
})

abbrev bbo_at : ℕ → ℕ → MarketEvent
bbo_at happened received = bbo (record {
  header = at happened received;
  bid_price = 90;
  bid_size = 1;
  ask_price = 100;
  ask_size = 2;
})

abbrev book_at : ℕ → ℕ → MarketEvent
book_at happened received = l2_book (record {
  header = at happened received;
  best_bid = level 91 4;
  lower_bids = level 89 5 ∷ level 88 6 ∷ [];
  best_ask = level 99 4;
  higher_asks = level 101 5 ∷ [];
})

-- The trade at 5 is delivered with the first state, the one at 60 is stale when the last is made.
abbrev events : List MarketEvent
events =
    trade_at 5 6
    ∷ bbo_at 9 10
    ∷ book_at 12 15
    ∷ bbo_at 20 22
    ∷ trade_at 60 61
    ∷ bbo_at 200 202
    ∷ other 7 (at 210 211)
    ∷ []

abbrev assembler : Assembler
assembler = record {
  settings = settings;
  pending_trades = [];
  stale_trade_exclusions = 0;
  stale_book_exclusions = 0;
  stale_bbo_exclusions = 0;
  next_sequence = 0;
  last_observed_ts_ns = none;
  last_book_receive_ts_ns = none;
  latest_depth = none;
  latest_bbo_receive_ts_ns = none;
  last_state_used_l2_depth = false;
}

assembler_starts : new_assembler settings ≡ some assembler
unfolding new_assembler
assembler_starts = refl

-- The number of a state, its receipt, its trades and the levels of its two sides.
abbrev summary : Outcome → Option (ℕ × ℕ × ℕ × ℕ × ℕ)
summary (emitted m) =
    some (m.sequence, m.observed_ts_ns, length m.trades, length (bids m), length (asks m))
summary nothing = none
summary (raised e) = none

states :
    map summary (observe_all events assembler).0
    ≡ none
      ∷ some (0, 10, 1, 1, 1)
      ∷ none
      ∷ some (1, 22, 0, 2, 2)
      ∷ none
      ∷ some (2, 202, 0, 1, 1)
      ∷ none
      ∷ []
unfolding observe_all observe accept_trade accept_bbo accept_l2 receive_book expire_stale_trades
    state_due state_from_bbo state_from_l2 make_state validate_causal_book validate_kernel_trade
    new_assembler
states = refl

excluded : (observe_all events assembler).1.stale_trade_exclusions ≡ 1
unfolding observe_all observe accept_trade accept_bbo accept_l2 receive_book expire_stale_trades
    state_due state_from_bbo state_from_l2 make_state validate_causal_book validate_kernel_trade
    new_assembler
excluded = refl

timely :
    (now : ℕ) (e : MarketEvent)
    → validate_event e ≡ true
    → leb (header_of e).event_ts_ns (header_of e).receive_ts_ns ≡ true
    → leb now (header_of e).receive_ts_ns ≡ true
    → IsTimely now e
timely now e valid caused not_before = record {
  valid = valid;
  caused = leb→le _ _ caused;
  not_before = leb→le _ _ not_before;
}

in_order : InOrder none 0 events
unfolding validate_event validate_header validate_book validate_spread
in_order = (
  timely 0 (trade_at 5 6) refl refl refl,
  (
    timely 6 (bbo_at 9 10) refl refl refl,
    refl,
    (
      timely 10 (book_at 12 15) refl refl refl,
      refl,
      (
        timely 15 (bbo_at 20 22) refl refl refl,
        refl,
        (
          timely 22 (trade_at 60 61) refl refl refl,
          (timely 61 (bbo_at 200 202) refl refl refl, refl, tt),
        ),
      ),
    ),
  ),
)

observe_all-IsKept_example :
    IsKept
      (arrivals events)
      (deliveries (observe_all events assembler).0)
      assembler
      (observe_all events assembler).1
observe_all-IsKept_example = observe_all-IsKept events assembler

new_assembler-Stream_example : Stream settings 0 none (observe_all events assembler).0
new_assembler-Stream_example = new_assembler-Stream settings assembler events assembler_starts

new_assembler_quiet_example : All (λ o. is_raised o ≡ false) (observe_all events assembler).0
new_assembler_quiet_example =
    new_assembler_quiet settings assembler events assembler_starts in_order
