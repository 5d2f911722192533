-- ===== src/Paper/Tests.antt =====
-- The paper exchange at concrete inputs.
use aiquant_trader.Prelude.{
  ℕ, ◌+◌, ◌*◌, ◌≡◌, refl, true, false, none, some, List, [], ◌∷◌, map, arith,
}
use aiquant_trader.Prelude.Int.{pos}
use aiquant_trader.Prelude.{◌^◌, length}
use aiquant_trader.Paper.Account.{PaperAccountState, new_account, AccountEvent, run_account}
use aiquant_trader.Paper.Account.Books.{IsReconciled}
use aiquant_trader.Paper.Session.{
  SessionEvent, operation, settlement, operate, session, session-IsReconciled,
}
use aiquant_trader.Risk.Domain.{buy, limit, gtc, ioc, OrderIntent, unit}
use aiquant_trader.Paper.Orders.{
  PaperOrder, PaperOrderState, resting, partially_filled, filled, terminal_paper_state,
  remaining_quantity_base, PaperFill, ExecutionScenario, seller, KernelTrade, KernelMarketState,
  Result, ok, err, put, insert_by, sort_by, open_orders,
}
use aiquant_trader.Paper.Exchange.{
  Exchange, instruction_error, new_order, submit, find_open_intent, request_cancel,
}
use aiquant_trader.Paper.Matching.{
  adverse_price, fill, total_liquidity, take_levels, eligible_levels, execute_taker, displayed_size,
  activate_limit, activate,
}
use aiquant_trader.Paper.Loops.{
  Frame, frame, cancel_loop, activate_loop, elapse, match_order, match_loop, match_trade,
  match_trades, cancel_and_activate, advance,
}
use aiquant_trader.Paper.Life.{Operation, submission, cancellation, market_frame, perform, play}
use aiquant_trader.Paper.Taker.{IsExecuted, execute_taker-IsExecuted}
use aiquant_trader.Paper.Trades.{IsTraded, match_trade-IsTraded}
use aiquant_trader.Paper.History.{IsSound, Succeeds, play-Succeeds}

abbrev scenario : ExecutionScenario
scenario = record {
  tick_size = 100;
  lot_size = 10;
  entry_latency_ns = 5;
  response_latency_ns = 5;
  allow_partial_fills = true;
  book_liquidity_multiplier = unit;
  trade_flow_multiplier = unit;
  taker_slippage_bps = 0;
  maker_fee_bps = pos 1;
  taker_fee_bps = pos 4;
  funding_rate_multiplier = unit;
}

abbrev maker_buy : OrderIntent
maker_buy = record {
  intent_id = 7;
  strategy_id = 1;
  side = buy;
  kind = limit;
  quantity_base = 50;
  limit_price = some 900;
  time_in_force = gtc;
  post_only = true;
  reduce_only = false;
  created_ts_ns = 0;
}

abbrev taker_buy : OrderIntent
taker_buy = record {
  intent_id = 8;
  strategy_id = 1;
  side = buy;
  kind = limit;
  quantity_base = 60;
  limit_price = some 1100;
  time_in_force = ioc;
  post_only = false;
  reduce_only = false;
  created_ts_ns = 0;
}

abbrev book : ℕ → List KernelTrade → KernelMarketState
book now ts = record {
  exchange_ts_ns = now;
  book_exchange_ts_ns = now;
  observed_ts_ns = now;
  sequence = now;
  best_bid = record { price = 900; size = 30 };
  lower_bids = [];
  best_ask = record { price = 1000; size = 40 };
  higher_asks = record { price = 1100; size = 40 } ∷ record { price = 1200; size = 40 } ∷ [];
  trades = ts;
}

abbrev sale : KernelTrade
sale = record {
  exchange_ts_ns = 20;
  observed_ts_ns = 20;
  price = 900;
  size = 60;
  aggressor = seller;
}

abbrev empty_exchange : Exchange
empty_exchange = record { orders = []; intent_ids = [] }

-- A maker order behind a queue of 30 gets the rest of a sale of 60; a taker order takes two levels.
abbrev operations : List Operation
operations =
    submission maker_buy 0
    ∷ submission taker_buy 1
    ∷ market_frame (book 10 [])
    ∷ market_frame (book 20 (sale ∷ []))
    ∷ []

abbrev or_empty : Result Exchange → Exchange
or_empty (ok x) = x
or_empty (err e) = empty_exchange

abbrev final : Exchange
final = or_empty (play scenario (λ n. n + 100) operations empty_exchange)

states :
    map {B = PaperOrderState × ℕ}
      (λ (o : PaperOrder). (o.state, o.filled_quantity_base))
      final.orders
    ≡ (partially_filled, 30 * unit) ∷ (filled, 60 * unit) ∷ []
unfolding play perform submit new_order instruction_error put open_orders sort_by insert_by
    terminal_paper_state remaining_quantity_base adverse_price fill total_liquidity take_levels
    eligible_levels execute_taker displayed_size activate_limit activate cancel_loop activate_loop
    elapse match_order match_loop match_trade match_trades cancel_and_activate advance
states = refl

-- An order whose cancel was requested before its activation is filled without any queue ahead of it.
early_cancel :
    map {B = PaperOrderState × ℕ}
      (λ (o : PaperOrder). (o.state, o.filled_quantity_base))
      (or_empty (
        play scenario
          (λ n. n + 100)
          (submission maker_buy 0
            ∷ cancellation 7 1
            ∷ market_frame (
                book 5 (
                  record {
                    exchange_ts_ns = 5;
                    observed_ts_ns = 5;
                    price = 900;
                    size = 60;
                    aggressor = seller;
                  }
                  ∷ []))
            ∷ [])
          empty_exchange)).orders
    ≡ (filled, 50 * unit) ∷ []
unfolding play perform submit new_order instruction_error put open_orders sort_by insert_by
    terminal_paper_state remaining_quantity_base fill request_cancel find_open_intent cancel_loop
    activate_loop elapse match_order match_loop match_trade match_trades cancel_and_activate advance
early_cancel = refl

abbrev taker_order : PaperOrder
taker_order = new_order scenario 108 taker_buy 1

abbrev or_nothing : Result (PaperOrder × List PaperFill) → PaperOrder × List PaperFill
or_nothing (ok p) = p
or_nothing (err e) = (taker_order, [])

abbrev executed : PaperOrder × List PaperFill
executed = or_nothing (execute_taker scenario taker_order (book 10 []) 10)

executed-ok : execute_taker scenario taker_order (book 10 []) 10 ≡ ok (executed.0, executed.1)
unfolding new_order instruction_error remaining_quantity_base adverse_price fill total_liquidity
    take_levels eligible_levels execute_taker
executed-ok = refl

execute_taker-IsExecuted_example :
    IsExecuted scenario taker_order executed.0 (book 10 []) executed.1
execute_taker-IsExecuted_example =
    execute_taker-IsExecuted scenario taker_order executed.0 (book 10 []) 10 executed.1 executed-ok

abbrev resting_order : PaperOrder
resting_order = record {
  paper_order_id = 107;
  intent = maker_buy;
  state = resting;
  accepted_ts_ns = 0;
  effective_ts_ns = 5;
  updated_ts_ns = 10;
  filled_quantity_base = 0;
  queue_ahead_base = 30 * unit;
  cancel_effective_ts_ns = none;
  rejection_reason = none;
}

abbrev or_frame : Result Frame → Frame
or_frame (ok x) = x
or_frame (err e) = frame []

abbrev traded : Frame
traded = or_frame (match_trade scenario 20 sale (frame (resting_order ∷ [])))

traded-ok : match_trade scenario 20 sale (frame (resting_order ∷ [])) ≡ ok traded
unfolding open_orders sort_by insert_by terminal_paper_state remaining_quantity_base fill
    match_order match_loop match_trade put
traded-ok = refl

match_trade-IsTraded_example : IsTraded (60 * unit) (frame (resting_order ∷ [])) traded
match_trade-IsTraded_example =
    match_trade-IsTraded scenario 20 sale (frame (resting_order ∷ [])) traded (tt, tt) traded-ok

abbrev started : Exchange
started = record { orders = resting_order ∷ []; intent_ids = 7 ∷ [] }

started-IsSound : IsSound (λ n. n + 100) started
started-IsSound = record { apart = (tt, tt); known = ((refl, refl), tt) }

abbrev later_operations : List Operation
later_operations =
    submission taker_buy 11 ∷ market_frame (book 20 (sale ∷ [])) ∷ cancellation 7 30 ∷ []

abbrev ended : Exchange
ended = or_empty (play scenario (λ n. n + 100) later_operations started)

played : play scenario (λ n. n + 100) later_operations started ≡ ok ended
unfolding play perform submit new_order instruction_error put open_orders sort_by insert_by
    terminal_paper_state remaining_quantity_base adverse_price fill total_liquidity take_levels
    eligible_levels execute_taker activate_limit activate cancel_loop activate_loop elapse
    match_order match_loop match_trade match_trades cancel_and_activate advance request_cancel
    find_open_intent
played = refl

play-Succeeds_example : Succeeds started ended
play-Succeeds_example =
    play-Succeeds scenario (λ n. n + 100) (λ a b h. omega (arith, h)) later_operations started ended
      started-IsSound played

-- The session of those operations, with a mark in the first frame and a settlement after them.
abbrev session_events : List SessionEvent
session_events =
    operation (submission maker_buy 0) none
    ∷ operation (submission taker_buy 1) none
    ∷ operation (market_frame (book 10 [])) (some 9_600)
    ∷ operation (market_frame (book 20 (sale ∷ []))) none
    ∷ settlement (pos 2) 9_500 30
    ∷ []

abbrev or_nil : Result (List AccountEvent) → List AccountEvent
or_nil (ok es) = es
or_nil (err e) = []

abbrev account_events : List AccountEvent
account_events = or_nil (session scenario (λ n. n + 100) session_events empty_exchange)

-- Two fills of the taker order and one of the maker order, two marks in each frame, a settlement.
session_runs :
    (session scenario (λ n. n + 100) session_events empty_exchange ≡ ok account_events)
    × (length account_events ≡ 8)
unfolding session operate perform submit new_order instruction_error put open_orders sort_by
    insert_by terminal_paper_state remaining_quantity_base adverse_price fill total_liquidity
    take_levels eligible_levels execute_taker displayed_size activate_limit activate cancel_loop
    activate_loop elapse match_order match_loop match_trade match_trades cancel_and_activate advance
session_runs = (refl, refl)

session-IsReconciled_example :
    (a : PaperAccountState) × (run_account scenario account_events (new_account (10 ^ 45) 9_600 0)
      ≡ some a)
    × IsReconciled account_events (10 ^ 45) a
session-IsReconciled_example =
    session-IsReconciled scenario (λ n. n + 100) session_events empty_exchange account_events
      (10 ^ 45) 9_600 0 session_runs.0 (refl, tt)
