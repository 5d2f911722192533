-- ===== src/Paper/Account/Tests.antt =====
-- The account of paper/simulator.py at concrete inputs: a long position that is opened in two fills,
-- settled, and turned into a short one.
use aiquant_trader.Prelude.{
  ℕ, ◌^◌, ◌≡◌, refl, arith, Bool, true, false, Option, none, some, List, [], ◌∷◌,
}
use aiquant_trader.Prelude.Int.{pos, negsuc, ◌+ℤ◌, ◌-ℤ◌, ◌*ℤ◌}
use aiquant_trader.Risk.Domain.{OrderSide, buy, sell}
use aiquant_trader.Paper.Orders.{PaperFill, ExecutionScenario}
use aiquant_trader.Paper.Account.{
  Average, PaperAccountState, new_account, apply_fill, mark_account, settle_funding, AccountEvent,
  account_fill, account_mark, account_funding, change_account, run_account,
}
use aiquant_trader.Paper.Account.Steps.{InOrder}
use aiquant_trader.Paper.Account.Books.{IsReconciled, run_account-IsReconciled}

abbrev scenario : ExecutionScenario
scenario = record {
  tick_size = 1;
  lot_size = 1;
  entry_latency_ns = 1;
  response_latency_ns = 1;
  allow_partial_fills = true;
  book_liquidity_multiplier = 1;
  trade_flow_multiplier = 1;
  taker_slippage_bps = 0;
  maker_fee_bps = negsuc 0;
  taker_fee_bps = pos 3;
  funding_rate_multiplier = 1;
}

abbrev fill_of : OrderSide → ℕ → ℕ → Bool → ℕ → PaperFill
fill_of side quantity price maker now = record {
  fill_order_id = 1;
  fill_intent_id = 1;
  strategy_id = 1;
  side = side;
  quantity_base = quantity;
  price = price;
  maker = maker;
  fill_ts_ns = now;
  decision_latency_ns = 0;
}

abbrev events : List AccountEvent
events =
    account_fill (fill_of buy 2 100 false 10)
    ∷ account_fill (fill_of buy 2 200 true 20)
    ∷ account_mark 1500 25
    ∷ account_funding (pos 2) 1500 30
    ∷ account_fill (fill_of sell 5 180 false 40)
    ∷ []

abbrev start : PaperAccountState
start = new_account (10 ^ 35) 1500 5

abbrev or_start : Option PaperAccountState → PaperAccountState
or_start none = start
or_start (some a) = a

abbrev average_of : PaperAccountState → Option Average
average_of a = a.average_entry_price

-- The two fills are averaged at 150, four are closed at 180 for a result of 120, one is opened at 180.
results :
    ((or_start (run_account scenario events start)).position_base ≡ negsuc 0)
    × ((or_start (run_account scenario events start)).average_entry_price
        ≡ some (record { notional = 180; base = 1 }))
    × ((or_start (run_account scenario events start)).realized_trading_pnl_usd
        ≡ record { numerator = pos 960; denominator = 8 })
    × ((or_start (run_account scenario events start)).funding_pnl_usd ≡ negsuc 11_999)
unfolding run_account change_account apply_fill mark_account settle_funding ◌+ℤ◌ ◌-ℤ◌ ◌*ℤ◌
results = (refl, refl, refl, refl)

in_order : InOrder none events
in_order = (omega arith, (omega arith, (refl, (omega arith, tt))))

run_account-IsReconciled_example :
    (a : PaperAccountState) × (run_account scenario events start ≡ some a)
    × IsReconciled events (10 ^ 35) a
run_account-IsReconciled_example =
    run_account-IsReconciled scenario events (10 ^ 35) 1500 5 in_order
