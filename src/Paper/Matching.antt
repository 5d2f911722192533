-- ===== src/Paper/Matching.antt =====
-- The matching of paper/simulator.py: `_activate`, `_execute_taker` and `_fill`.
use aiquant_trader.Prelude.{
  ℕ, ◌+◌, ◌-◌, ◌*◌, ◌/◌, max, min, Bool, true, false, not, ◌&&◌, ◌||◌, Option, none, some, List, [],
  ◌∷◌, ltb, leb, ◌==◌, if◌then◌else◌, keep,
}
use aiquant_trader.Risk.Domain.{OrderSide, buy, sell, OrderIntent, is_market, is_gtc}
use aiquant_trader.Paper.Orders.{
  resting, filled, canceled, rejected, post_only_would_cross, PaperOrder, quantity,
  remaining_quantity_base, PaperFill, ExecutionScenario, KernelBookLevel, KernelMarketState, bids,
  asks, invalid_fill, no_limit_price, Result, ok, err, ◌>>=◌,
}
use aiquant_trader.Paper.Exchange.{to_canceled}

-- `_round_adverse` of the price with its slippage; 10¹² is the number of units in 10000.
unfoldable pub adverse_price : ExecutionScenario → OrderSide → ℕ → ℕ
adverse_price sc buy price =
    (price * (1_000_000_000_000 + sc.taker_slippage_bps) + 1_000_000_000_000 * sc.tick_size - 1)
    / (1_000_000_000_000 * sc.tick_size)
    * sc.tick_size
adverse_price sc sell price =
    price
    * (1_000_000_000_000 - sc.taker_slippage_bps)
    / (1_000_000_000_000 * sc.tick_size)
    * sc.tick_size

abbrev pub within_limit : OrderSide → Option ℕ → ℕ → Bool
within_limit side none price = true
within_limit buy (some limit) price = leb price limit
within_limit sell (some limit) price = leb limit price

abbrev pub capped : OrderSide → Option ℕ → ℕ → ℕ
capped side none price = price
capped buy (some limit) price = min price limit
capped sell (some limit) price = max price limit

abbrev pub taker_price : ExecutionScenario → OrderIntent → ℕ → ℕ
taker_price sc i price = capped i.side i.limit_price (adverse_price sc i.side price)

-- `_fill`, without the digest of its identity and the account: an error where `PaperFill` does not
-- validate.
unfoldable pub fill : PaperOrder → ℕ → ℕ → Bool → ℕ → Result PaperFill
fill o amount price maker ts =
    if amount == 0 || price == 0
    then err invalid_fill
    else ok (record {
      fill_order_id = o.paper_order_id;
      fill_intent_id = o.intent.intent_id;
      strategy_id = o.intent.strategy_id;
      side = o.intent.side;
      quantity_base = amount;
      price = price;
      maker = maker;
      fill_ts_ns = ts;
      decision_latency_ns = ts - o.intent.created_ts_ns;
    })

abbrev pub liquidity : ExecutionScenario → KernelBookLevel → ℕ
liquidity sc l = l.size * sc.book_liquidity_multiplier

unfoldable pub total_liquidity : ExecutionScenario → List KernelBookLevel → ℕ
total_liquidity sc [] = 0
total_liquidity sc (l ∷ ls) = liquidity sc l + total_liquidity sc ls

-- The loop over the levels: what remains, and the fills.
unfoldable pub take_levels :
    ExecutionScenario → PaperOrder → ℕ → List KernelBookLevel → ℕ → Result (ℕ × List PaperFill)
unfolding fill adverse_price
take_levels sc o now [] remaining = ok (remaining, [])
take_levels sc o now (l ∷ ls) remaining =
    let amount = min remaining (liquidity sc l) in
    let rest = take_levels sc o now ls (remaining - amount) in
    if amount == 0 then rest else do
      f ← fill o amount (taker_price sc o.intent l.price) false now
      if remaining - amount == 0 then ok (0, f ∷ []) else do left ← rest; ok (left.0, f ∷ left.1)

abbrev pub opposite : OrderSide → KernelMarketState → List KernelBookLevel
opposite buy m = asks m
opposite sell m = bids m

unfoldable pub eligible_levels : OrderIntent → KernelMarketState → List KernelBookLevel
eligible_levels i m =
    keep (λ (l : KernelBookLevel). within_limit i.side i.limit_price l.price) (opposite i.side m)

abbrev pub after_taking : PaperOrder → ℕ → ℕ → PaperOrder
after_taking o now total = record o {
  state = if total == quantity o.intent then filled else canceled;
  filled_quantity_base = total;
  updated_ts_ns = now;
}

unfoldable pub execute_taker :
    ExecutionScenario → PaperOrder → KernelMarketState → ℕ → Result (PaperOrder × List PaperFill)
unfolding eligible_levels total_liquidity take_levels remaining_quantity_base
execute_taker sc o m now =
    let levels = eligible_levels o.intent m in
    let available = total_liquidity sc levels in
    let requested = remaining_quantity_base o in
    let target = if sc.allow_partial_fills then min requested available else requested in
    if target == 0 || (not sc.allow_partial_fills && ltb available requested)
    then ok (to_canceled now o, [])
    else do
      (remaining, fills) ← take_levels sc o now levels target
      ok (after_taking o now (o.filled_quantity_base + target - remaining), fills)

abbrev pub crosses : OrderSide → ℕ → KernelMarketState → Bool
crosses buy limit m = leb m.best_ask.price limit
crosses sell limit m = leb limit m.best_bid.price

-- `_displayed_size`
unfoldable pub displayed_size : List KernelBookLevel → ℕ → ℕ
displayed_size [] price = 0
displayed_size (l ∷ ls) price = if l.price == price then l.size else displayed_size ls price

abbrev pub own_side : OrderSide → KernelMarketState → List KernelBookLevel
own_side buy m = bids m
own_side sell m = asks m

abbrev pub to_rejected : ℕ → PaperOrder → PaperOrder
to_rejected now o = record o {
  state = rejected;
  updated_ts_ns = now;
  rejection_reason = some post_only_would_cross;
}

abbrev pub to_resting : ℕ → ℕ → PaperOrder → PaperOrder
to_resting now queue o = record o { state = resting; queue_ahead_base = queue; updated_ts_ns = now }

unfoldable pub activate_limit :
    ExecutionScenario
    → PaperOrder
    → Option ℕ
    → KernelMarketState
    → ℕ
    → Result (PaperOrder × List PaperFill)
unfolding execute_taker displayed_size
activate_limit sc o none m now = err no_limit_price
activate_limit sc o (some limit) m now =
    if o.intent.post_only && crosses o.intent.side limit m
    then ok (to_rejected now o, [])
    else if not (is_gtc o.intent.time_in_force)
    then (if crosses o.intent.side limit m
        then execute_taker sc o m now
        else ok (to_canceled now o, []))
    else ok (
      to_resting now
          (displayed_size (own_side o.intent.side m) limit * sc.book_liquidity_multiplier) o,
      [],
    )

-- `_activate`
unfoldable pub activate :
    ExecutionScenario → PaperOrder → KernelMarketState → ℕ → Result (PaperOrder × List PaperFill)
unfolding execute_taker activate_limit
activate sc o m now =
    if is_market o.intent.kind
    then execute_taker sc o m now
    else activate_limit sc o o.intent.limit_price m now
