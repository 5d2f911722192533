-- ===== src/Paper/Loops.antt =====
-- The loops of paper/simulator.py over the open orders: `elapse`, `_match_trade`, `advance` and
-- `activate_pending`. The marks of the account are not part of them.
use aiquant_trader.Prelude.{
  ℕ, ◌+◌, ◌-◌, ◌*◌, min, Bool, true, false, not, ◌&&◌, Option, none, some, List, [], ◌∷◌, ◌++◌, ltb,
  leb, ◌==◌, if◌then◌else◌, keep,
}
use aiquant_trader.Risk.Domain.{OrderSide, buy, sell}
use aiquant_trader.Paper.Orders.{
  PaperOrderState, partially_filled, pending_cancel, filled, is_pending_cancel,
  is_pending_activation, is_on_book, PaperOrder, quantity, remaining_quantity_base, PaperFill,
  ExecutionScenario, AggressorSide, buyer, seller, KernelTrade, KernelMarketState, early_activation,
  Result, ok, err, ◌>>=◌, put, sort_by, open_orders,
}
use aiquant_trader.Paper.Exchange.{to_canceled, cancel_due}
use aiquant_trader.Paper.Matching.{fill, activate}

-- What the loops change: `_orders`, `changed` and `fills`.
pub record Frame : Type 0 where
  pub orders : List PaperOrder
  pub changed : List PaperOrder
  pub fills : List PaperFill

-- `_store`
abbrev pub store : PaperOrder → List PaperFill → Frame → Frame
store o fs x = record { orders = put o x.orders; changed = put o x.changed; fills = x.fills ++ fs }

unfoldable pub cancel_loop : ℕ → List PaperOrder → Frame → Frame
unfolding put
cancel_loop now [] x = x
cancel_loop now (o ∷ rest) x =
    cancel_loop now rest (if cancel_due now o then store (to_canceled now o) [] x else x)

abbrev pub is_activatable : ℕ → PaperOrder → Bool
is_activatable now o = is_pending_activation o.state && leb o.effective_ts_ns now

unfoldable pub activate_loop :
    ExecutionScenario → KernelMarketState → ℕ → List PaperOrder → Frame → Result Frame
unfolding activate put
activate_loop sc m now [] x = ok x
activate_loop sc m now (o ∷ rest) x =
    if not (is_activatable now o)
    then activate_loop sc m now rest x
    else do made ← activate sc o m now; activate_loop sc m now rest (store made.0 made.1 x)

abbrev pub frame : List PaperOrder → Frame
frame os = record { orders = os; changed = []; fills = [] }

unfoldable pub elapse : ℕ → List PaperOrder → Frame
unfolding open_orders cancel_loop
elapse now os = cancel_loop now (open_orders os) (frame os)

abbrev pub limit_reached : OrderSide → AggressorSide → ℕ → ℕ → Bool
limit_reached buy seller price limit = leb price limit
limit_reached sell buyer price limit = leb limit price
limit_reached _ _ price limit = false

abbrev pub reaches_limit : OrderSide → KernelTrade → Option ℕ → Bool
reaches_limit side t none = false
reaches_limit side t (some limit) = limit_reached side t.aggressor t.price limit

abbrev pub is_candidate : KernelTrade → PaperOrder → Bool
is_candidate t o =
    is_on_book o.state
    && leb o.effective_ts_ns t.observed_ts_ns
    && reaches_limit o.intent.side t o.intent.limit_price

abbrev pub queue_only : ℕ → ℕ → PaperOrder → PaperOrder
queue_only now queue o = record o { queue_ahead_base = queue; updated_ts_ns = now }

abbrev pub state_after_fill : PaperOrderState → Bool → PaperOrderState
state_after_fill s true = filled
state_after_fill s false = if is_pending_cancel s then pending_cancel else partially_filled

abbrev pub cancel_after_fill : PaperOrder → Bool → Option ℕ
cancel_after_fill o true = none
cancel_after_fill o false = if is_pending_cancel o.state then o.cancel_effective_ts_ns else none

abbrev pub after_fill : ℕ → ℕ → ℕ → PaperOrder → PaperOrder
after_fill now total queue o =
    let whole = total == quantity o.intent in
    record o {
      state = state_after_fill o.state whole;
      filled_quantity_base = total;
      queue_ahead_base = queue;
      updated_ts_ns = now;
      cancel_effective_ts_ns = cancel_after_fill o whole;
    }

abbrev pub limit_or_zero : Option ℕ → ℕ
limit_or_zero none = 0
limit_or_zero (some limit) = limit

-- One candidate, behind its queue: what is left of the trade, and the frame.
unfoldable pub match_order : ExecutionScenario → ℕ → PaperOrder → ℕ → Frame → Result (ℕ × Frame)
unfolding put fill remaining_quantity_base
match_order sc now o available x =
    let consumed = min o.queue_ahead_base available in
    let behind = available - consumed in
    let queue = o.queue_ahead_base - consumed in
    let amount = min (remaining_quantity_base o) behind in
    if behind == 0
    then ok (behind, store (queue_only now queue o) [] x)
    else if not sc.allow_partial_fills && ltb amount (remaining_quantity_base o)
    then ok (behind, x)
    else do
      f ← fill o amount (limit_or_zero o.intent.limit_price) true now
      ok (
        behind - amount,
        store (after_fill now (o.filled_quantity_base + amount) queue o) (f ∷ []) x,
      )

unfoldable pub match_loop : ExecutionScenario → ℕ → List PaperOrder → ℕ → Frame → Result Frame
unfolding match_order
match_loop sc now [] available x = ok x
match_loop sc now (o ∷ rest) available x =
    if available == 0
    then ok x
    else do next ← match_order sc now o available x; match_loop sc now rest next.0 next.1

-- `_match_trade`
unfoldable pub match_trade : ExecutionScenario → ℕ → KernelTrade → Frame → Result Frame
unfolding open_orders sort_by match_loop
match_trade sc now t x =
    match_loop sc now
      (sort_by (λ o. o.effective_ts_ns) (keep (is_candidate t) (open_orders x.orders)))
      (t.size * sc.trade_flow_multiplier) x

unfoldable pub match_trades : ExecutionScenario → ℕ → List KernelTrade → Frame → Result Frame
unfolding match_trade
match_trades sc now [] x = ok x
match_trades sc now (t ∷ ts) x = do next ← match_trade sc now t x; match_trades sc now ts next

-- The two loops that `advance` and `activate_pending` begin with.
unfoldable pub cancel_and_activate :
    ExecutionScenario → KernelMarketState → ℕ → List PaperOrder → Result Frame
unfolding elapse open_orders activate_loop
cancel_and_activate sc m now os =
    let x = elapse now os in activate_loop sc m now (open_orders x.orders) x

unfoldable pub advance : ExecutionScenario → KernelMarketState → List PaperOrder → Result Frame
unfolding cancel_and_activate match_trades
advance sc m os = do
  x ← cancel_and_activate sc m m.observed_ts_ns os
  match_trades sc m.observed_ts_ns m.trades x

unfoldable pub activate_pending :
    ExecutionScenario → ℕ → KernelMarketState → List PaperOrder → Result Frame
unfolding cancel_and_activate
activate_pending sc now m os =
    if ltb now m.observed_ts_ns then err early_activation else cancel_and_activate sc m now os
