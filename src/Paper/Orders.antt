-- ===== src/Paper/Orders.antt =====
-- The orders of the paper exchange: paper/models.py, and the dictionary `_orders` of
-- paper/simulator.py. A quantity of an order, a fill or a queue is a count of 10⁻¹⁶, a size of the
-- book or of a trade, a multiplier, a price and the quantity of an intent are counts of 10⁻⁸, so that
-- the product of a size and a multiplier is a quantity.
use aiquant_trader.Prelude.{
  ℕ, ◌-◌, ◌*◌, Bool, true, false, not, ◌&&◌, ◌||◌, Option, none, some, List, [], ◌∷◌, ltb, leb,
  ◌==◌, if◌then◌else◌, keep,
}
use aiquant_trader.Prelude.Int.{ℤ}
use aiquant_trader.Risk.Domain.{OrderSide, OrderIntent, unit}

pub data PaperOrderState : Type 0 where
  pending_activation resting partially_filled pending_cancel : PaperOrderState
  filled canceled rejected : PaperOrderState

-- `TERMINAL_PAPER_ORDER_STATES`
unfoldable pub terminal_paper_state : PaperOrderState → Bool
terminal_paper_state filled = true
terminal_paper_state canceled = true
terminal_paper_state rejected = true
terminal_paper_state _ = false

abbrev pub is_filled : PaperOrderState → Bool
is_filled filled = true
is_filled _ = false

abbrev pub is_pending_cancel : PaperOrderState → Bool
is_pending_cancel pending_cancel = true
is_pending_cancel _ = false

abbrev pub is_pending_activation : PaperOrderState → Bool
is_pending_activation pending_activation = true
is_pending_activation _ = false

abbrev pub is_on_book : PaperOrderState → Bool
is_on_book resting = true
is_on_book partially_filled = true
is_on_book pending_cancel = true
is_on_book _ = false

pub data RejectionReason : Type 0 where
  quantity_not_on_lot_size price_not_on_tick_size : RejectionReason
  paper_gtc_limit_must_be_post_only post_only_would_cross : RejectionReason

pub record PaperOrder : Type 0 where
  pub paper_order_id : ℕ
  pub intent : OrderIntent
  pub state : PaperOrderState
  pub accepted_ts_ns : ℕ
  pub effective_ts_ns : ℕ
  pub updated_ts_ns : ℕ
  pub filled_quantity_base : ℕ
  pub queue_ahead_base : ℕ
  pub cancel_effective_ts_ns : Option ℕ
  pub rejection_reason : Option RejectionReason

-- The quantity of the intent, in the unit of the fills.
abbrev pub quantity : OrderIntent → ℕ
quantity i = i.quantity_base * unit

-- `PaperOrder.remaining_quantity_base`
unfoldable pub remaining_quantity_base : PaperOrder → ℕ
remaining_quantity_base o = quantity o.intent - o.filled_quantity_base

pub record PaperFill : Type 0 where
  pub fill_order_id : ℕ
  pub fill_intent_id : ℕ
  pub strategy_id : ℕ
  pub side : OrderSide
  pub quantity_base : ℕ
  pub price : ℕ
  pub maker : Bool
  pub fill_ts_ns : ℕ
  pub decision_latency_ns : ℕ

pub record ExecutionScenario : Type 0 where
  pub tick_size : ℕ
  pub lot_size : ℕ
  pub entry_latency_ns : ℕ
  pub response_latency_ns : ℕ
  pub allow_partial_fills : Bool
  pub book_liquidity_multiplier : ℕ
  pub trade_flow_multiplier : ℕ
  pub taker_slippage_bps : ℕ
  pub maker_fee_bps : ℤ
  pub taker_fee_bps : ℤ
  pub funding_rate_multiplier : ℕ

pub record KernelBookLevel : Type 0 where
  pub price : ℕ
  pub size : ℕ

pub data AggressorSide : Type 0 where
  buyer seller unknown : AggressorSide

pub record KernelTrade : Type 0 where
  pub exchange_ts_ns : ℕ
  pub observed_ts_ns : ℕ
  pub price : ℕ
  pub size : ℕ
  pub aggressor : AggressorSide

-- A side of the book is never empty: its best level, and those behind it.
pub record KernelMarketState : Type 0 where
  pub exchange_ts_ns : ℕ
  pub book_exchange_ts_ns : ℕ
  pub observed_ts_ns : ℕ
  pub sequence : ℕ
  pub best_bid : KernelBookLevel
  pub lower_bids : List KernelBookLevel
  pub best_ask : KernelBookLevel
  pub higher_asks : List KernelBookLevel
  pub trades : List KernelTrade

abbrev pub bids : KernelMarketState → List KernelBookLevel
bids m = m.best_bid ∷ m.lower_bids

abbrev pub asks : KernelMarketState → List KernelBookLevel
asks m = m.best_ask ∷ m.higher_asks

-- The two exceptions of the exchange, and the failing assertion on a limit order without a price.
pub data PaperError : Type 0 where
  duplicate_intent invalid_fill no_limit_price early_activation : PaperError

pub data Result (A : Type 0) : Type 0 where
  ok : A → Result A
  err : PaperError → Result A

infixl 5 ◌>>=◌
abbrev pub ◌>>=◌ : {A B : Type 0} → Result A → (A → Result B) → Result B
ok a >>= f = f a
err e >>= f = err e

-- `_orders[order.paper_order_id] = order`
unfoldable pub put : PaperOrder → List PaperOrder → List PaperOrder
put o [] = o ∷ []
put o (x ∷ xs) =
    let rest = put o xs in if x.paper_order_id == o.paper_order_id then o ∷ xs else x ∷ rest

unfoldable pub find_paper_order : ℕ → List PaperOrder → Option PaperOrder
find_paper_order id [] = none
find_paper_order id (x ∷ xs) = if x.paper_order_id == id then some x else find_paper_order id xs

-- `sorted` by a time, then by the identifier.
unfoldable pub insert_by : (PaperOrder → ℕ) → PaperOrder → List PaperOrder → List PaperOrder
insert_by key o [] = o ∷ []
insert_by key o (x ∷ xs) =
    let rest = insert_by key o xs in
    if ltb (key o) (key x) || (key o == key x && leb o.paper_order_id x.paper_order_id)
    then o ∷ x ∷ xs
    else x ∷ rest

unfoldable pub sort_by : (PaperOrder → ℕ) → List PaperOrder → List PaperOrder
unfolding insert_by
sort_by key [] = []
sort_by key (x ∷ xs) = insert_by key x (sort_by key xs)

-- `open_orders`
unfoldable pub open_orders : List PaperOrder → List PaperOrder
unfolding sort_by terminal_paper_state
open_orders os =
    sort_by (λ o. o.accepted_ts_ns)
      (keep (λ (o : PaperOrder). not (terminal_paper_state o.state)) os)
