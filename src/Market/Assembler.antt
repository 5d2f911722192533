-- ===== src/Market/Assembler.antt =====
-- paper/market.py: `LiveMarketStateAssembler`; and the validators of `KernelTrade` and
-- `KernelMarketState` in backtest/kernel.py. A call returns its outcome beside the assembler, which it
-- changes also where it raises. Each difference of timestamps is taken where the code has checked
-- their order, or where 0 passes the same test as the negative result.
mod Tests
mod Books
pub mod Custody
mod Emission
pub mod Stream
pub mod Total
use aiquant_trader.Prelude.{
  ℕ, ◌+◌, ◌-◌, max, Bool, true, false, not, ◌&&◌, ◌||◌, Option, none, some, List, [], ◌∷◌, ◌++◌,
  map, ltb, leb, if◌then◌else◌, keep, take, length,
}
use aiquant_trader.Paper.Orders.{KernelBookLevel, KernelTrade, KernelMarketState, bids, asks}
use aiquant_trader.Market.Domain.{
  EventHeader, BookLevel, L2BookSnapshot, BboEvent, TradeEvent, MarketEvent, l2_book, bbo, trade,
  other, is_sorted, every,
}

pub record Settings : Type 0 where
  pub depth_levels : ℕ
  pub maximum_input_age_ns : ℕ
  pub minimum_state_interval_ns : ℕ

pub record Assembler : Type 0 where
  pub settings : Settings
  pub pending_trades : List TradeEvent
  pub stale_trade_exclusions : ℕ
  pub stale_book_exclusions : ℕ
  pub stale_bbo_exclusions : ℕ
  pub next_sequence : ℕ
  pub last_observed_ts_ns : Option ℕ
  pub last_book_receive_ts_ns : Option ℕ
  pub latest_depth : Option L2BookSnapshot
  pub latest_bbo_receive_ts_ns : Option ℕ
  pub last_state_used_l2_depth : Bool

-- `__init__`: none where it raises.
unfoldable pub new_assembler : Settings → Option Assembler
new_assembler s =
    if not (leb 1 s.depth_levels && leb s.depth_levels 10)
    then none
    else if leb s.maximum_input_age_ns 0
    then none
    else if leb s.minimum_state_interval_ns 0
    then none
    else some (record {
      settings = s;
      pending_trades = [];
      stale_trade_exclusions = 0;
      stale_book_exclusions = 0;
      stale_bbo_exclusions = 0;
      next_sequence = 0;
      last_observed_ts_ns = none;
      last_book_receive_ts_ns = none;
      latest_depth = none;
      latest_bbo_receive_ts_ns = none;
      last_state_used_l2_depth = false;
    })

pub data AssemblyError : Type 0 where
  timestamp_follows_receipt receipts_not_increasing invalid_state : AssemblyError

pub data Outcome : Type 0 where
  nothing : Outcome
  emitted : KernelMarketState → Outcome
  raised : AssemblyError → Outcome

abbrev pub is_positive_kernel_level : KernelBookLevel → Bool
is_positive_kernel_level l = ltb 0 l.price && ltb 0 l.size

-- The fields of a trade, and `validate_causal_timestamp`.
unfoldable pub validate_kernel_trade : KernelTrade → Bool
validate_kernel_trade t =
    ltb 0 t.price && ltb 0 t.size && not (ltb t.observed_ts_ns t.exchange_ts_ns)

abbrev pub bid_order : KernelBookLevel → KernelBookLevel → Bool
bid_order a b = leb b.price a.price

abbrev pub ask_order : KernelBookLevel → KernelBookLevel → Bool
ask_order a b = leb a.price b.price

-- The fields of the levels and of the trades, and `validate_causal_book`.
unfoldable pub validate_causal_book : KernelMarketState → Bool
unfolding validate_kernel_trade
validate_causal_book m =
    every is_positive_kernel_level (bids m)
    && every is_positive_kernel_level (asks m)
    && every validate_kernel_trade m.trades
    && not (ltb m.observed_ts_ns m.exchange_ts_ns)
    && not (ltb m.exchange_ts_ns m.book_exchange_ts_ns)
    && every (λ (t : KernelTrade). not (ltb m.exchange_ts_ns t.exchange_ts_ns)) m.trades
    && every (λ (t : KernelTrade). not (ltb m.observed_ts_ns t.observed_ts_ns)) m.trades
    && is_sorted bid_order (bids m)
    && is_sorted ask_order (asks m)
    && ltb m.best_bid.price m.best_ask.price

abbrev pub kernel_level : BookLevel → KernelBookLevel
kernel_level l = record { price = l.price; size = l.size }

abbrev pub kernel_trade : TradeEvent → KernelTrade
kernel_trade t = record {
  exchange_ts_ns = t.header.event_ts_ns;
  observed_ts_ns = t.header.receive_ts_ns;
  price = t.price;
  size = t.size;
  aggressor = t.aggressor;
}

abbrev pub latest : ℕ → List KernelTrade → ℕ
latest ts [] = ts
latest ts (t ∷ trades) = max t.exchange_ts_ns (latest ts trades)

-- A book, as `_state_from_l2` and `_state_from_bbo` hand it on to `_state`.
pub record Book : Type 0 where
  pub event : EventHeader
  pub book_ts_ns : ℕ
  pub top_bid : KernelBookLevel
  pub deeper_bids : List KernelBookLevel
  pub top_ask : KernelBookLevel
  pub deeper_asks : List KernelBookLevel
  pub used_l2_depth : Bool

abbrev pub state_of : Book → Assembler → KernelMarketState
state_of b a =
    let trades = map kernel_trade a.pending_trades in
    record {
      exchange_ts_ns = latest b.event.event_ts_ns trades;
      book_exchange_ts_ns = b.book_ts_ns;
      observed_ts_ns = b.event.receive_ts_ns;
      sequence = a.next_sequence;
      best_bid = b.top_bid;
      lower_bids = b.deeper_bids;
      best_ask = b.top_ask;
      higher_asks = b.deeper_asks;
      trades = trades;
    }

abbrev pub advanced : Book → Assembler → Assembler
advanced b a = record a {
  pending_trades = [];
  next_sequence = a.next_sequence + 1;
  last_observed_ts_ns = some b.event.receive_ts_ns;
  last_state_used_l2_depth = b.used_l2_depth;
}

-- The levels and the trades are validated as they are made.
abbrev pub has_valid_parts : KernelMarketState → Bool
has_valid_parts m =
    every is_positive_kernel_level (bids m)
    && every is_positive_kernel_level (asks m)
    && every validate_kernel_trade m.trades

-- `_state`
unfoldable pub make_state : Book → Assembler → Outcome × Assembler
unfolding validate_causal_book validate_kernel_trade
make_state b a =
    let state = state_of b a in
    if not (has_valid_parts state)
    then (raised invalid_state, a)
    else if ltb b.event.receive_ts_ns state.exchange_ts_ns
    then (raised timestamp_follows_receipt, a)
    else if not (validate_causal_book state)
    then (raised invalid_state, a)
    else (emitted state, advanced b a)

-- `_expire_stale_trades`
unfoldable pub expire_stale_trades : ℕ → Assembler → Assembler
expire_stale_trades observed a =
    let fresh =
      keep
        (λ (t : TradeEvent). leb (observed - a.settings.maximum_input_age_ns) t.header.event_ts_ns)
        a.pending_trades in
    record a {
      pending_trades = fresh;
      stale_trade_exclusions = a.stale_trade_exclusions + (length a.pending_trades - length fresh);
    }

-- `_state_due`
unfoldable pub state_due : ℕ → Assembler → Bool
state_due observed a = elim a.last_observed_ts_ns [
  | none ↦ true
  | some last ↦ leb a.settings.minimum_state_interval_ns (observed - last)
]

-- The slices keep at least the best level: `depth_levels` is at least 1.
abbrev pub l2_view : L2BookSnapshot → Assembler → Book
l2_view e a = record {
  event = e.header;
  book_ts_ns = e.header.event_ts_ns;
  top_bid = kernel_level e.best_bid;
  deeper_bids = map kernel_level (take (a.settings.depth_levels - 1) e.lower_bids);
  top_ask = kernel_level e.best_ask;
  deeper_asks = map kernel_level (take (a.settings.depth_levels - 1) e.higher_asks);
  used_l2_depth = true;
}

unfoldable pub state_from_l2 : L2BookSnapshot → Assembler → Outcome × Assembler
unfolding make_state
state_from_l2 e a = make_state (l2_view e a) a

abbrev pub depth_usable : BboEvent → Settings → L2BookSnapshot → Bool
depth_usable e s depth =
    leb depth.header.event_ts_ns e.header.event_ts_ns
    && leb (e.header.receive_ts_ns - depth.header.event_ts_ns) s.maximum_input_age_ns

abbrev pub bbo_book : BboEvent → ℕ → List KernelBookLevel → List KernelBookLevel → Bool → Book
bbo_book e ts lower higher used = record {
  event = e.header;
  book_ts_ns = ts;
  top_bid = record { price = e.bid_price; size = e.bid_size };
  deeper_bids = lower;
  top_ask = record { price = e.ask_price; size = e.ask_size };
  deeper_asks = higher;
  used_l2_depth = used;
}

abbrev pub lower_levels : BboEvent → Settings → L2BookSnapshot → List KernelBookLevel
lower_levels e s depth = take (s.depth_levels - 1) (
    map kernel_level
      (keep (λ (l : BookLevel). ltb l.price e.bid_price) (depth.best_bid ∷ depth.lower_bids)))

abbrev pub higher_levels : BboEvent → Settings → L2BookSnapshot → List KernelBookLevel
higher_levels e s depth = take (s.depth_levels - 1) (
    map kernel_level
      (keep (λ (l : BookLevel). ltb e.ask_price l.price) (depth.best_ask ∷ depth.higher_asks)))

abbrev pub bbo_view : BboEvent → Settings → Option L2BookSnapshot → Book
bbo_view e s none = bbo_book e e.header.event_ts_ns [] [] false
bbo_view e s (some depth) =
    if depth_usable e s depth
    then bbo_book e depth.header.event_ts_ns (lower_levels e s depth) (higher_levels e s depth) true
    else bbo_book e e.header.event_ts_ns [] [] false

unfoldable pub state_from_bbo : BboEvent → Assembler → Outcome × Assembler
unfolding make_state
state_from_bbo e a = make_state (bbo_view e a.settings a.latest_depth) a

-- The two checks of `observe` on the timestamps of a book event.
abbrev pub not_after : ℕ → Option ℕ → Bool
not_after observed none = false
not_after observed (some last) = leb observed last

abbrev pub receipt_error : EventHeader → Assembler → Option AssemblyError
receipt_error h a =
    if not_after h.receive_ts_ns a.last_book_receive_ts_ns
    then some receipts_not_increasing
    else if ltb h.receive_ts_ns h.event_ts_ns
    then some timestamp_follows_receipt
    else none

abbrev pub is_stale : EventHeader → Settings → Bool
is_stale h s = ltb s.maximum_input_age_ns (h.receive_ts_ns - h.event_ts_ns)

-- The assembler once the receipt of a book event is accepted.
unfoldable pub receive_book : EventHeader → Assembler → Assembler
unfolding expire_stale_trades
receive_book h a =
    expire_stale_trades h.receive_ts_ns
      (record a { last_book_receive_ts_ns = some h.receive_ts_ns })

abbrev pub with_depth : L2BookSnapshot → Assembler → Assembler
with_depth e a = record a { latest_depth = some e }

abbrev pub with_bbo : BboEvent → Assembler → Assembler
with_bbo e a = record a { latest_bbo_receive_ts_ns = some e.header.receive_ts_ns }

unfoldable pub accept_l2 : L2BookSnapshot → Assembler → Outcome × Assembler
unfolding state_due state_from_l2
accept_l2 e a =
    let b = with_depth e a in
    if is_stale e.header a.settings
    then (nothing, record a { stale_book_exclusions = a.stale_book_exclusions + 1 })
    else if not (state_due e.header.receive_ts_ns b)
    then (nothing, b)
    else state_from_l2 e b

unfoldable pub accept_bbo : BboEvent → Assembler → Outcome × Assembler
unfolding state_due state_from_bbo
accept_bbo e a =
    let b = with_bbo e a in
    if is_stale e.header a.settings
    then (nothing, record a { stale_bbo_exclusions = a.stale_bbo_exclusions + 1 })
    else if not (state_due e.header.receive_ts_ns b)
    then (nothing, b)
    else state_from_bbo e b

unfoldable pub accept_trade : TradeEvent → Assembler → Outcome × Assembler
unfolding expire_stale_trades
accept_trade t a =
    let b = expire_stale_trades t.header.receive_ts_ns a in
    if ltb t.header.receive_ts_ns t.header.event_ts_ns
    then (raised timestamp_follows_receipt, a)
    else if is_stale t.header a.settings
    then (nothing, record b { stale_trade_exclusions = b.stale_trade_exclusions + 1 })
    else (nothing, record b { pending_trades = b.pending_trades ++ t ∷ [] })

-- `observe`
unfoldable pub observe : MarketEvent → Assembler → Outcome × Assembler
unfolding accept_trade accept_l2 accept_bbo receive_book
observe (trade t) a = accept_trade t a
observe (other kind h) a = (nothing, a)
observe (l2_book e) a = elim (receipt_error e.header a) [
  | some x ↦ (raised x, a)
  | none ↦ accept_l2 e (receive_book e.header a)
]
observe (bbo e) a = elim (receipt_error e.header a) [
  | some x ↦ (raised x, a)
  | none ↦ accept_bbo e (receive_book e.header a)
]

-- The outcomes of a sequence of events, and the assembler after it.
unfoldable pub observe_all : List MarketEvent → Assembler → List Outcome × Assembler
unfolding observe
observe_all [] a = ([], a)
observe_all (e ∷ es) a =
    let (o, b) = observe e a in let (os, last) = observe_all es b in (o ∷ os, last)
