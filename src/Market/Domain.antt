-- ===== src/Market/Domain.antt =====
-- domain/market.py: the events of the market and their validators. A price and a size are counts of
-- 10⁻⁸. Of a header the two timestamps are kept; a text is a natural number.
use aiquant_trader.Prelude.{
  ℕ, ◌+◌, Bool, true, not, ◌&&◌, Option, List, [], ◌∷◌, map, ltb, leb, member,
}
use aiquant_trader.Paper.Orders.{AggressorSide}

pub record EventHeader : Type 0 where
  pub event_ts_ns : ℕ
  pub receive_ts_ns : ℕ

-- `receive_time_cannot_precede_exchange_time_unreasonably`: false where the validator raises.
unfoldable pub validate_header : EventHeader → Bool
validate_header h = not (ltb (h.receive_ts_ns + 60_000_000_000) h.event_ts_ns)

pub record BookLevel : Type 0 where
  pub price : ℕ
  pub size : ℕ
  pub order_count : Option ℕ

-- A side is never empty: its best level, and those behind it.
pub record L2BookSnapshot : Type 0 where
  pub header : EventHeader
  pub best_bid : BookLevel
  pub lower_bids : List BookLevel
  pub best_ask : BookLevel
  pub higher_asks : List BookLevel

pub record BboEvent : Type 0 where
  pub header : EventHeader
  pub bid_price : ℕ
  pub bid_size : ℕ
  pub ask_price : ℕ
  pub ask_size : ℕ

pub record TradeEvent : Type 0 where
  pub header : EventHeader
  pub trade_id : ℕ
  pub price : ℕ
  pub size : ℕ
  pub aggressor : AggressorSide
  pub transaction_hash : Option ℕ

-- Of the other kinds of event, which are numbered, only the header is kept.
pub data MarketEvent : Type 0 where
  l2_book : L2BookSnapshot → MarketEvent
  bbo : BboEvent → MarketEvent
  trade : TradeEvent → MarketEvent
  other : ℕ → EventHeader → MarketEvent

abbrev pub header_of : MarketEvent → EventHeader
header_of (l2_book e) = e.header
header_of (bbo e) = e.header
header_of (trade e) = e.header
header_of (other kind h) = h

abbrev pub bid_levels : L2BookSnapshot → List BookLevel
bid_levels e = e.best_bid ∷ e.lower_bids

abbrev pub ask_levels : L2BookSnapshot → List BookLevel
ask_levels e = e.best_ask ∷ e.higher_asks

-- `xs == sorted(xs)`, for the order `before`.
abbrev pub is_sorted {ℓ} : {A : Type ℓ} → (A → A → Bool) → List A → Bool
is_sorted before [] = true
is_sorted before (x ∷ []) = true
is_sorted before (x ∷ y ∷ ys) = before x y && is_sorted before (y ∷ ys)

-- `len(set(xs)) == len(xs)`
abbrev pub are_unique : List ℕ → Bool
are_unique [] = true
are_unique (x ∷ xs) = not (member x xs) && are_unique xs

abbrev pub is_positive_level : BookLevel → Bool
is_positive_level l = ltb 0 l.price && ltb 0 l.size

abbrev pub every {ℓ} : {A : Type ℓ} → (A → Bool) → List A → Bool
every p [] = true
every p (x ∷ xs) = p x && every p xs

abbrev pub higher_first : BookLevel → BookLevel → Bool
higher_first a b = leb b.price a.price

abbrev pub lower_first : BookLevel → BookLevel → Bool
lower_first a b = leb a.price b.price

-- The fields of the levels, and `validate_book`.
unfoldable pub validate_book : L2BookSnapshot → Bool
validate_book e =
    every is_positive_level (bid_levels e)
    && every is_positive_level (ask_levels e)
    && are_unique (map (λ (l : BookLevel). l.price) (bid_levels e))
    && are_unique (map (λ (l : BookLevel). l.price) (ask_levels e))
    && is_sorted higher_first (bid_levels e)
    && is_sorted lower_first (ask_levels e)
    && ltb e.best_bid.price e.best_ask.price

-- The fields, and `validate_spread`.
unfoldable pub validate_spread : BboEvent → Bool
validate_spread e =
    ltb 0 e.bid_price
    && ltb 0 e.bid_size
    && ltb 0 e.ask_price
    && ltb 0 e.ask_size
    && ltb e.bid_price e.ask_price

abbrev pub validate_trade : TradeEvent → Bool
validate_trade t = ltb 0 t.price && ltb 0 t.size

-- What pydantic accepts; the other events are not looked at further.
unfoldable pub validate_event : MarketEvent → Bool
unfolding validate_header validate_book validate_spread
validate_event (l2_book e) = validate_header e.header && validate_book e
validate_event (bbo e) = validate_header e.header && validate_spread e
validate_event (trade t) = validate_header t.header && validate_trade t
validate_event (other kind h) = validate_header h
