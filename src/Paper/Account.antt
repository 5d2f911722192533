-- ===== src/Paper/Account.antt =====
-- The account of the paper exchange: `PaperAccountState` of paper/models.py, and `_apply_fill`, `_mark`,
-- `settle_funding` and the fee of `_fill` in paper/simulator.py. A quantity is a count of 10⁻¹⁶, the price
-- of a fill, a rate, a multiplier and basis points are counts of 10⁻⁸, a mark is a count of 10⁻⁹, since
-- half the sum of two prices is one, and money is counts of 10⁻⁴¹; the four units below turn a product
-- into money. The average entry price and the realized result are fractions, so all is exact.
mod Sums
pub mod Steps
pub mod Books
mod Tests
use aiquant_trader.Prelude.{
  ℕ, ◌+◌, ◌-◌, ◌*◌, ◌/◌, ◌^◌, max, min, Bool, true, false, not, ◌&&◌, ◌||◌, Option, none, some,
  List, [], ◌∷◌, ltb, leb, ◌==◌, is_some, if◌then◌else◌, map, ◌++◌,
}
use aiquant_trader.Prelude.Int.{ℤ, pos, ◌+ℤ◌, ◌-ℤ◌, ◌*ℤ◌, pos_part, neg_part, leb_ℤ, abs}
use aiquant_trader.Risk.Domain.{OrderSide, buy, sell}
use aiquant_trader.Paper.Orders.{PaperFill, ExecutionScenario, KernelMarketState}

abbrev pub fill_unit : ℕ
fill_unit = 10 ^ 17

abbrev pub mark_unit : ℕ
mark_unit = 10 ^ 16

abbrev pub fee_unit : ℕ
fee_unit = 10 ^ 5

-- 0.00000001 of money.
abbrev pub least_equity : ℤ
least_equity = pos (10 ^ 33)

abbrev pub nanoseconds_per_day : ℕ
nanoseconds_per_day = 86_400_000_000_000

-- `notional / base`, a price of fills.
pub record Average : Type 0 where
  pub notional : ℕ
  pub base : ℕ

-- `numerator / denominator`, in the product of a quantity and a price.
pub record Realized : Type 0 where
  pub numerator : ℤ
  pub denominator : ℕ

pub record PaperAccountState : Type 0 where
  pub cash_usd : ℤ
  pub position_base : ℤ
  pub average_entry_price : Option Average
  pub mark_price : ℕ
  pub equity_usd : ℤ
  pub day_start_equity_usd : ℤ
  pub high_water_equity_usd : ℤ
  pub realized_trading_pnl_usd : Realized
  pub fees_usd : ℤ
  pub funding_pnl_usd : ℤ
  pub last_funding_settlement_ns : Option ℕ
  pub utc_day : ℕ
  pub updated_ts_ns : ℕ

abbrev pub is_zero : ℤ → Bool
is_zero a = abs a == 0

-- `validate_account`: false where it raises.
unfoldable pub validate_account : PaperAccountState → Bool
validate_account a =
    let expected = a.cash_usd +ℤ a.position_base *ℤ pos (a.mark_price * mark_unit) in
    not (is_zero a.position_base && is_some a.average_entry_price)
    && not (not (is_zero a.position_base) && not (is_some a.average_entry_price))
    && leb (abs (expected -ℤ a.equity_usd)) (abs least_equity)
    && leb_ℤ a.equity_usd a.high_water_equity_usd

-- The account of a new simulator, for a positive equity.
abbrev pub new_account : ℕ → ℕ → ℕ → PaperAccountState
new_account equity mark started = record {
  cash_usd = pos equity;
  position_base = pos 0;
  average_entry_price = none;
  mark_price = mark;
  equity_usd = pos equity;
  day_start_equity_usd = pos equity;
  high_water_equity_usd = pos equity;
  realized_trading_pnl_usd = record { numerator = pos 0; denominator = 1 };
  fees_usd = pos 0;
  funding_pnl_usd = pos 0;
  last_funding_settlement_ns = none;
  utc_day = started / nanoseconds_per_day;
  updated_ts_ns = started;
}

-- `a * b > 0` and `a * b < 0`, by the signs of the factors.
abbrev pub same_direction : ℤ → ℤ → Bool
same_direction a b =
    (ltb 0 (pos_part a) && ltb 0 (pos_part b)) || (ltb 0 (neg_part a) && ltb 0 (neg_part b))

abbrev pub opposite_direction : ℤ → ℤ → Bool
opposite_direction a b =
    (ltb 0 (pos_part a) && ltb 0 (neg_part b)) || (ltb 0 (neg_part a) && ltb 0 (pos_part b))

abbrev pub signed_fill : PaperFill → ℤ
signed_fill f = elim f.side [ buy ↦ pos f.quantity_base | sell ↦ pos 0 -ℤ pos f.quantity_base ]

-- The fee of `_fill`.
abbrev pub fee_usd : ExecutionScenario → PaperFill → ℤ
fee_usd sc f =
    pos (f.quantity_base * f.price * fee_unit)
    *ℤ (if f.maker then sc.maker_fee_bps else sc.taker_fee_bps)

abbrev pub average_or : ℕ → Option Average → Average
average_or price none = record { notional = price; base = 1 }
average_or price (some a) = a

-- The average of the old position and of what is added to it.
abbrev pub joined_average : Average → ℕ → ℕ → ℕ → Average
joined_average a old quantity price = record {
  notional = old * a.notional + quantity * price * a.base;
  base = a.base * (old + quantity);
}

-- `realized + direction * closed * (price - average)`
abbrev pub realize : Realized → Average → ℤ → ℕ → ℕ → Realized
realize r a old closed price =
    let gain = pos (price * a.base) -ℤ pos a.notional in
    let directed = if ltb 0 (pos_part old) then gain else pos 0 -ℤ gain in
    record {
      numerator = r.numerator *ℤ pos a.base +ℤ pos (closed * r.denominator) *ℤ directed;
      denominator = r.denominator * a.base;
    }

abbrev pub remaining_average : ℤ → ℤ → Average → ℕ → Option Average
remaining_average old new a price =
    if is_zero new
    then none
    else if opposite_direction old new
    then some (record { notional = price; base = 1 })
    else some a

-- The cash, the position, the fees and the time after a fill.
abbrev pub booked_fill : ExecutionScenario → PaperFill → PaperAccountState → PaperAccountState
booked_fill sc f a =
    let signed = signed_fill f in
    let cash_delta = (pos 0 -ℤ signed *ℤ pos (f.price * fill_unit)) -ℤ fee_usd sc f in
    record a {
      cash_usd = a.cash_usd +ℤ cash_delta;
      position_base = a.position_base +ℤ signed;
      fees_usd = a.fees_usd +ℤ fee_usd sc f;
      updated_ts_ns = f.fill_ts_ns;
    }

abbrev pub opened : PaperFill → PaperAccountState → Average
opened f a =
    joined_average (average_or f.price a.average_entry_price) (abs a.position_base)
      (abs (signed_fill f)) f.price

abbrev pub closed : PaperFill → PaperAccountState → Average → Realized
closed f a average =
    realize a.realized_trading_pnl_usd average a.position_base
      (min (abs a.position_base) (abs (signed_fill f))) f.price

-- `_apply_fill`: none where the assertion on the average fails.
unfoldable pub apply_fill :
    ExecutionScenario → PaperFill → PaperAccountState → Option PaperAccountState
apply_fill sc f a =
    let booked = booked_fill sc f a in
    if is_zero a.position_base || same_direction a.position_base (signed_fill f)
    then some (record booked { average_entry_price = some (opened f a) })
    else elim a.average_entry_price [
      | none ↦ none
      | some average ↦ some (record booked {
        average_entry_price =
            remaining_average a.position_base booked.position_base average f.price;
        realized_trading_pnl_usd = closed f a average;
      })
    ]

abbrev pub max_ℤ : ℤ → ℤ → ℤ
max_ℤ a b = if leb_ℤ a b then b else a

abbrev pub marked_equity : PaperAccountState → ℕ → ℤ
marked_equity a mark = a.cash_usd +ℤ a.position_base *ℤ pos (mark * mark_unit)

-- `_mark`
unfoldable pub mark_account : ℕ → ℕ → PaperAccountState → PaperAccountState
mark_account mark now a =
    let equity = marked_equity a mark in
    let day = now / nanoseconds_per_day in
    record a {
      mark_price = mark;
      equity_usd = equity;
      day_start_equity_usd =
          if day == a.utc_day then a.day_start_equity_usd else max_ℤ equity least_equity;
      high_water_equity_usd = max_ℤ (max_ℤ a.high_water_equity_usd equity) least_equity;
      utc_day = day;
      updated_ts_ns = now;
    }

abbrev pub is_settled : ℕ → Option ℕ → Bool
is_settled now none = false
is_settled now (some previous) = leb now previous

abbrev pub cashflow : ExecutionScenario → ℤ → ℕ → PaperAccountState → ℤ
cashflow sc rate mark a =
    pos 0 -ℤ a.position_base *ℤ pos mark *ℤ rate *ℤ pos sc.funding_rate_multiplier

-- `settle_funding`: none where it raises.
unfoldable pub settle_funding :
    ExecutionScenario → ℤ → ℕ → ℕ → PaperAccountState → Option PaperAccountState
unfolding mark_account
settle_funding sc rate mark now a =
    let flow = cashflow sc rate mark a in
    if is_settled now a.last_funding_settlement_ns
    then none
    else some (
        mark_account mark now (record a {
          cash_usd = a.cash_usd +ℤ flow;
          funding_pnl_usd = a.funding_pnl_usd +ℤ flow;
          last_funding_settlement_ns = some now;
        }))

-- `mark_price or self._mid(market)`; half a unit of a price is five of a mark.
abbrev pub mid : KernelMarketState → ℕ
mid m = 5 * (m.best_bid.price + m.best_ask.price)

abbrev pub mark_or_mid : Option ℕ → KernelMarketState → ℕ
mark_or_mid none m = mid m
mark_or_mid (some mark) m = if mark == 0 then mid m else mark

-- What changes the account: a fill, a mark, and a settlement with its rate, its mark and its time.
pub data AccountEvent : Type 0 where
  account_fill : PaperFill → AccountEvent
  account_mark : ℕ → ℕ → AccountEvent
  account_funding : ℤ → ℕ → ℕ → AccountEvent

unfoldable pub change_account :
    ExecutionScenario → AccountEvent → PaperAccountState → Option PaperAccountState
unfolding apply_fill mark_account settle_funding
change_account sc (account_fill f) a = apply_fill sc f a
change_account sc (account_mark mark now) a = some (mark_account mark now a)
change_account sc (account_funding rate mark now) a = settle_funding sc rate mark now a

unfoldable pub run_account :
    ExecutionScenario → List AccountEvent → PaperAccountState → Option PaperAccountState
unfolding change_account
run_account sc [] a = some a
run_account sc (e ∷ es) a = elim (change_account sc e a) [
  | none ↦ none
  | some b ↦ run_account sc es b
]

-- The account's part of `advance` and of `activate_pending`, for the fills that they make.
abbrev pub frame_events : Option ℕ → KernelMarketState → ℕ → List PaperFill → List AccountEvent
frame_events mark m now fills =
    account_mark (mark_or_mid mark m) now
    ∷ (map account_fill fills ++ account_mark (mark_or_mid mark m) now ∷ [])
