-- ===== src/Market/Assembler/Emission.antt =====
-- What `LiveMarketStateAssembler` of paper/market.py is to emit: fresh, numbered and spaced states.
use aiquant_trader.Prelude.{ℕ, ◌+◌, ◌≤◌, ◌≡◌, true, Option, none, some, List, [], ◌∷◌, length, All}
use aiquant_trader.Paper.Orders.{KernelMarketState, bids, asks}
use aiquant_trader.Market.Domain.{TradeEvent}
use aiquant_trader.Market.Assembler.{
  Settings, Assembler, Outcome, nothing, emitted, raised, validate_causal_book,
}

abbrev pub IsRecent : ℕ → ℕ → TradeEvent → Type 0
IsRecent age now t = now ≤ t.header.event_ts_ns + age

-- What a state is when it is emitted: it passes its validator, and its inputs are fresh.
pub record IsCurrent (s : Settings) (m : KernelMarketState) : Type 0 where
  pub valid : validate_causal_book m ≡ true
  pub book_fresh : m.observed_ts_ns ≤ m.book_exchange_ts_ns + s.maximum_input_age_ns
  pub trades_fresh :
      All (λ t. m.observed_ts_ns ≤ t.exchange_ts_ns + s.maximum_input_age_ns) m.trades
  pub bids_within : length (bids m) ≤ s.depth_levels
  pub asks_within : length (asks m) ≤ s.depth_levels

abbrev pub Spaced : ℕ → Option ℕ → ℕ → Type 0
Spaced interval none now = Unit
Spaced interval (some last) now = last + interval ≤ now

pub record IsNext (s : Settings) (n : ℕ) (last : Option ℕ) (m : KernelMarketState) : Type 0 where
  pub current : IsCurrent s m
  pub numbered : m.sequence ≡ n
  pub spaced : Spaced s.minimum_state_interval_ns last m.observed_ts_ns

-- The states among the outcomes are numbered from `n`, the first after one observed at `last`.
abbrev pub Stream : Settings → ℕ → Option ℕ → List Outcome → Type 0
Stream s n last [] = Unit
Stream s n last (nothing ∷ os) = Stream s n last os
Stream s n last (raised e ∷ os) = Stream s n last os
Stream s n last (emitted m ∷ os) = IsNext s n last m × Stream s (n + 1) (some m.observed_ts_ns) os

pub record IsAt (s : Settings) (n : ℕ) (last : Option ℕ) (a : Assembler) : Type 0 where
  pub set : a.settings ≡ s
  pub at : a.next_sequence ≡ n
  pub since : a.last_observed_ts_ns ≡ last

abbrev pub Moves : Settings → ℕ → Option ℕ → Outcome → Assembler → Type 0
Moves s n last nothing b = IsAt s n last b
Moves s n last (raised e) b = IsAt s n last b
Moves s n last (emitted m) b = IsNext s n last m × IsAt s (n + 1) (some m.observed_ts_ns) b

pub record IsStep (s : Settings) (n : ℕ) (last : Option ℕ) (r : Outcome × Assembler) : Type 0 where
  pub moves : Moves s n last r.0 r.1
