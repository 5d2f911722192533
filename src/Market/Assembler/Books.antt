-- ===== src/Market/Assembler/Books.antt =====
-- The books that `LiveMarketStateAssembler` of paper/market.py hands to `_state`, and the validator of
-- backtest/kernel.py on the states made of them.
use aiquant_trader.Prelude.{
  ℕ, ◌-◌, ◌≤◌, ◌≡◌, refl, Bool, true, false, not, Option, none, some, List, [], ◌∷◌, map, ltb, keep,
  keep-passes, take, All, All-keep, All-take, All-implies, arith, if_cases,
}
use aiquant_trader.Paper.Orders.{KernelMarketState, KernelBookLevel, KernelTrade, bids, asks}
use aiquant_trader.Market.Domain.{
  BookLevel, L2BookSnapshot, BboEvent, TradeEvent, every, higher_first, lower_first,
  is_positive_level, validate_trade, validate_book, validate_spread, bid_levels, ask_levels,
}
use aiquant_trader.Market.Sorted.{
  every→All, All→every, Pairwise, Pairwise→is_sorted, Pairwise-keep, Pairwise-take, Pairwise-map,
  is_sorted→Pairwise, All-map,
}
use aiquant_trader.Market.Assembler.{
  Settings, Assembler, Outcome, emitted, validate_kernel_trade, validate_causal_book,
  has_valid_parts, is_positive_kernel_level, bid_order, ask_order, kernel_trade, kernel_level,
  latest, Book, state_of, advanced, make_state, l2_view, bbo_view, depth_usable, bbo_book,
}

-- A pending trade at the clock `now`.
pub record IsPending (now : ℕ) (t : TradeEvent) : Type 0 where
  pub valid : validate_trade t ≡ true
  pub caused : t.header.event_ts_ns ≤ t.header.receive_ts_ns
  pub received : t.header.receive_ts_ns ≤ now

-- A side of a book of the kernel.
record IsSide (before : KernelBookLevel → KernelBookLevel → Bool) (ls : List KernelBookLevel)
    : Type 0 where
  positive : All (λ l. is_positive_kernel_level l ≡ true) ls
  ordered : Pairwise before ls

pub record IsBook (k : Book) : Type 0 where
  bid_side : IsSide bid_order (k.top_bid ∷ k.deeper_bids)
  ask_side : IsSide ask_order (k.top_ask ∷ k.deeper_asks)
  uncrossed : ltb k.top_bid.price k.top_ask.price ≡ true
  book_first : k.book_ts_ns ≤ k.event.event_ts_ns
  caused : k.event.event_ts_ns ≤ k.event.receive_ts_ns

trades-valid :
    (now : ℕ) (ts : List TradeEvent)
    → All (IsPending now) ts
    → All (λ t. validate_kernel_trade t ≡ true) (map kernel_trade ts)
unfolding validate_kernel_trade
trades-valid now [] h = tt
trades-valid now (t ∷ ts) (a, h) = (ground (arith, a.valid, a.caused), trades-valid now ts h)

latest_bounded :
    (now : ℕ) (ts : List TradeEvent) (from : ℕ)
    → from ≤ now
    → All (IsPending now) ts
    → latest from (map kernel_trade ts) ≤ now
latest_bounded now [] from h k = h
latest_bounded now (t ∷ ts) from h (a, k) =
    omega (arith, latest_bounded now ts from h k, a.caused, a.received)

latest-from : (from : ℕ) (ts : List KernelTrade) → from ≤ latest from ts
latest-from from [] = omega arith
latest-from from (t ∷ ts) = omega (arith, latest-from from ts)

latest-bounds :
    (from : ℕ) (ts : List KernelTrade) (top : ℕ)
    → latest from ts ≤ top
    → All (λ (t : KernelTrade). not (ltb top t.exchange_ts_ns) ≡ true) ts
latest-bounds from [] top h = tt
latest-bounds from (t ∷ ts) top h =
    (ground (arith, h), latest-bounds from ts top (omega (arith, h)))

trades-received :
    (now : ℕ) (ts : List TradeEvent)
    → All (IsPending now) ts
    → All (λ (t : KernelTrade). not (ltb now t.observed_ts_ns) ≡ true) (map kernel_trade ts)
trades-received now [] h = tt
trades-received now (t ∷ ts) (a, h) = (ground (arith, a.received), trades-received now ts h)

module _ (k : Book) (a : Assembler) (b : IsBook k)
    (p : All (IsPending k.event.receive_ts_ns) a.pending_trades) where
  caused : (state_of k a).exchange_ts_ns ≤ k.event.receive_ts_ns
  caused = latest_bounded k.event.receive_ts_ns a.pending_trades k.event.event_ts_ns b.caused p

  abbrev m : KernelMarketState
  m = state_of k a

  trades_valid : every validate_kernel_trade m.trades ≡ true
  trades_valid = All→every _ m.trades (trades-valid _ a.pending_trades p)

  bounded : every (λ (t : KernelTrade). not (ltb m.exchange_ts_ns t.exchange_ts_ns)) m.trades ≡ true
  bounded =
      All→every _ m.trades
        (latest-bounds k.event.event_ts_ns m.trades m.exchange_ts_ns (omega arith))

  received :
      every (λ (t : KernelTrade). not (ltb m.observed_ts_ns t.observed_ts_ns)) m.trades ≡ true
  received = All→every _ m.trades (trades-received _ a.pending_trades p)

  bids_valid : every is_positive_kernel_level (bids m) ≡ true
  bids_valid = All→every is_positive_kernel_level (bids m) b.bid_side.positive

  asks_valid : every is_positive_kernel_level (asks m) ≡ true
  asks_valid = All→every is_positive_kernel_level (asks m) b.ask_side.positive

  state-valid : validate_causal_book m ≡ true
  unfolding validate_causal_book
  state-valid =
      let descending = Pairwise→is_sorted bid_order (bids m) b.bid_side.ordered in
      let ascending = Pairwise→is_sorted ask_order (asks m) b.ask_side.ordered in
      let first = latest-from k.event.event_ts_ns m.trades in
      ground (
        arith, bids_valid, asks_valid, trades_valid, caused, first, b.book_first, bounded, received,
        descending, ascending, b.uncrossed,
      )

  pub make_state_emits : make_state k a ≡ (emitted m, advanced k a)
  unfolding make_state
  make_state_emits =
      if_cases P (not (has_valid_parts m))
        (λ q. absurd (ground (arith, bids_valid, asks_valid, trades_valid)))
        (λ q.
          if_cases P (ltb k.event.receive_ts_ns m.exchange_ts_ns)
            (λ r. absurd (ground (arith, caused)))
            (λ r.
              if_cases P (not (validate_causal_book m)) (λ v. absurd (ground (arith, state-valid)))
                (λ v. refl)))
    where
      P : Outcome × Assembler → Type 0
      P r = r ≡ (emitted m, advanced k a)

-- The sides of a snapshot that passed its validator.
pub record IsDepth (d : L2BookSnapshot) : Type 0 where
  bids_positive : All (λ l. is_positive_level l ≡ true) (bid_levels d)
  asks_positive : All (λ l. is_positive_level l ≡ true) (ask_levels d)
  bids_ordered : Pairwise higher_first (bid_levels d)
  asks_ordered : Pairwise lower_first (ask_levels d)
  uncrossed : ltb d.best_bid.price d.best_ask.price ≡ true

pub validate_book-IsDepth : (d : L2BookSnapshot) → validate_book d ≡ true → IsDepth d
unfolding validate_book
validate_book-IsDepth d h = record {
  bids_positive = every→All is_positive_level (bid_levels d) (ground (arith, h));
  asks_positive = every→All is_positive_level (ask_levels d) (ground (arith, h));
  bids_ordered =
      is_sorted→Pairwise higher_first
        (λ (x : BookLevel) (y : BookLevel) (z : BookLevel) p q. ground (arith, p, q)) (bid_levels d)
        (ground (arith, h));
  asks_ordered =
      is_sorted→Pairwise lower_first
        (λ (x : BookLevel) (y : BookLevel) (z : BookLevel) p q. ground (arith, p, q)) (ask_levels d)
        (ground (arith, h));
  uncrossed = ground (arith, h);
}

IsSide-take :
    (r : KernelBookLevel → KernelBookLevel → Bool) (n : ℕ) (l : KernelBookLevel)
    (ls : List KernelBookLevel)
    → IsSide r (l ∷ ls)
    → IsSide r (l ∷ take n ls)
IsSide-take r n l ls s = record {
  positive = (s.positive.0, All-take _ n ls s.positive.1);
  ordered = (All-take _ n ls s.ordered.0, Pairwise-take r n ls s.ordered.1);
}

IsSide-map :
    (r : KernelBookLevel → KernelBookLevel → Bool) (ls : List BookLevel)
    → All (λ l. is_positive_level l ≡ true) ls
    → Pairwise (λ x y. r (kernel_level x) (kernel_level y)) ls
    → IsSide r (map kernel_level ls)
IsSide-map r ls p q = record {
  positive = All-map (λ l. is_positive_kernel_level l ≡ true) kernel_level ls p;
  ordered = Pairwise-map r kernel_level ls q;
}

-- A best level, before the levels of a snapshot that come after it.
IsSide-merge :
    (r : KernelBookLevel → KernelBookLevel → Bool) (n : ℕ) (best : KernelBookLevel)
    (behind : BookLevel → Bool) (ls : List BookLevel)
    → is_positive_kernel_level best ≡ true
    → ((l : BookLevel) → behind l ≡ true → r best (kernel_level l) ≡ true)
    → All (λ l. is_positive_level l ≡ true) ls
    → Pairwise (λ x y. r (kernel_level x) (kernel_level y)) ls
    → IsSide r (best ∷ take n (map kernel_level (keep behind ls)))
IsSide-merge r n best behind ls positive first p q =
    let kept =
      IsSide-map r (keep behind ls) (All-keep _ behind ls p) (Pairwise-keep _ behind ls q) in
    IsSide-take r n best (map kernel_level (keep behind ls)) (record {
      positive = (positive, kept.positive);
      ordered = (
        All-map (λ l. r best l ≡ true) kernel_level (keep behind ls)
            (All-implies first (keep behind ls) (keep-passes behind ls)),
        kept.ordered,
      );
    })

pub l2_view-IsBook :
    (e : L2BookSnapshot) (a : Assembler)
    → IsDepth e
    → e.header.event_ts_ns ≤ e.header.receive_ts_ns
    → IsBook (l2_view e a)
l2_view-IsBook e a d h = record {
  bid_side =
      IsSide-map bid_order (e.best_bid ∷ take (a.settings.depth_levels - 1) e.lower_bids)
        (d.bids_positive.0, All-take _ _ e.lower_bids d.bids_positive.1)
        (
          All-take _ _ e.lower_bids d.bids_ordered.0,
          Pairwise-take _ _ e.lower_bids d.bids_ordered.1,
        );
  ask_side =
      IsSide-map ask_order (e.best_ask ∷ take (a.settings.depth_levels - 1) e.higher_asks)
        (d.asks_positive.0, All-take _ _ e.higher_asks d.asks_positive.1)
        (
          All-take _ _ e.higher_asks d.asks_ordered.0,
          Pairwise-take _ _ e.higher_asks d.asks_ordered.1,
        );
  uncrossed = d.uncrossed;
  book_first = omega arith;
  caused = h;
}

abbrev pub HasDepth : Option L2BookSnapshot → Type 0
HasDepth none = Unit
HasDepth (some d) = IsDepth d

pub bbo_view-IsBook :
    (e : BboEvent) (s : Settings) (d : Option L2BookSnapshot)
    → HasDepth d
    → validate_spread e ≡ true
    → e.header.event_ts_ns ≤ e.header.receive_ts_ns
    → IsBook (bbo_view e s d)
unfolding validate_spread
bbo_view-IsBook e s d depth v h = view d depth
  where
    alone :
        (r : KernelBookLevel → KernelBookLevel → Bool) (l : KernelBookLevel)
        → is_positive_kernel_level l ≡ true
        → IsSide r (l ∷ [])
    alone r l q = record { positive = (q, tt); ordered = (tt, tt) }

    top : IsBook (bbo_book e e.header.event_ts_ns [] [] false)
    top = record {
      bid_side = alone bid_order _ (ground (arith, v));
      ask_side = alone ask_order _ (ground (arith, v));
      uncrossed = ground (arith, v);
      book_first = omega arith;
      caused = h;
    }

    view : (d : Option L2BookSnapshot) → HasDepth d → IsBook (bbo_view e s d)
    view none q = top
    view (some d) q =
        if_cases IsBook (depth_usable e s d)
          (λ usable. record {
            bid_side =
                IsSide-merge bid_order (s.depth_levels - 1) _
                  (λ (l : BookLevel). ltb l.price e.bid_price) (bid_levels d) (ground (arith, v))
                  (λ l x. ground (arith, x)) q.bids_positive q.bids_ordered;
            ask_side =
                IsSide-merge ask_order (s.depth_levels - 1) _
                  (λ (l : BookLevel). ltb e.ask_price l.price) (ask_levels d) (ground (arith, v))
                  (λ l x. ground (arith, x)) q.asks_positive q.asks_ordered;
            uncrossed = ground (arith, v);
            book_first = ground (arith, usable);
            caused = h;
          })
          (λ usable. top)
