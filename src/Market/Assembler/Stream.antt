-- ===== src/Market/Assembler/Stream.antt =====
-- The states that `LiveMarketStateAssembler` of paper/market.py emits, one after the other.
use mathlib.Core.Path.{subst}
use aiquant_trader.Prelude.{
  ℕ, ◌+◌, ◌-◌, ◌≤◌, ◌≡◌, refl, sym, ap, ◌∙◌, true, false, not, inl, inr, Option, none, some, List,
  [], ◌∷◌, map, ltb, leb, if◌then◌else◌, keep, keep-passes, take, length, length-map,
  length-take_le, All, arith, Option-cases, if_both, if_cases, leb→le, ltb→le, All-implies,
}
use aiquant_trader.Paper.Orders.{bids, asks}
use aiquant_trader.Market.Domain.{
  EventHeader, BookLevel, L2BookSnapshot, BboEvent, TradeEvent, MarketEvent, l2_book, bbo, trade,
  other,
}
use aiquant_trader.Market.Assembler.{
  Settings, new_assembler, Assembler, AssemblyError, Outcome, nothing, emitted, raised,
  validate_causal_book, has_valid_parts, kernel_trade, kernel_level, Book, state_of, advanced,
  make_state, expire_stale_trades, state_due, l2_view, state_from_l2, bbo_view, depth_usable,
  state_from_bbo, receipt_error, is_stale, with_depth, with_bbo, receive_book, accept_l2,
  accept_bbo, accept_trade, observe, observe_all,
}
use aiquant_trader.Market.Assembler.Emission.{IsRecent, IsCurrent, Spaced, Stream, IsAt, IsStep}

module _ (s : Settings) (n : ℕ) (last : Option ℕ) (deep : 1 ≤ s.depth_levels)
    (positive : 1 ≤ s.minimum_state_interval_ns) where
  record IsReady (b : Book) (a : Assembler) : Type 0 where
    place : IsAt s n last a
    book_recent : b.event.receive_ts_ns ≤ b.book_ts_ns + s.maximum_input_age_ns
    trades_recent : All (IsRecent s.maximum_input_age_ns b.event.receive_ts_ns) a.pending_trades
    due : state_due b.event.receive_ts_ns a ≡ true
    bids_few : length b.deeper_bids ≤ s.depth_levels - 1
    asks_few : length b.deeper_asks ≤ s.depth_levels - 1

  All-recent :
      (age now : ℕ) (ts : List TradeEvent)
      → All (IsRecent age now) ts
      → All (λ t. now ≤ t.exchange_ts_ns + age) (map kernel_trade ts)
  All-recent age now [] h = tt
  All-recent age now (t ∷ ts) (a, h) = (a, All-recent age now ts h)

  due-Spaced :
      (now : ℕ) (a : Assembler)
      → IsAt s n last a
      → state_due now a ≡ true
      → Spaced s.minimum_state_interval_ns last now
  unfolding state_due
  due-Spaced now a p h = elim (Option-cases a.last_observed_ts_ns) [
    | inl q ↦ subst (λ l. Spaced interval l now) (sym q ∙ p.since) tt
    | inr (l, q) ↦ subst (λ l. Spaced interval l now) (sym q ∙ p.since) (apart l q)
  ]
    where
      interval : ℕ
      interval = s.minimum_state_interval_ns

      apart : (l : ℕ) → a.last_observed_ts_ns ≡ some l → l + interval ≤ now
      apart l q =
          omega
            (arith, positive, leb→le _ _ (rw q at h), ap (λ x. x.minimum_state_interval_ns) p.set)

  make_state-IsStep : (b : Book) (a : Assembler) → IsReady b a → IsStep s n last (make_state b a)
  unfolding make_state
  make_state-IsStep b a h = if_both P (not (has_valid_parts (state_of b a))) stays (
      if_both P (ltb b.event.receive_ts_ns (state_of b a).exchange_ts_ns) stays
        (if_cases P (not (validate_causal_book (state_of b a))) (λ q. stays) goes))
    where
      P : Outcome × Assembler → Type 0
      P r = IsStep s n last r

      stays : {e : AssemblyError} → P (raised e, a)
      stays = record { moves = h.place }

      current : not (validate_causal_book (state_of b a)) ≡ false → IsCurrent s (state_of b a)
      current q = record {
        valid = ground arith;
        book_fresh = h.book_recent;
        trades_fresh = All-recent _ _ a.pending_trades h.trades_recent;
        bids_within = omega (arith, deep, h.bids_few);
        asks_within = omega (arith, deep, h.asks_few);
      }

      goes :
          not (validate_causal_book (state_of b a)) ≡ false
          → P (emitted (state_of b a), advanced b a)
      goes q = record {
        moves = (
          record {
            current = current q;
            numbered = h.place.at;
            spaced = due-Spaced _ a h.place h.due;
          },
          record { set = h.place.set; at = ap (λ k. k + 1) h.place.at; since = refl },
        );
      }

  -- A book event once its receipt is accepted: what is pending is recent.
  record IsReceived (h : EventHeader) (a : Assembler) : Type 0 where
    place : IsAt s n last a
    recent : All (IsRecent s.maximum_input_age_ns h.receive_ts_ns) a.pending_trades

  receive_book-IsReceived :
      (h : EventHeader) (a : Assembler) → IsAt s n last a → IsReceived h (receive_book h a)
  unfolding receive_book expire_stale_trades
  receive_book-IsReceived h a p = record {
    place = record { set = p.set; at = p.at; since = p.since };
    recent =
        All-implies recent
          (keep
            (λ (t : TradeEvent).
              leb (h.receive_ts_ns - a.settings.maximum_input_age_ns) t.header.event_ts_ns)
            a.pending_trades)
          (keep-passes _ a.pending_trades);
  }
    where
      recent :
          (t : TradeEvent)
          → leb (h.receive_ts_ns - a.settings.maximum_input_age_ns) t.header.event_ts_ns ≡ true
          → IsRecent s.maximum_input_age_ns h.receive_ts_ns t
      recent t q = omega (arith, leb→le _ _ q, ap (λ x. x.maximum_input_age_ns) p.set)

  few :
      (a : Assembler) (ls : List BookLevel)
      → IsAt s n last a
      → length (map kernel_level (take (a.settings.depth_levels - 1) ls)) ≤ s.depth_levels - 1
  few a ls p = omega (
    arith,
    length-map kernel_level (take (a.settings.depth_levels - 1) ls),
    length-take_le (a.settings.depth_levels - 1) ls,
    ap (λ x. x.depth_levels) p.set,
  )

  -- A book event that is accepted, with the fields that it does not change.
  record IsLike (a b : Assembler) : Type 0 where
    settings : b.settings ≡ a.settings
    sequence : b.next_sequence ≡ a.next_sequence
    observed : b.last_observed_ts_ns ≡ a.last_observed_ts_ns
    pending : b.pending_trades ≡ a.pending_trades

  IsAt-IsLike : (a b : Assembler) → IsLike a b → IsAt s n last a → IsAt s n last b
  IsAt-IsLike a b q p = record {
    set = q.settings ∙ p.set;
    at = q.sequence ∙ p.at;
    since = q.observed ∙ p.since;
  }

  -- The end of `accept_l2` and `accept_bbo`.
  accepted-IsStep :
      (h : EventHeader) (a b c : Assembler) (k : Book)
      → k.event ≡ h
      → IsReceived h a
      → IsLike a b
      → IsLike a c
      → (is_stale h a.settings ≡ false → h.receive_ts_ns ≤ k.book_ts_ns + s.maximum_input_age_ns)
      → length k.deeper_bids ≤ s.depth_levels - 1
      → length k.deeper_asks ≤ s.depth_levels - 1
      → IsStep s n last (
          if is_stale h a.settings
          then (nothing, c)
          else if not (state_due h.receive_ts_ns b)
          then (nothing, b)
          else make_state k b)
  accepted-IsStep h a b c k same r q q' fresh bids asks =
      if_cases P (is_stale h a.settings) (λ x. silent c q')
        (λ x.
          if_cases P (not (state_due h.receive_ts_ns b)) (λ y. silent b q)
            (λ y. make_state-IsStep k b (ready x y)))
    where
      P : Outcome × Assembler → Type 0
      P r = IsStep s n last r

      silent : (d : Assembler) → IsLike a d → P (nothing, d)
      silent d l = record { moves = IsAt-IsLike a d l r.place }

      ready :
          is_stale h a.settings ≡ false → not (state_due h.receive_ts_ns b) ≡ false → IsReady k b
      ready x y = record {
        place = IsAt-IsLike a b q r.place;
        book_recent =
            subst (λ e. e.receive_ts_ns ≤ k.book_ts_ns + s.maximum_input_age_ns) (sym same)
              (fresh x);
        trades_recent =
            subst (λ e. All (IsRecent s.maximum_input_age_ns e.receive_ts_ns) b.pending_trades)
              (sym same)
              (subst (All (IsRecent s.maximum_input_age_ns h.receive_ts_ns)) (sym q.pending)
                r.recent);
        due = subst (λ e. state_due e.receive_ts_ns b ≡ true) (sym same) (ground (arith, y));
        bids_few = bids;
        asks_few = asks;
      }

  like : {a : Assembler} → IsLike a a
  like = record { settings = refl; sequence = refl; observed = refl; pending = refl }

  not_stale :
      (h : EventHeader) (a : Assembler)
      → IsAt s n last a
      → is_stale h a.settings ≡ false
      → h.receive_ts_ns ≤ h.event_ts_ns + s.maximum_input_age_ns
  not_stale h a p q = omega (arith, ltb→le _ _ q, ap (λ x. x.maximum_input_age_ns) p.set)

  accept_l2-IsStep :
      (e : L2BookSnapshot) (a : Assembler) → IsReceived e.header a → IsStep s n last (accept_l2 e a)
  unfolding accept_l2 state_from_l2
  accept_l2-IsStep e a r =
      accepted-IsStep e.header a (with_depth e a)
        (record a { stale_book_exclusions = a.stale_book_exclusions + 1 })
        (l2_view e (with_depth e a)) refl r
        (record { settings = refl; sequence = refl; observed = refl; pending = refl })
        (record { settings = refl; sequence = refl; observed = refl; pending = refl })
        (not_stale e.header a r.place) (few a e.lower_bids r.place) (few a e.higher_asks r.place)

  record IsView (e : BboEvent) (k : Book) : Type 0 where
    of_event : k.event ≡ e.header
    book_recent :
        e.header.receive_ts_ns ≤ e.header.event_ts_ns + s.maximum_input_age_ns
        → e.header.receive_ts_ns ≤ k.book_ts_ns + s.maximum_input_age_ns
    bids_few : length k.deeper_bids ≤ s.depth_levels - 1
    asks_few : length k.deeper_asks ≤ s.depth_levels - 1

  bbo_view-IsView : (e : BboEvent) (d : Option L2BookSnapshot) → IsView e (bbo_view e s d)
  bbo_view-IsView e none = record {
    of_event = refl;
    book_recent = λ h. h;
    bids_few = omega arith;
    asks_few = omega arith;
  }
  bbo_view-IsView e (some d) =
      if_cases (IsView e) (depth_usable e s d)
        (λ h. record {
          of_event = refl;
          book_recent = λ r. ground (arith, h);
          bids_few = length-take_le (s.depth_levels - 1) _;
          asks_few = length-take_le (s.depth_levels - 1) _;
        })
        (λ h. record {
          of_event = refl;
          book_recent = λ r. r;
          bids_few = omega arith;
          asks_few = omega arith;
        })

  accept_bbo-IsStep :
      (e : BboEvent) (a : Assembler) → IsReceived e.header a → IsStep s n last (accept_bbo e a)
  unfolding accept_bbo state_from_bbo
  accept_bbo-IsStep e a r =
      let v =
        subst (λ x. IsView e (bbo_view e x a.latest_depth)) (sym r.place.set)
          (bbo_view-IsView e a.latest_depth) in
      accepted-IsStep e.header a (with_bbo e a)
        (record a { stale_bbo_exclusions = a.stale_bbo_exclusions + 1 })
        (bbo_view e a.settings a.latest_depth) v.of_event r
        (record { settings = refl; sequence = refl; observed = refl; pending = refl })
        (record { settings = refl; sequence = refl; observed = refl; pending = refl })
        (λ x. v.book_recent (not_stale e.header a r.place x)) v.bids_few v.asks_few

  observe-IsStep :
      (e : MarketEvent) (a : Assembler) → IsAt s n last a → IsStep s n last (observe e a)
  unfolding observe accept_trade expire_stale_trades
  observe-IsStep (trade t) a p =
      if_both P (ltb t.header.receive_ts_ns t.header.event_ts_ns) (record { moves = p })
        (if_both P (is_stale t.header a.settings)
          (record { moves = record { set = p.set; at = p.at; since = p.since } })
          (record { moves = record { set = p.set; at = p.at; since = p.since } }))
    where
      P : Outcome × Assembler → Type 0
      P r = IsStep s n last r
  observe-IsStep (other kind h) a p = record { moves = p }
  observe-IsStep (l2_book e) a p = elim (Option-cases (receipt_error e.header a)) [
    | inl q ↦ rw (observe, q) (accept_l2-IsStep e _ (receive_book-IsReceived e.header a p))
    | inr (x, q) ↦ rw (observe, q) (record { moves = p })
  ]
  observe-IsStep (bbo e) a p = elim (Option-cases (receipt_error e.header a)) [
    | inl q ↦ rw (observe, q) (accept_bbo-IsStep e _ (receive_book-IsReceived e.header a p))
    | inr (x, q) ↦ rw (observe, q) (record { moves = p })
  ]

Stream-cons :
    (s : Settings) (n : ℕ) (last : Option ℕ) (r : Outcome × Assembler) (os : List Outcome)
    → IsStep s n last r
    → ((k : ℕ) (since : Option ℕ) → IsAt s k since r.1 → Stream s k since os)
    → Stream s n last (r.0 ∷ os)
Stream-cons s n last (nothing, b) os h rest = rest n last h.moves
Stream-cons s n last (raised x, b) os h rest = rest n last h.moves
Stream-cons s n last (emitted m, b) os h rest =
    let (first, at) = h.moves in (first, rest (n + 1) (some m.observed_ts_ns) at)

observe_all_from :
    (s : Settings) (deep : 1 ≤ s.depth_levels) (positive : 1 ≤ s.minimum_state_interval_ns)
    (es : List MarketEvent) (n : ℕ) (last : Option ℕ) (a : Assembler)
    → IsAt s n last a
    → Stream s n last (observe_all es a).0
unfolding observe_all
observe_all_from s deep positive [] n last a p = tt
observe_all_from s deep positive (e ∷ es) n last a p =
    Stream-cons s n last (observe e a) (observe_all es (observe e a).1).0
      (observe-IsStep s n last deep positive e a p)
      (λ k since q. observe_all_from s deep positive es k since (observe e a).1 q)

-- An assembler that was constructed, whatever it then observes and whichever calls raise, emits
-- states that are numbered 0, 1, 2, ..., at least the minimum interval apart. Each passes its
-- validator, has at most the configured number of levels on a side, and is made of a book and of
-- trades that are within the maximum age when it is observed.
pub new_assembler-Stream :
    (s : Settings) (a : Assembler) (es : List MarketEvent)
    → new_assembler s ≡ some a
    → Stream s 0 none (observe_all es a).0
unfolding new_assembler
new_assembler-Stream s a es h =
    observe_all_from s (ground arith) (ground arith) es 0 none a
      (record { set = ground arith; at = ground arith; since = ground arith })
