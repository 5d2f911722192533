-- ===== src/Market/Assembler/Custody.antt =====
-- What `LiveMarketStateAssembler` of paper/market.py does with the trades that it observes.
use mathlib.Core.Path.{subst}
use aiquant_trader.Prelude.{
  ℕ, ◌+◌, ◌-◌, ◌≡◌, refl, sym, ap, Bool, not, inl, inr, List, [], ◌∷◌, ◌++◌, map, ltb,
  if◌then◌else◌, keep, length, length-append, length-map, length-keep_le, append_assoc, append_nil,
  arith, Bool-cases, Option-cases, if_both, Subsequence, Subsequence-refl, Subsequence-trans,
  Subsequence-append, Subsequence-map-keep, Subsequence-skip_last, map-append,
}
use aiquant_trader.Paper.Orders.{KernelTrade}
use aiquant_trader.Market.Domain.{
  EventHeader, L2BookSnapshot, BboEvent, TradeEvent, MarketEvent, l2_book, bbo, trade, other,
}
use aiquant_trader.Market.Assembler.{
  Assembler, AssemblyError, Outcome, nothing, emitted, raised, validate_causal_book,
  has_valid_parts, kernel_trade, Book, state_of, advanced, make_state, expire_stale_trades,
  state_due, l2_view, state_from_l2, bbo_view, state_from_bbo, receipt_error, is_stale, with_depth,
  with_bbo, receive_book, accept_l2, accept_bbo, accept_trade, observe, observe_all,
}

-- The trades that are accepted: those that are not received before they happen.
abbrev pub arrival : MarketEvent → List KernelTrade
arrival (trade t) =
    if ltb t.header.receive_ts_ns t.header.event_ts_ns then [] else kernel_trade t ∷ []
arrival (l2_book e) = []
arrival (bbo e) = []
arrival (other kind h) = []

abbrev pub arrivals : List MarketEvent → List KernelTrade
arrivals [] = []
arrivals (e ∷ es) = arrival e ++ arrivals es

-- The trades in the states that are emitted.
abbrev pub delivery : Outcome → List KernelTrade
delivery nothing = []
delivery (emitted m) = m.trades
delivery (raised e) = []

abbrev pub deliveries : List Outcome → List KernelTrade
deliveries [] = []
deliveries (o ∷ os) = delivery o ++ deliveries os

abbrev pub held : Assembler → List KernelTrade
held a = map kernel_trade a.pending_trades

-- From `a` to `b` the trades `xs` arrive and the trades `ds` are delivered.
pub record IsKept (xs ds : List KernelTrade) (a b : Assembler) : Type 0 where
  pub in_order : Subsequence (ds ++ held b) (held a ++ xs)
  pub counted :
      length ds + length (held b) + b.stale_trade_exclusions
      ≡ length (held a) + length xs + a.stale_trade_exclusions

record Keeps (xs : List KernelTrade) (a : Assembler) (r : Outcome × Assembler) : Type 0 where
  custody : IsKept xs (delivery r.0) a r.1

IsKept-refl : (a : Assembler) → IsKept [] [] a a
IsKept-refl a = record {
  in_order = subst (Subsequence (held a)) (sym (append_nil (held a))) (Subsequence-refl (held a));
  counted = omega arith;
}

IsKept-trans :
    (xs ys ds es : List KernelTrade) (a b c : Assembler)
    → IsKept xs ds a b
    → IsKept ys es b c
    → IsKept (xs ++ ys) (ds ++ es) a c
IsKept-trans xs ys ds es a b c h k = record {
  in_order =
      subst (λ zs. Subsequence zs (held a ++ (xs ++ ys))) (sym (append_assoc ds es (held c)))
        (subst (λ zs. Subsequence (ds ++ (es ++ held c)) zs) (append_assoc (held a) xs ys)
          (Subsequence-trans _ _ _
            (subst (Subsequence (ds ++ (es ++ held c))) (sym (append_assoc ds (held b) ys))
              (Subsequence-append (Subsequence-refl ds) k.in_order))
            (Subsequence-append h.in_order (Subsequence-refl ys))));
  counted = omega (arith, h.counted, k.counted, length-append xs ys, length-append ds es);
}

length-map-keep :
    (p : TradeEvent → Bool) (ts : List TradeEvent)
    → length (map kernel_trade (keep p ts)) + (length ts - length (keep p ts))
      ≡ length (map kernel_trade ts)
length-map-keep p ts =
    omega
      (arith, length-map kernel_trade (keep p ts), length-map kernel_trade ts, length-keep_le p ts)

expire_stale_trades-IsKept :
    (observed : ℕ) (a : Assembler) → IsKept [] [] a (expire_stale_trades observed a)
unfolding expire_stale_trades
expire_stale_trades-IsKept observed a = record {
  in_order =
      subst (Subsequence (held (expire_stale_trades observed a))) (sym (append_nil (held a)))
        (Subsequence-map-keep kernel_trade _ a.pending_trades);
  counted = omega (arith, length-map-keep _ a.pending_trades);
}

make_state-Keeps : (b : Book) (a : Assembler) → Keeps [] a (make_state b a)
unfolding make_state
make_state-Keeps b a = if_both P (not (has_valid_parts (state_of b a))) unchanged (
    if_both P (ltb b.event.receive_ts_ns (state_of b a).exchange_ts_ns) unchanged
      (if_both P (not (validate_causal_book (state_of b a))) unchanged moved))
  where
    P : Outcome × Assembler → Type 0
    P r = Keeps [] a r

    unchanged : {e : AssemblyError} → P (raised e, a)
    unchanged = record { custody = IsKept-refl a }

    moved : P (emitted (state_of b a), advanced b a)
    moved = record {
      custody = record { in_order = Subsequence-refl (held a ++ []); counted = omega arith };
    }

-- The fields that the bookkeeping of the trades reads are the same.
record IsSame (a b : Assembler) : Type 0 where
  pending : b.pending_trades ≡ a.pending_trades
  stale : b.stale_trade_exclusions ≡ a.stale_trade_exclusions

IsKept-IsSame :
    (xs ds : List KernelTrade) (a b c : Assembler)
    → IsSame a b
    → IsKept xs ds b c
    → IsKept xs ds a c
IsKept-IsSame xs ds a b c s k = record {
  in_order =
      subst (λ ts. Subsequence (ds ++ held c) (map kernel_trade ts ++ xs)) s.pending k.in_order;
  counted = omega (
    arith,
    k.counted,
    ap length s.pending,
    s.stale,
    length-map kernel_trade a.pending_trades,
    length-map kernel_trade b.pending_trades,
  );
}

Keeps-IsSame :
    (a b : Assembler) (r : Outcome × Assembler) → IsSame a b → Keeps [] b r → Keeps [] a r
Keeps-IsSame a b r s k = record { custody = IsKept-IsSame [] (delivery r.0) a b r.1 s k.custody }

Keeps-silent : (a b : Assembler) → IsSame a b → Keeps [] a (nothing, b)
Keeps-silent a b s = Keeps-IsSame a b (nothing, b) s (record { custody = IsKept-refl b })

module _ (a : Assembler) where
  accept_l2-Keeps : (e : L2BookSnapshot) → Keeps [] a (accept_l2 e a)
  unfolding accept_l2 state_from_l2
  accept_l2-Keeps e =
      let b = with_depth e a in
      if_both (Keeps [] a) (is_stale e.header a.settings)
        (Keeps-silent a _ (record { pending = refl; stale = refl }))
        (if_both (Keeps [] a) (not (state_due e.header.receive_ts_ns b))
          (Keeps-silent a _ (record { pending = refl; stale = refl }))
          (Keeps-IsSame a b _ (record { pending = refl; stale = refl })
            (make_state-Keeps (l2_view e b) b)))

  accept_bbo-Keeps : (e : BboEvent) → Keeps [] a (accept_bbo e a)
  unfolding accept_bbo state_from_bbo
  accept_bbo-Keeps e =
      let b = with_bbo e a in
      if_both (Keeps [] a) (is_stale e.header a.settings)
        (Keeps-silent a _ (record { pending = refl; stale = refl }))
        (if_both (Keeps [] a) (not (state_due e.header.receive_ts_ns b))
          (Keeps-silent a _ (record { pending = refl; stale = refl }))
          (Keeps-IsSame a b _ (record { pending = refl; stale = refl })
            (make_state-Keeps (bbo_view e b.settings b.latest_depth) b)))

  receive_book-IsKept : (h : EventHeader) → IsKept [] [] a (receive_book h a)
  unfolding receive_book
  receive_book-IsKept h =
      IsKept-IsSame [] [] a _ _ (record { pending = refl; stale = refl })
        (expire_stale_trades-IsKept h.receive_ts_ns _)

  after_receipt :
      (h : EventHeader) (r : Outcome × Assembler) → Keeps [] (receive_book h a) r → Keeps [] a r
  after_receipt h r k = record {
    custody =
        IsKept-trans [] [] [] (delivery r.0) a (receive_book h a) r.1 (receive_book-IsKept h)
          k.custody;
  }

  accept_trade-Keeps : (t : TradeEvent) → Keeps (arrival (trade t)) a (accept_trade t a)
  unfolding accept_trade
  accept_trade-Keeps t = elim (Bool-cases (ltb t.header.receive_ts_ns t.header.event_ts_ns)) [
    | inl q ↦ rw q (record { custody = IsKept-refl a })
    | inr q ↦
        rw q (if_both (Keeps (kernel_trade t ∷ []) a) (is_stale t.header a.settings) excluded added)
  ]
    where
      b : Assembler
      b = expire_stale_trades t.header.receive_ts_ns a

      received :
          (c : Assembler)
          → IsKept (kernel_trade t ∷ []) [] b c
          → Keeps (kernel_trade t ∷ []) a (nothing, c)
      received c k = record {
        custody =
            IsKept-trans [] (kernel_trade t ∷ []) [] [] a b c
              (expire_stale_trades-IsKept t.header.receive_ts_ns a) k;
      }

      excluded :
          Keeps
            (kernel_trade t ∷ [])
            a
            (nothing, record b { stale_trade_exclusions = b.stale_trade_exclusions + 1 })
      excluded = received _ (record {
        in_order = Subsequence-skip_last (held b) (kernel_trade t);
        counted = omega arith;
      })

      added :
          Keeps
            (kernel_trade t ∷ [])
            a
            (nothing, record b { pending_trades = b.pending_trades ++ t ∷ [] })
      added = received _ (record {
        in_order =
            subst (λ ts. Subsequence ts (held b ++ kernel_trade t ∷ []))
              (sym (map-append kernel_trade b.pending_trades (t ∷ []))) (Subsequence-refl _);
        counted = omega (
          arith,
          length-append b.pending_trades (t ∷ []),
          length-map kernel_trade b.pending_trades,
          length-map kernel_trade (b.pending_trades ++ t ∷ []),
        );
      })

observe-Keeps : (e : MarketEvent) (a : Assembler) → Keeps (arrival e) a (observe e a)
unfolding observe
observe-Keeps (trade t) a = accept_trade-Keeps a t
observe-Keeps (other kind h) a = record { custody = IsKept-refl a }
observe-Keeps (l2_book e) a = elim (Option-cases (receipt_error e.header a)) [
  | inl q ↦
      rw (observe, q) (after_receipt a e.header _ (accept_l2-Keeps (receive_book e.header a) e))
  | inr (x, q) ↦ rw (observe, q) (record { custody = IsKept-refl a })
]
observe-Keeps (bbo e) a = elim (Option-cases (receipt_error e.header a)) [
  | inl q ↦
      rw (observe, q) (after_receipt a e.header _ (accept_bbo-Keeps (receive_book e.header a) e))
  | inr (x, q) ↦ rw (observe, q) (record { custody = IsKept-refl a })
]

-- Whatever is observed, and whichever calls raise: the trades in the emitted states, followed by those
-- still pending, are trades that arrived or were pending before, each at most once and in their order;
-- and those that are missing are exactly as many as the stale trade exclusions that were counted.
pub observe_all-IsKept :
    (es : List MarketEvent) (a : Assembler)
    → IsKept (arrivals es) (deliveries (observe_all es a).0) a (observe_all es a).1
unfolding observe_all
observe_all-IsKept [] a = IsKept-refl a
observe_all-IsKept (e ∷ es) a =
    let (o, b) = observe e a in
    let (os, c) = observe_all es b in
    IsKept-trans (arrival e) (arrivals es) (delivery o) (deliveries os) a b c
      (observe-Keeps e a).custody (observe_all-IsKept es b)
