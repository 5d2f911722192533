-- ===== src/Market/Assembler/Total.antt =====
-- When `LiveMarketStateAssembler` of paper/market.py does not raise.
use mathlib.Core.Path.{subst}
use aiquant_trader.Prelude.{
  ℕ, ◌+◌, ◌≤◌, ◌≡◌, refl, sym, Bool, true, false, not, Option, none, some, List, [], ◌∷◌, ltb,
  if◌then◌else◌, All, All-keep, All-append, All-implies, arith, if_both, if_cases,
}
use aiquant_trader.Market.Domain.{
  EventHeader, L2BookSnapshot, BboEvent, TradeEvent, MarketEvent, l2_book, bbo, trade, other,
  header_of, validate_event,
}
use aiquant_trader.Market.Assembler.Books.{
  IsPending, IsBook, make_state_emits, validate_book-IsDepth, l2_view-IsBook, HasDepth,
  bbo_view-IsBook,
}
use aiquant_trader.Market.Assembler.{
  Settings, Assembler, AssemblyError, Outcome, nothing, raised, Book, depth_usable, make_state,
  expire_stale_trades, state_due, l2_view, state_from_l2, bbo_view, state_from_bbo, not_after,
  receipt_error, is_stale, with_depth, with_bbo, receive_book, accept_l2, accept_bbo, accept_trade,
  observe, observe_all, new_assembler,
}

abbrev pub is_raised : Outcome → Bool
is_raised (raised e) = true
is_raised _ = false

-- An event that follows the receipt `now` of all events before it, and does not precede itself.
pub record IsTimely (now : ℕ) (e : MarketEvent) : Type 0 where
  pub valid : validate_event e ≡ true
  pub caused : (header_of e).event_ts_ns ≤ (header_of e).receive_ts_ns
  pub not_before : now ≤ (header_of e).receive_ts_ns

-- The receipts do not go back, and those of the books increase.
abbrev pub InOrder : Option ℕ → ℕ → List MarketEvent → Type 0
InOrder last now [] = Unit
InOrder last now (trade t ∷ es) = IsTimely now (trade t) × InOrder last t.header.receive_ts_ns es
InOrder last now (l2_book e ∷ es) =
    IsTimely now (l2_book e)
    × (not_after e.header.receive_ts_ns last ≡ false)
    × InOrder (some e.header.receive_ts_ns) e.header.receive_ts_ns es
InOrder last now (bbo e ∷ es) =
    IsTimely now (bbo e)
    × (not_after e.header.receive_ts_ns last ≡ false)
    × InOrder (some e.header.receive_ts_ns) e.header.receive_ts_ns es
InOrder last now (other kind h ∷ es) = InOrder last now es

record IsSound (last : Option ℕ) (now : ℕ) (a : Assembler) : Type 0 where
  pending : All (IsPending now) a.pending_trades
  depth : HasDepth a.latest_depth
  book : a.last_book_receive_ts_ns ≡ last

record IsQuiet (last : Option ℕ) (now : ℕ) (r : Outcome × Assembler) : Type 0 where
  quiet : is_raised r.0 ≡ false
  sound : IsSound last now r.1

expire-IsSound :
    (last : Option ℕ) (old now : ℕ) (a : Assembler)
    → old ≤ now
    → IsSound last old a
    → IsSound last now (expire_stale_trades now a)
unfolding expire_stale_trades
expire-IsSound last old now a h s = record {
  pending =
      All-implies
        (λ t p. record {
          valid = p.valid;
          caused = p.caused;
          received = omega (arith, h, p.received);
        })
        _ (All-keep (IsPending old) _ a.pending_trades s.pending);
  depth = s.depth;
  book = s.book;
}

receive_book-IsSound :
    (last : Option ℕ) (old : ℕ) (h : EventHeader) (a : Assembler)
    → old ≤ h.receive_ts_ns
    → IsSound last old a
    → IsSound (some h.receive_ts_ns) h.receive_ts_ns (receive_book h a)
unfolding receive_book
receive_book-IsSound last old h a q s =
    expire-IsSound (some h.receive_ts_ns) old h.receive_ts_ns _ q
      (record { pending = s.pending; depth = s.depth; book = refl })

-- The end of `accept_l2` and `accept_bbo`.
accepted-IsQuiet :
    (last : Option ℕ) (now : ℕ) (b c : Assembler) (k : Book) (stale due : Bool)
    → IsBook k
    → k.event.receive_ts_ns ≡ now
    → IsSound last now b
    → IsSound last now c
    → IsQuiet last now
        (if stale then (nothing, c) else if due then (nothing, b) else make_state k b)
accepted-IsQuiet last now b c k stale due book q sb sc =
    if_both P stale (record { quiet = refl; sound = sc })
      (if_both P due (record { quiet = refl; sound = sb })
        (subst P (sym (make_state_emits k b book pending)) (record {
          quiet = refl;
          sound = record { pending = tt; depth = sb.depth; book = sb.book };
        })))
  where
    P : Outcome × Assembler → Type 0
    P r = IsQuiet last now r

    pending : All (IsPending k.event.receive_ts_ns) b.pending_trades
    pending = subst (λ n. All (IsPending n) b.pending_trades) (sym q) sb.pending

l2-IsQuiet :
    (e : L2BookSnapshot) (a : Assembler) (old : ℕ)
    → IsTimely old (l2_book e)
    → IsSound (some e.header.receive_ts_ns) e.header.receive_ts_ns a
    → IsQuiet (some e.header.receive_ts_ns) e.header.receive_ts_ns (accept_l2 e a)
unfolding accept_l2 state_from_l2 validate_event
l2-IsQuiet e a old t s =
    let d = validate_book-IsDepth e (ground (arith, t.valid)) in
    accepted-IsQuiet (some e.header.receive_ts_ns) e.header.receive_ts_ns (with_depth e a)
      (record a { stale_book_exclusions = a.stale_book_exclusions + 1 })
      (l2_view e (with_depth e a)) (is_stale e.header a.settings)
      (not (state_due e.header.receive_ts_ns (with_depth e a)))
      (l2_view-IsBook e (with_depth e a) d t.caused) refl
      (record { pending = s.pending; depth = d; book = s.book })
      (record { pending = s.pending; depth = s.depth; book = s.book })

bbo_view_event :
    (e : BboEvent) (s : Settings) (d : Option L2BookSnapshot)
    → (bbo_view e s d).event.receive_ts_ns ≡ e.header.receive_ts_ns
bbo_view_event e s none = refl
bbo_view_event e s (some d) =
    if_both (λ (k : Book). k.event.receive_ts_ns ≡ e.header.receive_ts_ns) (depth_usable e s d) refl
      refl

bbo-IsQuiet :
    (e : BboEvent) (a : Assembler) (old : ℕ)
    → IsTimely old (bbo e)
    → IsSound (some e.header.receive_ts_ns) e.header.receive_ts_ns a
    → IsQuiet (some e.header.receive_ts_ns) e.header.receive_ts_ns (accept_bbo e a)
unfolding accept_bbo state_from_bbo validate_event
bbo-IsQuiet e a old t s =
    accepted-IsQuiet (some e.header.receive_ts_ns) e.header.receive_ts_ns (with_bbo e a)
      (record a { stale_bbo_exclusions = a.stale_bbo_exclusions + 1 })
      (bbo_view e a.settings a.latest_depth) (is_stale e.header a.settings)
      (not (state_due e.header.receive_ts_ns (with_bbo e a)))
      (bbo_view-IsBook e a.settings a.latest_depth s.depth (ground (arith, t.valid)) t.caused)
      (bbo_view_event e a.settings a.latest_depth)
      (record { pending = s.pending; depth = s.depth; book = s.book })
      (record { pending = s.pending; depth = s.depth; book = s.book })

trade-IsQuiet :
    (last : Option ℕ) (t : TradeEvent) (a : Assembler) (old : ℕ)
    → IsTimely old (trade t)
    → IsSound last old a
    → IsQuiet last t.header.receive_ts_ns (accept_trade t a)
unfolding accept_trade validate_event
trade-IsQuiet last t a old h s =
    if_cases P (ltb t.header.receive_ts_ns t.header.event_ts_ns)
      (λ q. absurd (ground (arith, h.caused, q)))
      (λ q.
        if_both P (is_stale t.header a.settings)
          (record {
            quiet = refl;
            sound = record { pending = b.pending; depth = b.depth; book = b.book };
          })
          (record {
            quiet = refl;
            sound = record {
              pending = All-append _ _ (t ∷ []) b.pending (new, tt);
              depth = b.depth;
              book = b.book;
            };
          }))
  where
    P : Outcome × Assembler → Type 0
    P r = IsQuiet last t.header.receive_ts_ns r

    b : IsSound last t.header.receive_ts_ns (expire_stale_trades t.header.receive_ts_ns a)
    b = expire-IsSound last old t.header.receive_ts_ns a h.not_before s

    new : IsPending t.header.receive_ts_ns t
    new = record { valid = ground (arith, h.valid); caused = h.caused; received = omega arith }

no_receipt_error :
    (h : EventHeader) (a : Assembler) (last : Option ℕ)
    → a.last_book_receive_ts_ns ≡ last
    → not_after h.receive_ts_ns last ≡ false
    → h.event_ts_ns ≤ h.receive_ts_ns
    → receipt_error h a ≡ none
no_receipt_error h a last q r c =
    let late : not_after h.receive_ts_ns a.last_book_receive_ts_ns ≡ false =
      subst (λ l. not_after h.receive_ts_ns l ≡ false) (sym q) r in
    if_cases P (not_after h.receive_ts_ns a.last_book_receive_ts_ns)
      (λ x. absurd (ground (arith, x, late)))
      (λ x.
        if_cases P (ltb h.receive_ts_ns h.event_ts_ns) (λ y. absurd (ground (arith, c, y)))
          (λ y. refl))
  where
    P : Option AssemblyError → Type 0
    P o = o ≡ none

book-IsQuiet :
    (h : EventHeader) (last : Option ℕ) (now : ℕ) (a : Assembler)
    (accept : Assembler → Outcome × Assembler)
    → now ≤ h.receive_ts_ns
    → h.event_ts_ns ≤ h.receive_ts_ns
    → not_after h.receive_ts_ns last ≡ false
    → ((b : Assembler)
        → IsSound (some h.receive_ts_ns) h.receive_ts_ns b
        → IsQuiet (some h.receive_ts_ns) h.receive_ts_ns (accept b))
    → IsSound last now a
    → IsQuiet
        (some h.receive_ts_ns)
        h.receive_ts_ns
        (elim (receipt_error h a) [ some x ↦ (raised x, a) | none ↦ accept (receive_book h a) ])
book-IsQuiet h last now a accept later caused new rest s =
    rw (no_receipt_error h a last s.book new caused)
      (rest (receive_book h a) (receive_book-IsSound last now h a later s))

-- From a sound assembler.
quiet_from :
    (es : List MarketEvent) (last : Option ℕ) (now : ℕ) (a : Assembler)
    → InOrder last now es
    → IsSound last now a
    → All (λ o. is_raised o ≡ false) (observe_all es a).0
unfolding observe_all observe
quiet_from [] last now a h s = tt
quiet_from (trade t ∷ es) last now a (h, rest) s =
    let r = trade-IsQuiet last t a now h s in
    (r.quiet, quiet_from es last t.header.receive_ts_ns _ rest r.sound)
quiet_from (other kind h ∷ es) last now a rest s = (refl, quiet_from es last now a rest s)
quiet_from (l2_book e ∷ es) last now a (h, new, rest) s =
    let r =
      book-IsQuiet e.header last now a (accept_l2 e) h.not_before h.caused new
        (λ b q. l2-IsQuiet e b now h q) s in
    (r.quiet, quiet_from es (some e.header.receive_ts_ns) e.header.receive_ts_ns _ rest r.sound)
quiet_from (bbo e ∷ es) last now a (h, new, rest) s =
    let r =
      book-IsQuiet e.header last now a (accept_bbo e) h.not_before h.caused new
        (λ b q. bbo-IsQuiet e b now h q) s in
    (r.quiet, quiet_from es (some e.header.receive_ts_ns) e.header.receive_ts_ns _ rest r.sound)

-- If the events pass their validators, none is received before it happens, the receipts of trades and
-- books do not go back, and those of books increase, then an assembler that was constructed raises at
-- no event: every state that it makes passes the validator of the kernel.
pub new_assembler_quiet :
    (s : Settings) (a : Assembler) (es : List MarketEvent)
    → new_assembler s ≡ some a
    → InOrder none 0 es
    → All (λ o. is_raised o ≡ false) (observe_all es a).0
unfolding new_assembler
new_assembler_quiet s a es h order = quiet_from es none 0 a order (record {
  pending = subst (All (IsPending 0)) (sym pending) tt;
  depth = subst HasDepth (sym depth) tt;
  book = ground arith;
})
  where
    pending : a.pending_trades ≡ []
    pending = ground arith

    depth : a.latest_depth ≡ none
    depth = ground arith
