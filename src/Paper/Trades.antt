-- ===== src/Paper/Trades.antt =====
-- `_match_trade` of paper/simulator.py: the volume of a trade and the orders that it reaches.
use aiquant_trader.Prelude.{
  ℕ, ◌+◌, ◌-◌, ◌*◌, ◌≤◌, ◌≡◌, refl, sym, ap, ◌∙◌, inl, inr, min, Bool, true, false, not, ◌&&◌, List,
  [], ◌∷◌, ◌++◌, append_assoc, ltb, ◌==◌, if◌then◌else◌, arith, Bool-cases,
}
use mathlib.Core.Path.{subst}
use aiquant_trader.Paper.Orders.{
  PaperOrder, PaperOrderState, is_filled, quantity, remaining_quantity_base, PaperFill,
  ExecutionScenario, KernelTrade, KernelMarketState, Result, ok, err, ◌>>=◌, put, open_orders,
  terminal_paper_state,
}
use aiquant_trader.Paper.Matching.{fill}
use aiquant_trader.Paper.Loops.{
  Frame, store, frame, elapse, is_candidate, queue_only, state_after_fill, after_fill,
  limit_or_zero, match_order, match_loop, match_trade, match_trades, cancel_and_activate, advance,
  activate_pending,
}
use aiquant_trader.Paper.Snapshot.{
  Distinct, IsSnapshot, open_orders-IsSnapshot, selected-IsSnapshot,
}
use aiquant_trader.Paper.Evolution.{
  Follows, Stores, done, Stores-trans, Stores-Distinct, store_head, skip_head,
}
use aiquant_trader.Paper.Snapshot.{IsSnapshot-put}
use aiquant_trader.Paper.Fills.{bind-inverse, ok_pair, fill-ok, total_quantity}
use aiquant_trader.Paper.Taker.{Follows-filled}
use aiquant_trader.Paper.Orders.{early_activation}
use aiquant_trader.Paper.Turns.{
  cancel_loop-Stores, activate_loop-Stores, Follows-same, ok_injective,
}

-- A turn of the matching stores a later version of its order, or nothing.
pub data Turn (x : Frame) (o : PaperOrder) (y : Frame) : Type 0 where
  kept : y.orders ≡ x.orders → Turn x o y
  replaced : (u : PaperOrder) → Follows o u → y.orders ≡ put u x.orders → Turn x o y

-- What a turn of the matching does for an order: its store, its fills, and the volume of the trade,
-- of which the queue ahead of the order comes first.
pub record IsMatched (o : PaperOrder) (available left : ℕ) (x y : Frame) : Type 0 where
  pub turn : Turn x o y
  pub made : List PaperFill
  pub fills : y.fills ≡ x.fills ++ made
  pub volume : left + total_quantity made + min o.queue_ahead_base available ≡ available

pub append_none : (fs : List PaperFill) → fs ≡ fs ++ []
append_none [] = refl
append_none (f ∷ fs) = ap (λ gs. f ∷ gs) (append_none fs)

-- The parts of `match_order`.
module _ (sc : ExecutionScenario) (now : ℕ) (o : PaperOrder) (available : ℕ) (x : Frame) where
  abbrev behind : ℕ
  behind = available - min o.queue_ahead_base available

  abbrev queue : ℕ
  queue = o.queue_ahead_base - min o.queue_ahead_base available

  abbrev amount : ℕ
  amount = min (remaining_quantity_base o) behind

  abbrev after : PaperOrder
  after = after_fill now (o.filled_quantity_base + amount) queue o

  abbrev add_fill : PaperFill → Result (ℕ × Frame)
  add_fill f = ok (behind - amount, store after (f ∷ []) x)

  abbrev offer : Bool → Bool → Result (ℕ × Frame)
  offer nothing_left refused =
      if nothing_left
      then ok (behind, store (queue_only now queue o) [] x)
      else if refused
      then ok (behind, x)
      else fill o amount (limit_or_zero o.intent.limit_price) true now >>= add_fill

  after-Follows : Follows o after
  unfolding remaining_quantity_base
  after-Follows =
      Follows-filled o after (o.filled_quantity_base + amount) refl refl refl
        (λ b. (omega arith, ground (arith, b.bound)))
        (λ h. whole (o.filled_quantity_base + amount == quantity o.intent) refl o.state h)
    where
      whole :
          (b : Bool)
          → (o.filled_quantity_base + amount == quantity o.intent) ≡ b
          → (s : PaperOrderState) → is_filled (state_after_fill s b) ≡ true
          → o.filled_quantity_base + amount ≡ quantity o.intent
      whole true e s h = ground (arith, e)
      whole false e s h = ground (arith, h)

  queue_only-Follows :
      (state_open : terminal_paper_state o.state ≡ false) → Follows o (queue_only now queue o)
  unfolding terminal_paper_state
  queue_only-Follows state_open = Follows-same o _ refl refl refl (ground arith)

  offer-IsMatched :
      (a b : Bool) (left : ℕ) (y : Frame)
      → terminal_paper_state o.state ≡ false
      → offer a b ≡ ok (left, y)
      → IsMatched o available left x y
  offer-IsMatched true b left y still h =
      let (n, stored_frame) = ok_pair h in
      rw (sym n, sym stored_frame)
        (record {
          turn = replaced (queue_only now queue o) (queue_only-Follows still) refl;
          made = [];
          fills = refl;
          volume = omega arith;
        })
  offer-IsMatched false true left y still h =
      let (n, same) = ok_pair h in
      rw (sym n, sym same)
        (record { turn = kept refl; made = []; fills = append_none x.fills; volume = omega arith })
  offer-IsMatched false false left y still h =
      let (f, filled_by, last) =
        bind-inverse add_fill (fill o amount (limit_or_zero o.intent.limit_price) true now) h in
      let (n, stored_frame) = ok_pair last in
      let (q, _, _) = fill-ok o amount (limit_or_zero o.intent.limit_price) true now f filled_by in
      rw (sym n, sym stored_frame)
        (record {
          turn = replaced after after-Follows refl;
          made = f ∷ [];
          fills = refl;
          volume = omega (arith, q);
        })

  match_order-IsMatched :
      (left : ℕ) (y : Frame)
      → terminal_paper_state o.state ≡ false
      → match_order sc now o available x ≡ ok (left, y)
      → IsMatched o available left x y
  match_order-IsMatched left y still h =
      offer-IsMatched (behind == 0)
        (not sc.allow_partial_fills && ltb amount (remaining_quantity_base o)) left y still
        (unfold match_order in h)

total_quantity-append :
    (a b : List PaperFill) → total_quantity (a ++ b) ≡ total_quantity a + total_quantity b
total_quantity-append [] b = omega arith
total_quantity-append (f ∷ a) b = omega (arith, total_quantity-append a b)

-- The fills that a trade adds are not more than its volume.
pub record IsTraded (volume : ℕ) (x y : Frame) : Type 0 where
  pub stores : Stores x.orders y.orders
  pub made : List PaperFill
  pub fills : y.fills ≡ x.fills ++ made
  pub within : total_quantity made ≤ volume

IsTraded-nothing : (volume : ℕ) (x : Frame) → IsTraded volume x x
IsTraded-nothing volume x = record {
  stores = done;
  made = [];
  fills = append_none x.fills;
  within = omega arith;
}

Turn-Stores :
    (o : PaperOrder) (rs : List PaperOrder) (x y : Frame)
    → IsSnapshot x.orders (o ∷ rs)
    → Turn x o y
    → (ts : List PaperOrder) → (IsSnapshot y.orders rs → Stores y.orders ts)
    → Stores x.orders ts
Turn-Stores o rs x y s (kept e) ts next =
    subst (λ os. (IsSnapshot os rs → Stores os ts) → Stores x.orders ts) (sym e)
      (λ go. go (skip_head o rs x.orders s)) next
Turn-Stores o rs x y s (replaced u f e) ts next =
    subst (λ os. (IsSnapshot os rs → Stores os ts) → Stores x.orders ts) (sym e)
      (λ go. store_head o u rs x.orders ts s f go) next

Turn-IsSnapshot :
    (o : PaperOrder) (rs : List PaperOrder) (x y : Frame)
    → IsSnapshot x.orders (o ∷ rs)
    → Turn x o y
    → IsSnapshot y.orders rs
Turn-IsSnapshot o rs x y s (kept e) =
    subst (λ os. IsSnapshot os rs) (sym e) (skip_head o rs x.orders s)
Turn-IsSnapshot o rs x y s (replaced u f e) =
    subst (λ os. IsSnapshot os rs) (sym e) (IsSnapshot-put o u rs x.orders f.id s)

IsTraded-turn :
    (o : PaperOrder) (rs : List PaperOrder) (available left : ℕ) (x y z : Frame)
    → IsSnapshot x.orders (o ∷ rs)
    → IsMatched o available left x y
    → IsTraded left y z
    → IsTraded available x z
IsTraded-turn o rs available left x y z s m t = record {
  stores = Turn-Stores o rs x y s m.turn z.orders (λ _. t.stores);
  made = m.made ++ t.made;
  fills = t.fills ∙ ap (λ fs. fs ++ t.made) m.fills ∙ append_assoc x.fills m.made t.made;
  within = omega (arith, total_quantity-append m.made t.made, t.within, m.volume);
}

match_loop-IsTraded :
    (sc : ExecutionScenario) (now : ℕ) (rs : List PaperOrder) (available : ℕ) (x z : Frame)
    → IsSnapshot x.orders rs
    → match_loop sc now rs available x ≡ ok z
    → IsTraded available x z
unfolding match_loop
match_loop-IsTraded sc now [] available x z s h =
    subst (IsTraded available x) (ok_injective h) (IsTraded-nothing available x)
match_loop-IsTraded sc now (o ∷ rs) available x z s h = elim (Bool-cases (available == 0)) [
  | inl spent ↦
      subst (IsTraded available x) (ok_injective (rw spent at h)) (IsTraded-nothing available x)
  | inr more ↦
      let (next, matched, rest) =
        bind-inverse {y = z} (λ (p : ℕ × Frame). match_loop sc now rs p.0 p.1)
          (match_order sc now o available x) (rw more at h) in
      let m = match_order-IsMatched sc now o available x next.0 next.1 s.open_still.0 matched in
      IsTraded-turn o rs available next.0 x next.1 z s m (
        match_loop-IsTraded sc now rs next.0 next.1 z (Turn-IsSnapshot o rs x next.1 s m.turn) rest)
]

-- The fills that a trade gives to the resting orders are, together, at most the volume of the trade
-- times its multiplier, whichever orders it reaches; and all that it stores are later versions of
-- open orders.
pub match_trade-IsTraded :
    (sc : ExecutionScenario) (now : ℕ) (t : KernelTrade) (x z : Frame)
    → Distinct x.orders
    → match_trade sc now t x ≡ ok z
    → IsTraded (t.size * sc.trade_flow_multiplier) x z
unfolding match_trade
match_trade-IsTraded sc now t x z d h =
    match_loop-IsTraded sc now _ (t.size * sc.trade_flow_multiplier) x z
      (selected-IsSnapshot (λ o. o.effective_ts_ns) (is_candidate t) x.orders (open_orders x.orders)
        (open_orders-IsSnapshot x.orders d))
      h

match_trades-Stores :
    (sc : ExecutionScenario) (now : ℕ) (ts : List KernelTrade) (x z : Frame)
    → Distinct x.orders
    → match_trades sc now ts x ≡ ok z
    → Stores x.orders z.orders
unfolding match_trades
match_trades-Stores sc now [] x z d h =
    subst (λ (f : Frame). Stores x.orders f.orders) (ok_injective h) done
match_trades-Stores sc now (t ∷ ts) x z d h =
    let (y, traded, rest) = bind-inverse (match_trades sc now ts) (match_trade sc now t x) h in
    let first = (match_trade-IsTraded sc now t x y d traded).stores in
    Stores-trans first (match_trades-Stores sc now ts y z (Stores-Distinct first d) rest)

pub elapse-Stores :
    (now : ℕ) (os : List PaperOrder) → Distinct os → Stores os (elapse now os).orders
unfolding elapse
elapse-Stores now os d =
    cancel_loop-Stores now (open_orders os) (frame os) (open_orders-IsSnapshot os d)

cancel_and_activate-Stores :
    (sc : ExecutionScenario) (m : KernelMarketState) (now : ℕ) (os : List PaperOrder) (y : Frame)
    → Distinct os
    → cancel_and_activate sc m now os ≡ ok y
    → Stores os y.orders
unfolding cancel_and_activate
cancel_and_activate-Stores sc m now os y d h =
    let first = elapse-Stores now os d in
    Stores-trans first (
      activate_loop-Stores sc m now _ (elapse now os) y
        (open_orders-IsSnapshot (elapse now os).orders (Stores-Distinct first d)) h)

pub advance-Stores :
    (sc : ExecutionScenario) (m : KernelMarketState) (os : List PaperOrder) (y : Frame)
    → Distinct os
    → advance sc m os ≡ ok y
    → Stores os y.orders
unfolding advance
advance-Stores sc m os y d h =
    let (x, begun, rest) =
      bind-inverse (match_trades sc m.observed_ts_ns m.trades)
        (cancel_and_activate sc m m.observed_ts_ns os) h in
    let first = cancel_and_activate-Stores sc m m.observed_ts_ns os x d begun in
    Stores-trans first
      (match_trades-Stores sc m.observed_ts_ns m.trades x y (Stores-Distinct first d) rest)

pub activate_pending-Stores :
    (sc : ExecutionScenario) (now : ℕ) (m : KernelMarketState) (os : List PaperOrder) (y : Frame)
    → Distinct os
    → activate_pending sc now m os ≡ ok y
    → Stores os y.orders
unfolding activate_pending
activate_pending-Stores sc now m os y d h = elim (Bool-cases (ltb now m.observed_ts_ns)) [
  | inl early ↦ absurd (never (rw early at h))
  | inr late ↦ cancel_and_activate-Stores sc m now os y d (rw late at h)
]
  where
    never : err early_activation ≡ ok y → ⊥
    never q = cc
