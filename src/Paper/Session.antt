-- ===== src/Paper/Session.antt =====
-- A session of the paper exchange of paper/simulator.py: its orders and its account together. The orders
-- do not depend on the account, so the events of the account are found first.
use mathlib.Core.Path.{subst}
use aiquant_trader.Prelude.{ℕ, ◌≡◌, false, Option, none, some, List, [], ◌∷◌, ◌++◌, map, All}
use aiquant_trader.Prelude.Int.{ℤ}
use aiquant_trader.Paper.Orders.{
  PaperFill, ExecutionScenario, KernelMarketState, Result, ok, err, ◌>>=◌,
}
use aiquant_trader.Paper.Exchange.{Exchange}
use aiquant_trader.Paper.Loops.{Frame, advance, activate_pending}
use aiquant_trader.Paper.Life.{
  Operation, submission, cancellation, cancellation_of_all, time_passing, market_frame,
  late_activation, with_orders, perform,
}
use aiquant_trader.Paper.Positive.{
  Holds, Holds-bind, IsPositive, FineFrame, advance-FineFrame, activate_pending-FineFrame,
}
use aiquant_trader.Paper.Account.{
  PaperAccountState, new_account, is_settled, mark_or_mid, AccountEvent, account_fill, account_mark,
  account_funding, frame_events, run_account,
}
use aiquant_trader.Paper.Account.Steps.{InOrder}
use aiquant_trader.Paper.Account.Books.{IsReconciled, run_account-IsReconciled}

-- An operation with the mark that the caller gives, or a settlement of funding.
pub data SessionEvent : Type 0 where
  operation : Operation → Option ℕ → SessionEvent
  settlement : ℤ → ℕ → ℕ → SessionEvent

-- An operation of the exchange, with what it does to the account.
unfoldable pub operate :
    ExecutionScenario
    → (ℕ → ℕ)
    → Operation
    → Option ℕ
    → Exchange
    → Result (Exchange × List AccountEvent)
unfolding perform advance activate_pending
operate sc order_id (market_frame m) mark x = do
  y ← advance sc m x.orders
  ok (with_orders x y.orders, frame_events mark m m.observed_ts_ns y.fills)
operate sc order_id (late_activation now m) mark x = do
  y ← activate_pending sc now m x.orders
  ok (with_orders x y.orders, frame_events mark m now y.fills)
operate sc order_id (submission i accepted) mark x = do
  y ← perform sc order_id (submission i accepted) x
  ok (y, [])
operate sc order_id (cancellation intent requested) mark x = do
  y ← perform sc order_id (cancellation intent requested) x
  ok (y, [])
operate sc order_id (cancellation_of_all requested) mark x = do
  y ← perform sc order_id (cancellation_of_all requested) x
  ok (y, [])
operate sc order_id (time_passing now) mark x = do
  y ← perform sc order_id (time_passing now) x
  ok (y, [])

-- The events of the account in a session in which no operation of the exchange raises.
unfoldable pub session :
    ExecutionScenario → (ℕ → ℕ) → List SessionEvent → Exchange → Result (List AccountEvent)
unfolding operate
session sc order_id [] x = ok []
session sc order_id (settlement rate mark now ∷ es) x = do
  rest ← session sc order_id es x
  ok (account_funding rate mark now ∷ rest)
session sc order_id (operation c mark ∷ es) x = do
  made ← operate sc order_id c mark x
  rest ← session sc order_id es made.0
  ok (made.1 ++ rest)

-- Each settlement is later than the one before.
abbrev pub Settles : Option ℕ → List SessionEvent → Type 0
Settles last [] = Unit
Settles last (operation c mark ∷ es) = Settles last es
Settles last (settlement rate mark now ∷ es) = (is_settled now last ≡ false) × Settles (some now) es

-- Events that may come before any others.
abbrev IsNeutral : List AccountEvent → Type 0
IsNeutral evs =
    (last : Option ℕ) (rest : List AccountEvent) → InOrder last rest → InOrder last (evs ++ rest)

fills-IsNeutral :
    (fs : List PaperFill) (mark now : ℕ)
    → All IsPositive fs
    → IsNeutral (map account_fill fs ++ account_mark mark now ∷ [])
fills-IsNeutral [] mark now h last rest k = k
fills-IsNeutral (f ∷ fs) mark now (positive, h) last rest k =
    (positive, fills-IsNeutral fs mark now h last rest k)

framed :
    (mark : Option ℕ) (m : KernelMarketState) (now : ℕ) (x : Exchange) (r : Result Frame)
    → Holds FineFrame r
    → Holds
        (λ (made : Exchange × List AccountEvent). IsNeutral made.1)
        (r >>= λ y. ok (with_orders x y.orders, frame_events mark m now y.fills))
framed mark m now x r h =
    Holds-bind FineFrame (λ (made : Exchange × List AccountEvent). IsNeutral made.1) r _ h
      (λ y fine. fills-IsNeutral y.fills (mark_or_mid mark m) now fine)

silent :
    (r : Result Exchange)
    → Holds (λ (made : Exchange × List AccountEvent). IsNeutral made.1) (r >>= λ y. ok (y, []))
silent (ok y) = λ last rest h. h
silent (err e) = tt

operate-IsNeutral :
    (sc : ExecutionScenario) (order_id : ℕ → ℕ) (c : Operation) (mark : Option ℕ) (x : Exchange)
    → Holds
        (λ (made : Exchange × List AccountEvent). IsNeutral made.1)
        (operate sc order_id c mark x)
unfolding operate
operate-IsNeutral sc order_id (market_frame m) mark x =
    framed mark m m.observed_ts_ns x (advance sc m x.orders) (advance-FineFrame sc m x.orders)
operate-IsNeutral sc order_id (late_activation now m) mark x =
    framed mark m now x (activate_pending sc now m x.orders)
      (activate_pending-FineFrame sc now m x.orders)
operate-IsNeutral sc order_id (submission i accepted) mark x =
    silent (perform sc order_id (submission i accepted) x)
operate-IsNeutral sc order_id (cancellation intent requested) mark x =
    silent (perform sc order_id (cancellation intent requested) x)
operate-IsNeutral sc order_id (cancellation_of_all requested) mark x =
    silent (perform sc order_id (cancellation_of_all requested) x)
operate-IsNeutral sc order_id (time_passing now) mark x =
    silent (perform sc order_id (time_passing now) x)

session-InOrder :
    (sc : ExecutionScenario) (order_id : ℕ → ℕ) (es : List SessionEvent) (last : Option ℕ)
    (x : Exchange)
    → Settles last es
    → Holds (InOrder last) (session sc order_id es x)
unfolding session
session-InOrder sc order_id [] last x h = tt
session-InOrder sc order_id (settlement rate mark now ∷ es) last x (new, h) =
    Holds-bind (InOrder (some now)) (InOrder last) (session sc order_id es x) _
      (session-InOrder sc order_id es (some now) x h) (λ rest order. (new, order))
session-InOrder sc order_id (operation c mark ∷ es) last x h =
    Holds-bind (λ (made : Exchange × List AccountEvent). IsNeutral made.1) (InOrder last)
      (operate sc order_id c mark x) _ (operate-IsNeutral sc order_id c mark x)
      (λ made neutral.
        Holds-bind (InOrder last) (InOrder last) (session sc order_id es made.0) _
          (session-InOrder sc order_id es last made.0 h) (λ rest order. neutral last rest order))

-- In a session in which no operation of the exchange raises and each settlement is later than the one
-- before, the account of the exchange, new at the start, never raises; and its books reconcile with the
-- fills, the marks and the settlements of the session.
pub session-IsReconciled :
    (sc : ExecutionScenario) (order_id : ℕ → ℕ) (es : List SessionEvent) (x : Exchange)
    (events : List AccountEvent) (equity mark started : ℕ)
    → session sc order_id es x ≡ ok events
    → Settles none es
    → (a : PaperAccountState) × (run_account sc events (new_account equity mark started) ≡ some a)
      × IsReconciled events equity a
session-IsReconciled sc order_id es x events equity mark started h order =
    run_account-IsReconciled sc events equity mark started
      (subst (Holds (InOrder none)) h (session-InOrder sc order_id es none x order))
