-- ===== src/Paper/Life.antt =====
-- The operations of the paper exchange as steps, and what the cancellations store.
use mathlib.Core.Path.{subst}
use aiquant_trader.Prelude.{
  ℕ, ◌≡◌, refl, inl, inr, false, Option, none, some, List, [], ◌∷◌, ◌==◌, All, Bool-cases,
}
use aiquant_trader.Risk.Domain.{OrderIntent}
use aiquant_trader.Paper.Orders.{
  PaperOrder, ExecutionScenario, KernelMarketState, Result, ok, ◌>>=◌, open_orders,
  terminal_paper_state,
}
use aiquant_trader.Paper.Exchange.{
  Exchange, submit, find_open_intent, to_pending_cancel, put_found, request_cancel, cancel_each,
  request_cancel_all,
}
use aiquant_trader.Paper.Loops.{elapse, advance, activate_pending}
use aiquant_trader.Paper.Snapshot.{Distinct, IsFound, IsSnapshot, open_orders-IsSnapshot}
use aiquant_trader.Paper.Evolution.{Stores, done, stored, Stores-trans, Stores-Distinct}
use aiquant_trader.Paper.Turns.{Follows-same}

found_open :
    (P : PaperOrder → Type 0) (intent : ℕ) (o : PaperOrder) (rs : List PaperOrder)
    → find_open_intent intent rs ≡ some o
    → All P rs
    → P o
unfolding find_open_intent
found_open P intent o [] h a = absurd (never h)
  where
    never : none ≡ some o → ⊥
    never q = cc
found_open P intent o (x ∷ rs) h (a, rest) = elim (Bool-cases (x.intent.intent_id == intent)) [
  | inl hit ↦ subst P (some_injective (rw hit at h)) a
  | inr miss ↦ found_open P intent o rs (rw miss at h) rest
]
  where
    some_injective : some x ≡ some o → x ≡ o
    some_injective q = cc

pub request_cancel-Stores :
    (sc : ExecutionScenario) (intent requested : ℕ) (os : List PaperOrder)
    → Distinct os
    → Stores os (request_cancel sc intent requested os)
unfolding request_cancel
request_cancel-Stores sc intent requested os d =
    by_found (find_open_intent intent (open_orders os)) refl
  where
    s : IsSnapshot os (open_orders os)
    s = open_orders-IsSnapshot os d

    by_found :
        (o : Option PaperOrder)
        → find_open_intent intent (open_orders os) ≡ o
        → Stores os (put_found (to_pending_cancel sc requested) o os)
    by_found none e = done
    by_found (some o) e =
        stored done o (to_pending_cancel sc requested o)
          (found_open (IsFound os) intent o (open_orders os) e s.found)
          (found_open (λ (x : PaperOrder). terminal_paper_state x.state ≡ false) intent o
            (open_orders os) e s.open_still)
          (Follows-same o _ refl refl refl refl)

pub cancel_each-Stores :
    (sc : ExecutionScenario) (requested : ℕ) (rs os : List PaperOrder)
    → Distinct os
    → Stores os (cancel_each sc requested rs os)
unfolding cancel_each
cancel_each-Stores sc requested [] os d = done
cancel_each-Stores sc requested (o ∷ rs) os d =
    let first = request_cancel-Stores sc o.intent.intent_id requested os d in
    Stores-trans first (cancel_each-Stores sc requested rs _ (Stores-Distinct first d))

-- An operation of the exchange.
pub data Operation : Type 0 where
  submission : OrderIntent → ℕ → Operation
  cancellation : ℕ → ℕ → Operation
  cancellation_of_all : ℕ → Operation
  time_passing : ℕ → Operation
  market_frame : KernelMarketState → Operation
  late_activation : ℕ → KernelMarketState → Operation

abbrev pub with_orders : Exchange → List PaperOrder → Exchange
with_orders x os = record x { orders = os }

unfoldable pub perform : ExecutionScenario → (ℕ → ℕ) → Operation → Exchange → Result Exchange
unfolding submit request_cancel request_cancel_all elapse advance activate_pending
perform sc order_id (submission i accepted) x = submit sc order_id i accepted x
perform sc order_id (cancellation intent requested) x =
    ok (with_orders x (request_cancel sc intent requested x.orders))
perform sc order_id (cancellation_of_all requested) x =
    ok (with_orders x (request_cancel_all sc requested x.orders))
perform sc order_id (time_passing now) x = ok (with_orders x (elapse now x.orders).orders)
perform sc order_id (market_frame m) x = do y ← advance sc m x.orders; ok (with_orders x y.orders)
perform sc order_id (late_activation now m) x = do
  y ← activate_pending sc now m x.orders
  ok (with_orders x y.orders)

-- A sequence of operations, up to the first that raises.
unfoldable pub play : ExecutionScenario → (ℕ → ℕ) → List Operation → Exchange → Result Exchange
unfolding perform
play sc order_id [] x = ok x
play sc order_id (c ∷ cs) x = do y ← perform sc order_id c x; play sc order_id cs y
