-- ===== src/Paper/Positive.antt =====
-- The fills that the exchange of paper/simulator.py makes have positive quantities.
use aiquant_trader.Prelude.{
  ℕ, ◌+◌, ◌-◌, ◌*◌, ◌≤◌, min, Bool, true, false, not, ◌&&◌, ◌||◌, Option, none, some, List, [], ◌∷◌,
  ltb, ◌==◌, if◌then◌else◌, keep, All, All-append, arith, if_cases, if_both,
}
use aiquant_trader.Risk.Domain.{is_market, is_gtc}
use aiquant_trader.Paper.Orders.{
  PaperOrder, PaperFill, ExecutionScenario, KernelBookLevel, KernelTrade, KernelMarketState, Result,
  ok, err, ◌>>=◌, remaining_quantity_base, open_orders, sort_by,
}
use aiquant_trader.Paper.Exchange.{to_canceled, cancel_due}
use aiquant_trader.Paper.Matching.{
  fill, liquidity, take_levels, taker_price, eligible_levels, total_liquidity, execute_taker,
  crosses, activate_limit, activate,
}
use aiquant_trader.Paper.Loops.{
  Frame, frame, store, cancel_loop, elapse, is_activatable, activate_loop, is_candidate, queue_only,
  after_fill, limit_or_zero, match_order, match_loop, match_trade, match_trades,
  cancel_and_activate, advance, activate_pending,
}

-- What holds of a result, if there is one.
abbrev pub Holds : {A : Type 0} → (A → Type 0) → Result A → Type 0
Holds P (ok x) = P x
Holds P (err e) = Unit

pub Holds-bind :
    {A B : Type 0} (P : A → Type 0) (Q : B → Type 0) (r : Result A) (f : A → Result B)
    → Holds P r
    → ((x : A) → P x → Holds Q (f x))
    → Holds Q (r >>= f)
Holds-bind P Q (ok x) f h k = k x h
Holds-bind P Q (err e) f h k = tt

abbrev pub IsPositive : PaperFill → Type 0
IsPositive f = 1 ≤ f.quantity_base

abbrev Fine : {A : Type 0} → A × List PaperFill → Type 0
Fine r = All IsPositive r.1

fill-IsPositive :
    (o : PaperOrder) (amount price : ℕ) (maker : Bool) (now : ℕ)
    → Holds IsPositive (fill o amount price maker now)
unfolding fill
fill-IsPositive o amount price maker now =
    if_cases (Holds IsPositive) (amount == 0 || price == 0) (λ q. tt) (λ q. ground (arith, q))

take_levels-Fine :
    (sc : ExecutionScenario) (o : PaperOrder) (now : ℕ) (ls : List KernelBookLevel) (remaining : ℕ)
    → Holds Fine (take_levels sc o now ls remaining)
unfolding take_levels
take_levels-Fine sc o now [] remaining = tt
take_levels-Fine sc o now (l ∷ ls) remaining =
    let amount = min remaining (liquidity sc l) in
    let rest = take_levels-Fine sc o now ls (remaining - amount) in
    if_both (Holds Fine) (amount == 0) rest (
      Holds-bind IsPositive Fine (fill o amount (taker_price sc o.intent l.price) false now) _
        (fill-IsPositive o amount (taker_price sc o.intent l.price) false now)
        (λ f positive.
          if_both (Holds Fine) (remaining - amount == 0) (positive, tt)
            (Holds-bind Fine Fine (take_levels sc o now ls (remaining - amount)) _ rest
              (λ left fine. (positive, fine)))))

execute_taker-Fine :
    (sc : ExecutionScenario) (o : PaperOrder) (m : KernelMarketState) (now : ℕ)
    → Holds Fine (execute_taker sc o m now)
unfolding execute_taker
execute_taker-Fine sc o m now =
    let levels = eligible_levels o.intent m in
    let available = total_liquidity sc levels in
    let requested = remaining_quantity_base o in
    let target = if sc.allow_partial_fills then min requested available else requested in
    if_both (Holds Fine) (target == 0 || (not sc.allow_partial_fills && ltb available requested)) tt
      (Holds-bind Fine Fine (take_levels sc o now levels target) _
        (take_levels-Fine sc o now levels target) (λ left fine. fine))

activate_limit-Fine :
    (sc : ExecutionScenario) (o : PaperOrder) (limit : Option ℕ) (m : KernelMarketState) (now : ℕ)
    → Holds Fine (activate_limit sc o limit m now)
unfolding activate_limit
activate_limit-Fine sc o none m now = tt
activate_limit-Fine sc o (some limit) m now =
    if_both (Holds Fine) (o.intent.post_only && crosses o.intent.side limit m) tt (
      if_both (Holds Fine) (not (is_gtc o.intent.time_in_force))
        (if_both (Holds Fine) (crosses o.intent.side limit m) (execute_taker-Fine sc o m now) tt)
        tt)

activate-Fine :
    (sc : ExecutionScenario) (o : PaperOrder) (m : KernelMarketState) (now : ℕ)
    → Holds Fine (activate sc o m now)
unfolding activate
activate-Fine sc o m now =
    if_both (Holds Fine) (is_market o.intent.kind) (execute_taker-Fine sc o m now)
      (activate_limit-Fine sc o o.intent.limit_price m now)

abbrev pub FineFrame : Frame → Type 0
FineFrame x = All IsPositive x.fills

store-FineFrame :
    (o : PaperOrder) (fs : List PaperFill) (x : Frame)
    → FineFrame x
    → All IsPositive fs
    → FineFrame (store o fs x)
store-FineFrame o fs x h k = All-append IsPositive x.fills fs h k

cancel_loop-FineFrame :
    (now : ℕ) (os : List PaperOrder) (x : Frame) → FineFrame x → FineFrame (cancel_loop now os x)
unfolding cancel_loop
cancel_loop-FineFrame now [] x h = h
cancel_loop-FineFrame now (o ∷ os) x h =
    cancel_loop-FineFrame now os _
      (if_both FineFrame (cancel_due now o) (store-FineFrame (to_canceled now o) [] x h tt) h)

activate_loop-FineFrame :
    (sc : ExecutionScenario) (m : KernelMarketState) (now : ℕ) (os : List PaperOrder) (x : Frame)
    → FineFrame x
    → Holds FineFrame (activate_loop sc m now os x)
unfolding activate_loop
activate_loop-FineFrame sc m now [] x h = h
activate_loop-FineFrame sc m now (o ∷ os) x h =
    if_both (Holds FineFrame) (not (is_activatable now o)) (activate_loop-FineFrame sc m now os x h)
      (Holds-bind Fine FineFrame (activate sc o m now) _ (activate-Fine sc o m now) (λ made fine.
        activate_loop-FineFrame sc m now os (store made.0 made.1 x)
          (store-FineFrame made.0 made.1 x h fine)))

match_order-FineFrame :
    (sc : ExecutionScenario) (now : ℕ) (o : PaperOrder) (available : ℕ) (x : Frame)
    → FineFrame x
    → Holds (λ r. FineFrame r.1) (match_order sc now o available x)
unfolding match_order
match_order-FineFrame sc now o available x h =
    let consumed = min o.queue_ahead_base available in
    let behind = available - consumed in
    let queue = o.queue_ahead_base - consumed in
    let amount = min (remaining_quantity_base o) behind in
    if_both P (behind == 0) (store-FineFrame (queue_only now queue o) [] x h tt) (
      if_both P (not sc.allow_partial_fills && ltb amount (remaining_quantity_base o)) h (
        Holds-bind IsPositive (λ r. FineFrame r.1)
          (fill o amount (limit_or_zero o.intent.limit_price) true now) _
          (fill-IsPositive o amount (limit_or_zero o.intent.limit_price) true now)
          (λ f positive.
            store-FineFrame (after_fill now (o.filled_quantity_base + amount) queue o) (f ∷ []) x h
              (positive, tt))))
  where
    P : Result (ℕ × Frame) → Type 0
    P r = Holds (λ r. FineFrame r.1) r

match_loop-FineFrame :
    (sc : ExecutionScenario) (now : ℕ) (os : List PaperOrder) (available : ℕ) (x : Frame)
    → FineFrame x
    → Holds FineFrame (match_loop sc now os available x)
unfolding match_loop
match_loop-FineFrame sc now [] available x h = h
match_loop-FineFrame sc now (o ∷ os) available x h = if_both (Holds FineFrame) (available == 0) h (
    Holds-bind (λ r. FineFrame r.1) FineFrame (match_order sc now o available x) _
      (match_order-FineFrame sc now o available x h)
      (λ next fine. match_loop-FineFrame sc now os next.0 next.1 fine))

match_trades-FineFrame :
    (sc : ExecutionScenario) (now : ℕ) (ts : List KernelTrade) (x : Frame)
    → FineFrame x
    → Holds FineFrame (match_trades sc now ts x)
unfolding match_trades match_trade
match_trades-FineFrame sc now [] x h = h
match_trades-FineFrame sc now (t ∷ ts) x h =
    Holds-bind FineFrame FineFrame (match_trade sc now t x) _
      (match_loop-FineFrame sc now
        (sort_by (λ o. o.effective_ts_ns) (keep (is_candidate t) (open_orders x.orders)))
        (t.size * sc.trade_flow_multiplier) x h)
      (λ next fine. match_trades-FineFrame sc now ts next fine)

cancel_and_activate-FineFrame :
    (sc : ExecutionScenario) (m : KernelMarketState) (now : ℕ) (os : List PaperOrder)
    → Holds FineFrame (cancel_and_activate sc m now os)
unfolding cancel_and_activate elapse
cancel_and_activate-FineFrame sc m now os =
    activate_loop-FineFrame sc m now
      (open_orders (cancel_loop now (open_orders os) (frame os)).orders)
      (cancel_loop now (open_orders os) (frame os))
      (cancel_loop-FineFrame now (open_orders os) (frame os) tt)

pub advance-FineFrame :
    (sc : ExecutionScenario) (m : KernelMarketState) (os : List PaperOrder)
    → Holds FineFrame (advance sc m os)
unfolding advance
advance-FineFrame sc m os =
    Holds-bind FineFrame FineFrame (cancel_and_activate sc m m.observed_ts_ns os) _
      (cancel_and_activate-FineFrame sc m m.observed_ts_ns os)
      (λ x fine. match_trades-FineFrame sc m.observed_ts_ns m.trades x fine)

pub activate_pending-FineFrame :
    (sc : ExecutionScenario) (now : ℕ) (m : KernelMarketState) (os : List PaperOrder)
    → Holds FineFrame (activate_pending sc now m os)
unfolding activate_pending
activate_pending-FineFrame sc now m os =
    if_both (Holds FineFrame) (ltb now m.observed_ts_ns) tt
      (cancel_and_activate-FineFrame sc m now os)
