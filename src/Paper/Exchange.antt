-- ===== src/Paper/Exchange.antt =====
-- The exchange of paper/simulator.py and the operations that need no market: `submit`,
-- `request_cancel` and `request_cancel_all`. The account is not part of it.
use aiquant_trader.Prelude.{
  ℕ, ◌+◌, ◌%◌, Bool, false, not, ◌&&◌, Option, none, some, List, [], ◌∷◌, leb, ◌==◌, if◌then◌else◌,
  member, is_some,
}
use aiquant_trader.Risk.Domain.{OrderIntent, is_market, is_gtc}
use aiquant_trader.Paper.Orders.{
  pending_activation, pending_cancel, canceled, rejected, is_pending_cancel, RejectionReason,
  quantity_not_on_lot_size, price_not_on_tick_size, paper_gtc_limit_must_be_post_only, PaperOrder,
  ExecutionScenario, duplicate_intent, Result, ok, err, put, open_orders,
}

pub record Exchange : Type 0 where
  pub orders : List PaperOrder
  pub intent_ids : List ℕ

abbrev pub off_tick : ExecutionScenario → Option ℕ → Bool
off_tick sc none = false
off_tick sc (some price) = not (price % sc.tick_size == 0)

-- `_instruction_error`
unfoldable pub instruction_error : ExecutionScenario → OrderIntent → Option RejectionReason
instruction_error sc i =
    if not (i.quantity_base % sc.lot_size == 0)
    then some quantity_not_on_lot_size
    else if off_tick sc i.limit_price
    then some price_not_on_tick_size
    else if not (is_market i.kind) && is_gtc i.time_in_force && not i.post_only
    then some paper_gtc_limit_must_be_post_only
    else none

-- The order of a new intent; `id` is the digest of the namespace and the intent's identifier.
unfoldable pub new_order : ExecutionScenario → ℕ → OrderIntent → ℕ → PaperOrder
unfolding instruction_error
new_order sc id i accepted = record {
  paper_order_id = id;
  intent = i;
  state = if is_some (instruction_error sc i) then rejected else pending_activation;
  accepted_ts_ns = accepted;
  effective_ts_ns = accepted + sc.entry_latency_ns;
  updated_ts_ns = accepted;
  filled_quantity_base = 0;
  queue_ahead_base = 0;
  cancel_effective_ts_ns = none;
  rejection_reason = instruction_error sc i;
}

unfoldable pub submit : ExecutionScenario → (ℕ → ℕ) → OrderIntent → ℕ → Exchange → Result Exchange
unfolding new_order put
submit sc order_id i accepted x =
    if member i.intent_id x.intent_ids
    then err duplicate_intent
    else ok (record x {
      orders = put (new_order sc (order_id i.intent_id) i accepted) x.orders;
      intent_ids = i.intent_id ∷ x.intent_ids;
    })

-- `_find_open_intent`, on the open orders.
unfoldable pub find_open_intent : ℕ → List PaperOrder → Option PaperOrder
find_open_intent intent [] = none
find_open_intent intent (o ∷ os) =
    if o.intent.intent_id == intent then some o else find_open_intent intent os

abbrev pub to_pending_cancel : ExecutionScenario → ℕ → PaperOrder → PaperOrder
to_pending_cancel sc requested o = record o {
  state = pending_cancel;
  cancel_effective_ts_ns = some (requested + sc.response_latency_ns);
  updated_ts_ns = requested;
}

abbrev pub put_found :
    (PaperOrder → PaperOrder) → Option PaperOrder → List PaperOrder → List PaperOrder
put_found f none os = os
put_found f (some o) os = put (f o) os

unfoldable pub request_cancel : ExecutionScenario → ℕ → ℕ → List PaperOrder → List PaperOrder
unfolding open_orders put
request_cancel sc intent requested os =
    put_found (to_pending_cancel sc requested) (find_open_intent intent (open_orders os)) os

unfoldable pub cancel_each :
    ExecutionScenario → ℕ → List PaperOrder → List PaperOrder → List PaperOrder
unfolding request_cancel
cancel_each sc requested [] os = os
cancel_each sc requested (o ∷ rest) os =
    cancel_each sc requested rest (request_cancel sc o.intent.intent_id requested os)

unfoldable pub request_cancel_all : ExecutionScenario → ℕ → List PaperOrder → List PaperOrder
unfolding open_orders cancel_each
request_cancel_all sc requested os = cancel_each sc requested (open_orders os) os

abbrev pub reached : ℕ → Option ℕ → Bool
reached now none = false
reached now (some t) = leb t now

-- A cancel whose latency is over.
abbrev pub cancel_due : ℕ → PaperOrder → Bool
cancel_due now o = is_pending_cancel o.state && reached now o.cancel_effective_ts_ns

abbrev pub to_canceled : ℕ → PaperOrder → PaperOrder
to_canceled now o = record o { state = canceled; updated_ts_ns = now }
