-- ===== src/Journal/Table.antt =====
-- The two tables of the journal, with the SQL statements that it makes on them. Identifiers are only
-- compared, so natural numbers stand for them; a filled quantity is stored as it is given.
use aiquant_trader.Prelude.{
  ℕ, ◌+◌, ◌≡◌, refl, Bool, false, not, ◌&&◌, ◌||◌, Option, none, some, List, [], ◌∷◌, ◌++◌, arith,
  ◌==◌, if◌then◌else◌, eq_option, member,
}
use aiquant_trader.Journal.States.{ExecutionState, state_code}

pub record Row : Type 0 where
  pub intent_id : ℕ
  pub client_order_id : Option ℕ
  pub venue_order_id : Option ℕ
  pub state : ExecutionState
  pub updated_ts_ns : ℕ
  pub filled_quantity_base : ℕ

-- `ExecutionJournalEvent`; the detail and the source are stored and never read.
pub record Event : Type 0 where
  pub event_id : ℕ
  pub intent_id : ℕ
  pub client_order_id : Option ℕ
  pub venue_order_id : Option ℕ
  pub state : ExecutionState
  pub event_ts_ns : ℕ
  pub filled_quantity_base : ℕ

pub record Journal : Type 0 where
  pub orders : List Row
  pub events : List Event

abbrev pub empty : Journal
empty = record { orders = []; events = [] }

-- SELECT ... FROM orders WHERE intent_id = ?
unfoldable pub find_order : ℕ → List Row → Option Row
find_order id [] = none
find_order id (r ∷ rs) = if r.intent_id == id then some r else find_order id rs

-- The unique index on `client_order_id`: another order holds this identifier. NULLs are distinct.
unfoldable pub bound_elsewhere : Option ℕ → ℕ → List Row → Bool
bound_elsewhere none id rs = false
bound_elsewhere (some c) id [] = false
bound_elsewhere (some c) id (r ∷ rs) =
    (not (r.intent_id == id) && eq_option r.client_order_id (some c))
    || bound_elsewhere (some c) id rs

abbrev pub coalesce : Option ℕ → Option ℕ → Option ℕ
coalesce none old = old
coalesce (some x) old = some x

-- The UPDATE of `append` on one row.
unfoldable pub apply_event : Event → Row → Row
apply_event e r = record {
  intent_id = r.intent_id;
  client_order_id = coalesce e.client_order_id r.client_order_id;
  venue_order_id = coalesce e.venue_order_id r.venue_order_id;
  state = e.state;
  updated_ts_ns = e.event_ts_ns;
  filled_quantity_base = e.filled_quantity_base;
}

-- The UPDATE of `mark_stale_submissions_unknown` on one row.
unfoldable pub set_unknown : ℕ → Row → Row
set_unknown ts r = record r { state = ExecutionState.unknown; updated_ts_ns = ts }

-- UPDATE orders SET ... WHERE intent_id = ?
unfoldable pub update_order : ℕ → (Row → Row) → List Row → List Row
update_order id f [] = []
update_order id f (r ∷ rs) = (if r.intent_id == id then f r else r) ∷ update_order id f rs

abbrev pub new_row : Event → Row
new_row e = record {
  intent_id = e.intent_id;
  client_order_id = e.client_order_id;
  venue_order_id = e.venue_order_id;
  state = e.state;
  updated_ts_ns = e.event_ts_ns;
  filled_quantity_base = e.filled_quantity_base;
}

-- The unique index on `event_id`.
unfoldable pub has_event : ℕ → List Event → Bool
has_event id [] = false
has_event id (e ∷ es) = e.event_id == id || has_event id es

-- SELECT event_json FROM events WHERE intent_id = ? ORDER BY sequence, as states
unfoldable pub states_of : ℕ → List Event → List ExecutionState
states_of id [] = []
states_of id (e ∷ es) =
    let rest = states_of id es in if e.intent_id == id then e.state ∷ rest else rest

unfoldable pub count_in : List ℕ → List Row → ℕ
count_in codes [] = 0
count_in codes (r ∷ rs) =
    let rest = count_in codes rs in if member (state_code r.state) codes then rest + 1 else rest

pub states_of-append :
    (id : ℕ) (es : List Event) (e : Event)
    → states_of id (es ++ e ∷ [])
      ≡ states_of id es ++ (if e.intent_id == id then e.state ∷ [] else [])
unfolding states_of
states_of-append id [] e = ground arith
states_of-append id (x ∷ es) e = ground (arith, states_of-append id es e)

-- An update of one order is seen under its own identifier only.
pub find_order-update :
    (id j : ℕ) (f : Row → Row) (rs : List Row)
    → ((r : Row) → (f r).intent_id ≡ r.intent_id)
    → find_order j (update_order id f rs)
      ≡ (elim (find_order j rs) [ none ↦ none | some r ↦ some (if id == j then f r else r) ])
unfolding find_order update_order
find_order-update id j f [] h = refl
find_order-update id j f (r ∷ rs) h = ground (arith, h r, find_order-update id j f rs h)
