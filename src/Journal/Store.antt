-- ===== src/Journal/Store.antt =====
-- The operations of `ExecutionJournal`. A transaction that raises is rolled back, so a failed
-- operation returns its error and no journal.
use aiquant_trader.Prelude.{
  ℕ, Bool, true, false, not, ◌&&◌, Option, none, some, List, [], ◌∷◌, ◌++◌, leb, ◌==◌,
  if◌then◌else◌, is_some, member, length, keep,
}
use aiquant_trader.Journal.States.{ExecutionState, state_code, may_follow, pending_submit}
use aiquant_trader.Journal.Table.{
  Row, Event, Journal, find_order, bound_elsewhere, apply_event, set_unknown, update_order, new_row,
  has_event, count_in,
}

-- `integrity` is an `sqlite3.IntegrityError` that the journal does not catch.
pub data JournalError : Type 0 where
  duplicate_intent invalid_transition integrity : JournalError

pub data Result (A : Type 0) : Type 0 where
  ok : A → Result A
  err : JournalError → Result A

infixl 5 ◌>>=◌ ◌>>◌
abbrev pub ◌>>=◌ : {A B : Type 0} → Result A → (A → Result B) → Result B
ok a >>= f = f a
err e >>= f = err e

abbrev pub ◌>>◌ : {B : Type 0} → Result (Unit {0}) → Result B → Result B
m >> k = m >>= λ _. k

abbrev pub raise_if : Bool → JournalError → Result (Unit {0})
raise_if true e = err e
raise_if false e = ok tt

-- `_insert_event`, with the UNIQUE and FOREIGN KEY constraints of the table.
unfoldable pub insert_event : Event → Journal → Result Journal
insert_event e j =
    if has_event e.event_id j.events
    then err integrity
    else if is_some (find_order e.intent_id j.orders)
    then ok (record j { events = j.events ++ e ∷ [] })
    else err integrity

unfoldable pub begin : Event → Journal → Result Journal
unfolding insert_event
begin e j = do
  raise_if (not (state_code e.state == state_code pending_submit)) invalid_transition
  raise_if (is_some (find_order e.intent_id j.orders)) duplicate_intent
  raise_if (bound_elsewhere e.client_order_id e.intent_id j.orders) integrity
  insert_event e (record j { orders = j.orders ++ new_row e ∷ [] })

-- The rest of `append`, once the order is found.
unfoldable pub append_to : Event → Journal → Option Row → Result Journal
unfolding insert_event
append_to e j none = err invalid_transition
append_to e j (some row) = do
  raise_if (not (may_follow row.state e.state)) invalid_transition
  raise_if (bound_elsewhere e.client_order_id e.intent_id j.orders) invalid_transition
  insert_event e (record j { orders = update_order e.intent_id (apply_event e) j.orders })

unfoldable pub append : Event → Journal → Result Journal
unfolding append_to
append e j = append_to e j (find_order e.intent_id j.orders)

-- The states whose exchange outcome is open, and those that time makes unknown.
abbrev pub unresolved_states : List ℕ
unresolved_states = 0 ∷ 1 ∷ 5 ∷ 6 ∷ 10 ∷ []

abbrev pub submission_states : List ℕ
submission_states = 0 ∷ 1 ∷ 5 ∷ 6 ∷ []

unfoldable pub unresolved_command_count : Journal → ℕ
unfolding count_in
unresolved_command_count j = count_in unresolved_states j.orders

unfoldable pub unknown_command_count : Journal → ℕ
unfolding count_in
unknown_command_count j = count_in (10 ∷ []) j.orders

unfoldable pub is_stale : ℕ → Row → Bool
is_stale cutoff r = member (state_code r.state) submission_states && leb r.updated_ts_ns cutoff

-- The loop of `mark_stale_submissions_unknown`, over the rows that were selected.
unfoldable pub mark_rows : (Row → Event) → List Row → Journal → Result Journal
unfolding insert_event
mark_rows factory [] j = ok j
mark_rows factory (r ∷ rs) j = do
  let e = factory r
  next ←
      insert_event e
        (record j { orders = update_order e.intent_id (set_unknown e.event_ts_ns) j.orders })
  mark_rows factory rs next

-- `mark_stale_submissions_unknown`: the new journal and the number of rows.
unfoldable pub mark_stale_submissions_unknown : ℕ → (Row → Event) → Journal → Result (Journal × ℕ)
unfolding is_stale mark_rows
mark_stale_submissions_unknown cutoff factory j = do
  let rows = keep (is_stale cutoff) j.orders
  marked ← mark_rows factory rows j
  ok (marked, length rows)

-- `make_event` of execution/node.py; `ids` stands for the fresh UUID of each row.
unfoldable pub make_event : (Row → ℕ) → ℕ → Row → Event
make_event ids now row = record {
  event_id = ids row;
  intent_id = row.intent_id;
  client_order_id = row.client_order_id;
  venue_order_id = row.venue_order_id;
  state = ExecutionState.unknown;
  event_ts_ns = now;
  filled_quantity_base = row.filled_quantity_base;
}

-- A call of the journal that writes.
pub data Command : Type 0 where
  begin_order : Event → Command
  append_event : Event → Command
  mark_stale : ℕ → (Row → ℕ) → ℕ → Command

abbrev pub first_of_pair : Result (Journal × ℕ) → Result Journal
first_of_pair (ok (j, n)) = ok j
first_of_pair (err e) = err e

unfoldable pub execute : Command → Journal → Result Journal
execute (begin_order e) j = begin e j
execute (append_event e) j = append e j
execute (mark_stale cutoff ids now) j =
    first_of_pair (mark_stale_submissions_unknown cutoff (make_event ids now) j)

-- What is left of the journal: the new tables, or, after the rollback, the old ones.
abbrev pub settled : Journal → Result Journal → Journal
settled j (ok j') = j'
settled j (err e) = j

unfoldable pub run : List Command → Journal → Journal
run [] j = j
run (c ∷ cs) j = run cs (settled j (execute c j))
