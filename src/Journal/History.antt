-- ===== src/Journal/History.antt =====
-- The life of a journal under any sequence of its writing calls.
use mathlib.Core.Path.{subst}
use aiquant_trader.Prelude.{
  ℕ, ◌≡◌, refl, sym, ◌∙◌, Bool, true, false, some, List, [], ◌∷◌, ◌++◌, arith, ◌==◌, if◌then◌else◌,
  keep, length, All, ==→eq, keep-passes,
}
use aiquant_trader.Journal.States.{ExecutionState, unknown, may_follow, terminal, terminal-stays}
use aiquant_trader.Journal.Table.{
  Row, Event, Journal, empty, find_order, apply_event, set_unknown, update_order, new_row,
  states_of, find_order-update,
}
use aiquant_trader.Journal.Store.{
  Result, ok, err, ◌>>=◌, insert_event, begin, append, is_stale, mark_rows,
  mark_stale_submissions_unknown, make_event, Command, begin_order, append_event, mark_stale,
  execute, settled, run, first_of_pair,
}
use aiquant_trader.Journal.Lifecycle.{
  IsConsistent, Agrees, begin-ok, append-ok, begin-IsConsistent, append-IsConsistent,
  find_order-append,
}
use aiquant_trader.Journal.Stale.{
  UniqueOrders, UniqueOrders-append, UniqueOrders-update, keep-IsFound, IsMarkable, All-IsMarkable,
  marked, marked-IsConsistent, IsMarkable-marked, set_unknown-intent_id,
}

pub record IsSound (j : Journal) : Type 0 where
  pub consistent : IsConsistent j
  pub unique : UniqueOrders j.orders

pub insert_event-ok :
    (e : Event) (j j' : Journal)
    → insert_event e j ≡ ok j'
    → record j { events = j.events ++ e ∷ [] } ≡ j'
unfolding insert_event
insert_event-ok e j j' h = ground arith

pub bind-split :
    {X Y : Type 0} {y : Y} (next : X → Result Y) (first : Result X)
    → (first >>= next) ≡ ok y
    → (x : X) × (first ≡ ok x) × (next x ≡ ok y)
bind-split next (err e) h = absurd (never h)
  where
    never : {Y : Type 0} {y : Y} → err e ≡ ok y → ⊥
    never q = cc
bind-split next (ok x) h = (x, refl, h)

-- The state recorded for an order.
pub record Records (j : Journal) (id : ℕ) (s : ExecutionState) : Type 0 where
  pub row : Row
  pub found : find_order id j.orders ≡ some row
  pub state : row.state ≡ s

begin-IsSound : (e : Event) (j j' : Journal) → IsSound j → begin e j ≡ ok j' → IsSound j'
begin-IsSound e j j' s h =
    let (_, new, _, orders, _) = begin-ok e j j' h in
    record {
      consistent = begin-IsConsistent e j j' s.consistent h;
      unique = rw orders (UniqueOrders-append (new_row e) j.orders new s.unique);
    }

append-IsSound : (e : Event) (j j' : Journal) → IsSound j → append e j ≡ ok j' → IsSound j'
append-IsSound e j j' s h =
    let (_, _, _, _, orders, _) = append-ok e j j' h in
    record {
      consistent = append-IsConsistent e j j' s.consistent h;
      unique = rw orders (
          UniqueOrders-update e.intent_id (apply_event e) j.orders (λ r. unfold apply_event in refl)
            s.unique);
    }

pub first_of_pair-bind : (m : Result Journal) (n : ℕ) → first_of_pair (m >>= λ x. ok (x, n)) ≡ m
first_of_pair-bind (ok j) n = refl
first_of_pair-bind (err e) n = refl

-- The loop over the stale rows is a chain of `marked` steps.
module _ (ids : Row → ℕ) (now : ℕ) where
  mark_rows_induction :
      (P : Journal → Type 0)
      → ((j : Journal) (r : Row) → IsMarkable j r → P j → P (marked (make_event ids now r) j))
      → (rs : List Row) (j j' : Journal) → All (IsMarkable j) rs
      → mark_rows (make_event ids now) rs j ≡ ok j'
      → P j
      → P j'
  unfolding mark_rows
  mark_rows_induction P step [] j j' m h p = subst P (ok_eq h) p
    where
      ok_eq : {x y : Journal} → ok x ≡ ok y → x ≡ y
      ok_eq q = cc
  mark_rows_induction P step (r ∷ rs) j j' m h p =
      let e = make_event ids now r in
      let (next, inserted, rest) =
        bind-split (mark_rows (make_event ids now) rs)
          (insert_event e
            (record j { orders = update_order e.intent_id (set_unknown e.event_ts_ns) j.orders }))
          h in
      let same : marked e j ≡ next = insert_event-ok e _ next inserted in
      mark_rows_induction P step rs next j'
        (subst (λ (k : Journal). All (IsMarkable k) rs) same (All-marked e rs m.1)) rest
        (subst P same (step j r m.0 p))
    where
      All-marked :
          (e : Event) (ys : List Row) → All (IsMarkable j) ys → All (IsMarkable (marked e j)) ys
      All-marked e [] q = tt
      All-marked e (y ∷ ys) q = (IsMarkable-marked e j y q.0, All-marked e ys q.1)

  marked-IsSound :
      (j : Journal) (r : Row)
      → IsMarkable j r
      → IsSound j
      → IsSound (marked (make_event ids now r) j)
  marked-IsSound j r m s = record {
    consistent =
        marked-IsConsistent (make_event ids now r) j r (unfold make_event in refl)
          (unfold make_event in refl) m s.consistent;
    unique = UniqueOrders-update _ _ j.orders (set_unknown-intent_id _) s.unique;
  }

  mark_stale_induction :
      (P : Journal → Type 0)
      → ((j : Journal) (r : Row) → IsMarkable j r → P j → P (marked (make_event ids now r) j))
      → (cutoff : ℕ) (j j' : Journal) → IsSound j
      → execute (mark_stale cutoff ids now) j ≡ ok j'
      → P j
      → P j'
  unfolding execute mark_stale_submissions_unknown
  mark_stale_induction P step cutoff j j' s h p =
      let rows = keep (is_stale cutoff) j.orders in
      let markable =
        All-IsMarkable cutoff j rows (keep-IsFound (is_stale cutoff) j.orders s.unique)
          (keep-passes (is_stale cutoff) j.orders) in
      mark_rows_induction P step rows j j' markable
        (sym (first_of_pair-bind (mark_rows (make_event ids now) rows j) (length rows)) ∙ h) p

-- A property of journals that every writing call keeps.
module _ (P : Journal → Type 0)
    (begins : (e : Event) (j j' : Journal) → IsSound j → P j → begin e j ≡ ok j' → P j')
    (appends : (e : Event) (j j' : Journal) → IsSound j → P j → append e j ≡ ok j' → P j')
    (marks : (ids : Row → ℕ) (now : ℕ) (j : Journal) (r : Row)
      → IsMarkable j r
      → P j
      → P (marked (make_event ids now r) j)) where
  execute_induction : (c : Command) (j j' : Journal) → IsSound j → P j → execute c j ≡ ok j' → P j'
  execute_induction (begin_order e) j j' s p h = begins e j j' s p (unfold execute in h)
  execute_induction (append_event e) j j' s p h = appends e j j' s p (unfold execute in h)
  execute_induction (mark_stale cutoff ids now) j j' s p h =
      mark_stale_induction ids now P (marks ids now) cutoff j j' s h p

execute-IsSound : (c : Command) (j j' : Journal) → IsSound j → execute c j ≡ ok j' → IsSound j'
execute-IsSound c j j' s h =
    execute_induction IsSound (λ e k k' u _ q. begin-IsSound e k k' u q)
      (λ e k k' u _ q. append-IsSound e k k' u q) marked-IsSound c j j' s s h

settled-cases :
    (P : Journal → Type 0) (j : Journal) (r : Result Journal)
    → P j
    → ((j' : Journal) → r ≡ ok j' → P j')
    → P (settled j r)
settled-cases P j (ok j') p f = f j' refl
settled-cases P j (err e) p f = p

pub empty-IsSound : IsSound empty
empty-IsSound = record {
  consistent = record { at = λ id. unfold states_of find_order in tt };
  unique = tt;
}

pub run-IsSound : (cs : List Command) (j : Journal) → IsSound j → IsSound (run cs j)
unfolding run
run-IsSound [] j s = s
run-IsSound (c ∷ cs) j s =
    run-IsSound cs (settled j (execute c j))
      (settled-cases IsSound j (execute c j) s (λ j' h. execute-IsSound c j j' s h))

-- After any sequence of calls, failing or not, from an empty journal: the recorded states of each
-- order begin with `pending_submit` and follow the transition table step by step, a state being
-- allowed to repeat; they end in the state of the order's row; and an order with no row has no event.
pub run_history :
    (cs : List Command) (id : ℕ)
    → Agrees (states_of id (run cs empty).events) (find_order id (run cs empty).orders)
run_history cs id = (run-IsSound cs empty empty-IsSound).consistent.at id

module _ (id : ℕ) (s : ExecutionState) (final : terminal s ≡ true) where
  keeps_state :
      (j j' : Journal) (k : ℕ) (f : Row → Row) (y : ExecutionState)
      → ((q : Row) → find_order k j.orders ≡ some q → may_follow q.state y ≡ true)
      → ((q : Row) → (f q).intent_id ≡ q.intent_id)
      → ((q : Row) → (f q).state ≡ y)
      → j'.orders ≡ update_order k f j.orders
      → Records j id s
      → Records j' id s
  keeps_state j j' k f y follows same sets e r = record {
    row = if k == id then f r.row else r.row;
    found = rw (e, find_order-update k id f j.orders same, r.found);
    state = at (k == id) refl;
  }
    where
      at : (b : Bool) → (k == id) ≡ b → (if b then f r.row else r.row).state ≡ s
      at true q =
          let next =
            follows r.row
              (subst (λ n. find_order n j.orders ≡ some r.row) (sym (==→eq k id q)) r.found) in
          sets r.row ∙ terminal-stays s y final (subst (λ z. may_follow z y ≡ true) r.state next)
      at false q = r.state

  begin-Records :
      (e : Event) (j j' : Journal)
      → IsSound j
      → Records j id s
      → begin e j ≡ ok j'
      → Records j' id s
  begin-Records e j j' u r h =
      let (_, _, _, orders, _) = begin-ok e j j' h in
      record { row = r.row; found = rw (orders, find_order-append, r.found); state = r.state }

  append-Records :
      (e : Event) (j j' : Journal)
      → IsSound j
      → Records j id s
      → append e j ≡ ok j'
      → Records j' id s
  append-Records e j j' u r h =
      let (row, found, follows, _, orders, _) = append-ok e j j' h in
      keeps_state j j' e.intent_id (apply_event e) e.state
        (λ q g. subst (λ z. may_follow z.state e.state ≡ true) (row_eq (sym found ∙ g)) follows)
        (λ q. unfold apply_event in refl) (λ q. unfold apply_event in refl) orders r
    where
      row_eq : {x y : Row} → some x ≡ some y → x ≡ y
      row_eq q = cc

  marked-Records :
      (ids : Row → ℕ) (now : ℕ) (j : Journal) (r : Row)
      → IsMarkable j r
      → Records j id s
      → Records (marked (make_event ids now r) j) id s
  unfolding make_event
  marked-Records ids now j r m =
      keeps_state j (marked (make_event ids now r) j) (make_event ids now r).intent_id
        (set_unknown (make_event ids now r).event_ts_ns) unknown
        (λ q g.
          subst (λ z. may_follow z.state unknown ≡ true) (row_eq (sym m.found ∙ g)) m.markable)
        (set_unknown-intent_id _) (λ q. unfold set_unknown in refl) refl
    where
      row_eq : {x y : Row} → some x ≡ some y → x ≡ y
      row_eq q = cc

  -- An order that is filled, canceled, rejected or denied stays so, whatever calls follow, failing or
  -- not.
  pub run_terminal :
      (cs : List Command) (j : Journal) → IsSound j → Records j id s → Records (run cs j) id s
  unfolding run
  run_terminal [] j u r = r
  run_terminal (c ∷ cs) j u r =
      let next = settled j (execute c j) in
      run_terminal cs next
        (settled-cases IsSound j (execute c j) u (λ j' h. execute-IsSound c j j' u h))
        (settled-cases (λ k. Records k id s) j (execute c j) r
          (λ j' h.
            execute_induction (λ k. Records k id s) begin-Records append-Records marked-Records c j
              j' u r h))
