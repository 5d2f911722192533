-- ===== src/Journal/Lifecycle.antt =====
-- The events and the row of an order of execution/journal.py under `begin` and `append`.
use aiquant_trader.Prelude.{
  ℕ, ◌≡◌, refl, sym, ap, ◌∙◌, Bool, true, false, Option, none, some, List, [], ◌∷◌, ◌++◌, arith,
  ◌==◌, if◌then◌else◌, ==→eq,
}
use mathlib.Core.Path.{subst}
use mathlib.Core.List.{append-nil}
use aiquant_trader.Journal.States.{ExecutionState, may_follow, pending_submit, state_code-injective}
use aiquant_trader.Journal.Table.{
  Row, Event, Journal, find_order, apply_event, update_order, new_row, has_event, states_of,
  states_of-append, find_order-update,
}
use aiquant_trader.Journal.Store.{ok, begin, append_to, append}

-- The state that a path of permitted steps leads to.
unfoldable pub follow : ExecutionState → List ExecutionState → Option ExecutionState
follow s [] = some s
follow s (x ∷ xs) = let rest = follow x xs in if may_follow s x then rest else none

-- The recorded states of an order, against its row.
abbrev pub Agrees : List ExecutionState → Option Row → Type 0
Agrees [] none = Unit
Agrees (s ∷ xs) (some row) = (s ≡ pending_submit) × (follow s xs ≡ some row.state)
Agrees _ _ = ⊥

pub record IsConsistent (j : Journal) : Type 0 where
  pub at : (id : ℕ) → Agrees (states_of id j.events) (find_order id j.orders)

follow-append :
    (s x y : ExecutionState) (xs : List ExecutionState)
    → follow s xs ≡ some x
    → may_follow x y ≡ true
    → follow s (xs ++ y ∷ []) ≡ some y
unfolding follow
follow-append s x y [] h g = ground arith
follow-append s x y (z ∷ xs) h g = ground (arith, follow-append z x y xs)

pub Agrees-step :
    (xs : List ExecutionState) (row next : Row)
    → Agrees xs (some row)
    → may_follow row.state next.state ≡ true
    → Agrees (xs ++ next.state ∷ []) (some next)
Agrees-step [] row next h g = absurd h
Agrees-step (s ∷ xs) row next (first, path) g =
    (first, follow-append s row.state next.state xs path g)

pub find_order-append :
    (j : ℕ) (r : Row) (rs : List Row)
    → find_order j (rs ++ r ∷ []) ≡ (elim (find_order j rs) [
      | none ↦ if r.intent_id == j then some r else none
      | some x ↦ some x
    ])
unfolding find_order
find_order-append j r [] = refl
find_order-append j r (x ∷ rs) = ground (arith, find_order-append j r rs)

-- What a successful operation has checked, and the tables that it leaves.
pub begin-ok :
    (e : Event) (j j' : Journal)
    → begin e j ≡ ok j'
    → (e.state ≡ pending_submit)
      × (find_order e.intent_id j.orders ≡ none)
      × (has_event e.event_id j.events ≡ false)
      × (j'.orders ≡ j.orders ++ new_row e ∷ [])
      × (j'.events ≡ j.events ++ e ∷ [])
unfolding begin
begin-ok e j j' h = (
  state_code-injective _ _ (ground arith),
  ground arith,
  ground arith,
  ground arith,
  ground arith,
)

pub append-ok :
    (e : Event) (j j' : Journal)
    → append e j ≡ ok j'
    → (row : Row) × (find_order e.intent_id j.orders ≡ some row)
      × (may_follow row.state e.state ≡ true)
      × (has_event e.event_id j.events ≡ false)
      × (j'.orders ≡ update_order e.intent_id (apply_event e) j.orders)
      × (j'.events ≡ j.events ++ e ∷ [])
unfolding append
append-ok e j j' h = found (find_order e.intent_id j.orders) refl h
  where
    found :
        (o : Option Row)
        → find_order e.intent_id j.orders ≡ o
        → append_to e j o ≡ ok j'
        → (row : Row) × (find_order e.intent_id j.orders ≡ some row)
          × (may_follow row.state e.state ≡ true)
          × (has_event e.event_id j.events ≡ false)
          × (j'.orders ≡ update_order e.intent_id (apply_event e) j.orders)
          × (j'.events ≡ j.events ++ e ∷ [])
    found none q g = absurd (ground arith)
    found (some row) q g = (row, q, ground arith, ground arith, ground arith, ground arith)

row_eq : {r row : Row} → some r ≡ some row → r ≡ row
row_eq h = cc

some≢none : {A : Type 0} {x : A} → some x ≡ none → ⊥
some≢none h = cc

-- The effect of one more event on every order: of a new row under the event's own identifier, ...
Agrees-new :
    (e : Event) (xs : List ExecutionState) (o : Option Row) (b : Bool)
    → e.state ≡ pending_submit
    → (b ≡ true → o ≡ none)
    → Agrees xs o
    → Agrees
        (xs ++ (if b then e.state ∷ [] else []))
        (elim o [ none ↦ if b then some (new_row e) else none | some x ↦ some x ])
unfolding follow
Agrees-new e [] none true first new h = (first, refl)
Agrees-new e [] none false first new h = tt
Agrees-new e [] (some r) b first new h = absurd h
Agrees-new e (s ∷ xs) none b first new h = absurd h
Agrees-new e (s ∷ xs) (some r) true first new h = absurd (some≢none (new refl))
Agrees-new e (s ∷ xs) (some r) false first new h = rw append-nil h

-- ... and of an update of the row.
pub Agrees-update :
    (y : ExecutionState) (f : Row → Row) (xs : List ExecutionState) (o : Option Row) (b : Bool)
    → ((r : Row) → (f r).state ≡ y)
    → (b ≡ true → (row : Row) × (o ≡ some row) × (may_follow row.state y ≡ true))
    → Agrees xs o
    → Agrees
        (xs ++ (if b then y ∷ [] else []))
        (elim o [ none ↦ none | some r ↦ some (if b then f r else r) ])
Agrees-update y f [] none true sets found h = absurd (some≢none (sym (found refl).1))
Agrees-update y f [] none false sets found h = tt
Agrees-update y f [] (some r) b sets found h = absurd h
Agrees-update y f (s ∷ xs) none b sets found h = absurd h
Agrees-update y f (s ∷ xs) (some r) true sets found h =
    let (row, e, follows) = found refl in
    let step : may_follow r.state (f r).state ≡ true =
      ap (λ (q : Row). may_follow q.state (f r).state) (row_eq e)
      ∙ ap (may_follow row.state) (sets r)
      ∙ follows in
    subst (λ z. Agrees ((s ∷ xs) ++ z ∷ []) (some (f r))) (sets r)
      (Agrees-step (s ∷ xs) r (f r) h step)
Agrees-update y f (s ∷ xs) (some r) false sets found h = rw append-nil h

-- Every successful `begin` keeps the journal consistent.
pub begin-IsConsistent :
    (e : Event) (j j' : Journal) → IsConsistent j → begin e j ≡ ok j' → IsConsistent j'
begin-IsConsistent e j j' c h = record { at = at }
  where
    at : (id : ℕ) → Agrees (states_of id j'.events) (find_order id j'.orders)
    at id =
        let (first, new, _, orders, events) = begin-ok e j j' h in
        rw (orders, events, states_of-append, find_order-append)
          (Agrees-new e (states_of id j.events) (find_order id j.orders) (e.intent_id == id) first
            (λ same. rw (==→eq _ _ same) at new) (c.at id))

-- Every successful `append` keeps the journal consistent.
pub append-IsConsistent :
    (e : Event) (j j' : Journal) → IsConsistent j → append e j ≡ ok j' → IsConsistent j'
append-IsConsistent e j j' c h = record { at = at }
  where
    at : (id : ℕ) → Agrees (states_of id j'.events) (find_order id j'.orders)
    at id =
        let (row, found, follows, _, orders, events) = append-ok e j j' h in
        rw
          (
            orders,
            events,
            states_of-append,
            find_order-update e.intent_id id (apply_event e) j.orders
                (λ r. unfold apply_event in refl),
          )
          (Agrees-update e.state (apply_event e) (states_of id j.events) (find_order id j.orders)
            (e.intent_id == id) (λ r. unfold apply_event in refl)
            (λ same.
              (row, subst (λ k. find_order k j.orders ≡ some row) (==→eq _ _ same) found, follows))
            (c.at id))
