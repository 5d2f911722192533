-- ===== src/Paper/History.antt =====
-- The orders of the paper exchange along a sequence of its operations.
use mathlib.Core.Path.{subst}
use aiquant_trader.Prelude.{
  ℕ, ◌≡◌, refl, sym, ap, ◌∙◌, inl, inr, Bool, true, false, none, some, List, [], ◌∷◌, ◌==◌,
  if◌then◌else◌, member, All, arith, Bool-cases, ==→eq,
}
use aiquant_trader.Risk.Domain.{OrderIntent}
use aiquant_trader.Paper.Orders.{
  PaperOrder, ExecutionScenario, ok, put, find_paper_order, open_orders,
}
use aiquant_trader.Paper.Exchange.{Exchange, new_order, submit, request_cancel_all}
use aiquant_trader.Paper.Loops.{Frame, advance, activate_pending}
use aiquant_trader.Paper.Snapshot.{Distinct, find-put, Distinct-put}
use aiquant_trader.Paper.Evolution.{
  Follows, Evolves, Evolves-refl, Evolves-trans, Stores, done, stored, Stores-Distinct,
  Stores-Evolves,
}
use aiquant_trader.Paper.Trades.{elapse-Stores, advance-Stores, activate_pending-Stores}
use aiquant_trader.Paper.Life.{
  request_cancel-Stores, cancel_each-Stores, Operation, submission, cancellation,
  cancellation_of_all, time_passing, market_frame, late_activation, with_orders, perform, play,
}
use aiquant_trader.Paper.Fills.{bind-inverse}
use aiquant_trader.Paper.Turns.{ok_injective}

-- The identifier of an order is the digest of its intent's, and the intent was submitted.
abbrev IsKnown : (ℕ → ℕ) → List ℕ → PaperOrder → Type 0
IsKnown order_id ids o =
    (o.paper_order_id ≡ order_id o.intent.intent_id) × (member o.intent.intent_id ids ≡ true)

pub record IsSound (order_id : ℕ → ℕ) (x : Exchange) : Type 0 where
  pub apart : Distinct x.orders
  pub known : All (IsKnown order_id x.intent_ids) x.orders

All-put :
    (P : PaperOrder → Type 0) (u : PaperOrder) (os : List PaperOrder)
    → P u
    → All P os
    → All P (put u os)
unfolding put
All-put P u [] a h = (a, tt)
All-put P u (x ∷ xs) a (b, h) = elim (Bool-cases (x.paper_order_id == u.paper_order_id)) [
  | inl same ↦ rw same (a, h)
  | inr other ↦ rw other (b, All-put P u xs a h)
]

All-found :
    (P : PaperOrder → Type 0) (id : ℕ) (o : PaperOrder) (os : List PaperOrder)
    → find_paper_order id os ≡ some o
    → All P os
    → P o
unfolding find_paper_order
All-found P id o [] h a = absurd (never h)
  where
    never : none ≡ some o → ⊥
    never q = cc
All-found P id o (x ∷ xs) h (a, rest) = elim (Bool-cases (x.paper_order_id == id)) [
  | inl hit ↦ subst P (some_injective (rw hit at h)) a
  | inr miss ↦ All-found P id o xs (rw miss at h) rest
]
  where
    some_injective : some x ≡ some o → x ≡ o
    some_injective q = cc

Follows-IsKnown :
    (order_id : ℕ → ℕ) (ids : List ℕ) (o u : PaperOrder)
    → Follows o u
    → IsKnown order_id ids o
    → IsKnown order_id ids u
Follows-IsKnown order_id ids o u f (id, submitted) =
    (rw f.intent (f.id ∙ id), rw f.intent submitted)

Stores-IsKnown :
    (order_id : ℕ → ℕ) (ids : List ℕ) {os ts : List PaperOrder}
    → Stores os ts
    → All (IsKnown order_id ids) os
    → All (IsKnown order_id ids) ts
Stores-IsKnown order_id ids done h = h
Stores-IsKnown order_id ids (stored {ms} s o u found still f) h =
    let before = Stores-IsKnown order_id ids s h in
    All-put (IsKnown order_id ids) u ms
      (Follows-IsKnown order_id ids o u f
        (All-found (IsKnown order_id ids) o.paper_order_id o ms found before))
      before

-- The digests of different identifiers differ.
abbrev pub IsInjective : (ℕ → ℕ) → Type 0
IsInjective f = (a b : ℕ) → f a ≡ f b → a ≡ b

unsubmitted :
    (order_id : ℕ → ℕ) (intent : ℕ) (ids : List ℕ) (os : List PaperOrder)
    → IsInjective order_id
    → member intent ids ≡ false
    → All (IsKnown order_id ids) os
    → find_paper_order (order_id intent) os ≡ none
unfolding find_paper_order
unsubmitted order_id intent ids [] inj new h = refl
unsubmitted order_id intent ids (x ∷ xs) inj new ((id, submitted), h) =
    elim (Bool-cases (x.paper_order_id == order_id intent)) [
      | inl same ↦
          let equal : x.intent.intent_id ≡ intent =
            inj x.intent.intent_id intent (sym id ∙ ==→eq _ _ same) in
          absurd (clash (sym submitted ∙ ap (λ k. member k ids) equal ∙ new))
      | inr other ↦ rw other (unsubmitted order_id intent ids xs inj new h)
    ]
  where
    clash : true ≡ false → ⊥
    clash q = cc

submit-ok :
    (sc : ExecutionScenario) (order_id : ℕ → ℕ) (i : OrderIntent) (accepted : ℕ) (x y : Exchange)
    → submit sc order_id i accepted x ≡ ok y
    → (member i.intent_id x.intent_ids ≡ false)
      × (y.orders ≡ put (new_order sc (order_id i.intent_id) i accepted) x.orders)
      × (y.intent_ids ≡ i.intent_id ∷ x.intent_ids)
unfolding submit
submit-ok sc order_id i accepted x y h = (ground arith, ground arith, ground arith)

-- What becomes of the orders between two exchanges.
pub record Succeeds (x y : Exchange) : Type 0 where
  pub at :
      (id : ℕ) (o : PaperOrder)
      → find_paper_order id x.orders ≡ some o
      → (u : PaperOrder) × (find_paper_order id y.orders ≡ some u) × Evolves o u

module _ (sc : ExecutionScenario) (order_id : ℕ → ℕ) (inj : IsInjective order_id) where
  submit-IsSound :
      (i : OrderIntent) (accepted : ℕ) (x y : Exchange)
      → IsSound order_id x
      → submit sc order_id i accepted x ≡ ok y
      → IsSound order_id y
  submit-IsSound i accepted x y s h =
      let (new, orders, ids) = submit-ok sc order_id i accepted x y h in
      record {
        apart = rw orders (Distinct-put _ x.orders s.apart);
        known =
            rw (orders, ids)
              (All-put (IsKnown order_id (i.intent_id ∷ x.intent_ids))
                (new_order sc (order_id i.intent_id) i accepted) x.orders
                (unfold new_order in (refl, ground arith)) (weaken x.orders s.known));
      }
    where
      weaken :
          (os : List PaperOrder)
          → All (IsKnown order_id x.intent_ids) os
          → All (IsKnown order_id (i.intent_id ∷ x.intent_ids)) os
      weaken [] h = tt
      weaken (o ∷ os) ((id, m), h) = ((id, ground (arith, m)), weaken os h)

  submit-Succeeds :
      (i : OrderIntent) (accepted : ℕ) (x y : Exchange)
      → IsSound order_id x
      → submit sc order_id i accepted x ≡ ok y
      → Succeeds x y
  unfolding new_order
  submit-Succeeds i accepted x y s h = record { at = at }
    where
      at :
          (id : ℕ) (o : PaperOrder)
          → find_paper_order id x.orders ≡ some o
          → (u : PaperOrder) × (find_paper_order id y.orders ≡ some u) × Evolves o u
      at id o found =
          let (new, orders, ids) = submit-ok sc order_id i accepted x y h in
          let absent = unsubmitted order_id i.intent_id x.intent_ids x.orders inj new s.known in
          (
            o,
            rw (orders, find-put id (new_order sc (order_id i.intent_id) i accepted) x.orders)
                (apart_from (order_id i.intent_id == id) refl absent found),
            Evolves-refl o,
          )
        where
          apart_from :
              (b : Bool)
              → (order_id i.intent_id == id) ≡ b
              → find_paper_order (order_id i.intent_id) x.orders ≡ none
              → find_paper_order id x.orders ≡ some o
              → (if b
                  then some (new_order sc (order_id i.intent_id) i accepted)
                  else find_paper_order id x.orders)
                ≡ some o
          apart_from true e absent f = absurd (
              never (
                sym absent
                ∙ subst (λ k. find_paper_order k x.orders ≡ some o) (sym (==→eq _ _ e)) f))
            where
              never : none ≡ some o → ⊥
              never q = cc
          apart_from false e absent f = f

  Stores-IsSound :
      (x : Exchange) (os : List PaperOrder)
      → IsSound order_id x
      → Stores x.orders os
      → IsSound order_id (with_orders x os)
  Stores-IsSound x os s t = record {
    apart = Stores-Distinct t s.apart;
    known = Stores-IsKnown order_id x.intent_ids t s.known;
  }

  Stores-Succeeds :
      (x : Exchange) (os : List PaperOrder) → Stores x.orders os → Succeeds x (with_orders x os)
  Stores-Succeeds x os t = record { at = λ id o found. Stores-Evolves id o t found }

  -- Every operation but a submission only stores later versions of open orders.
  perform-induction :
      (P : Exchange → Type 0) (c : Operation) (x y : Exchange)
      → IsSound order_id x
      → ((i : OrderIntent) (accepted : ℕ) → submit sc order_id i accepted x ≡ ok y → P y)
      → ((os : List PaperOrder) → Stores x.orders os → P (with_orders x os))
      → perform sc order_id c x ≡ ok y
      → P y
  unfolding perform
  perform-induction P (submission i accepted) x y s new old h = new i accepted h
  perform-induction P (cancellation intent requested) x y s new old h =
      subst P (ok_injective h) (old _ (request_cancel-Stores sc intent requested x.orders s.apart))
  perform-induction P (cancellation_of_all requested) x y s new old h = subst P (ok_injective h) (
      old _ (
        unfold request_cancel_all in
        cancel_each-Stores sc requested (open_orders x.orders) x.orders s.apart))
  perform-induction P (time_passing now) x y s new old h =
      subst P (ok_injective h) (old _ (elapse-Stores now x.orders s.apart))
  perform-induction P (market_frame m) x y s new old h =
      let (f, made, last) =
        bind-inverse (λ (f : Frame). ok (with_orders x f.orders)) (advance sc m x.orders) h in
      subst P (ok_injective last) (old f.orders (advance-Stores sc m x.orders f s.apart made))
  perform-induction P (late_activation now m) x y s new old h =
      let (f, made, last) =
        bind-inverse (λ (f : Frame). ok (with_orders x f.orders))
          (activate_pending sc now m x.orders) h in
      subst P (ok_injective last)
        (old f.orders (activate_pending-Stores sc now m x.orders f s.apart made))

  perform-IsSound :
      (c : Operation) (x y : Exchange)
      → IsSound order_id x
      → perform sc order_id c x ≡ ok y
      → IsSound order_id y
  perform-IsSound c x y s h =
      perform-induction (IsSound order_id) c x y s
        (λ i accepted q. submit-IsSound i accepted x y s q) (λ os t. Stores-IsSound x os s t) h

  perform-Succeeds :
      (c : Operation) (x y : Exchange)
      → IsSound order_id x
      → perform sc order_id c x ≡ ok y
      → Succeeds x y
  perform-Succeeds c x y s h =
      perform-induction (Succeeds x) c x y s (λ i accepted q. submit-Succeeds i accepted x y s q)
        (λ os t. Stores-Succeeds x os t) h

  -- Along any sequence of operations that do not raise, if different identifiers have different
  -- digests, no order is lost or given another intent; if its fills were within its quantity, and it
  -- was filled only with all of it, both stay so, and the fills only grow; and an order that was
  -- filled, canceled or rejected does not change.
  pub play-Succeeds :
      (cs : List Operation) (x y : Exchange)
      → IsSound order_id x
      → play sc order_id cs x ≡ ok y
      → Succeeds x y
  unfolding play
  play-Succeeds [] x y s h =
      subst (Succeeds x) (ok_injective h) (record { at = λ id o found. (o, found, Evolves-refl o) })
  play-Succeeds (c ∷ cs) x y s h =
      let (z, first, rest) = bind-inverse (play sc order_id cs) (perform sc order_id c x) h in
      let p = perform-Succeeds c x z s first in
      let q = play-Succeeds cs z y (perform-IsSound c x z s first) rest in
      record { at = λ id o found. chain p q id o found }
    where
      chain :
          {z : Exchange}
          → Succeeds x z
          → Succeeds z y
          → (id : ℕ) (o : PaperOrder) → find_paper_order id x.orders ≡ some o
          → (u : PaperOrder) × (find_paper_order id y.orders ≡ some u) × Evolves o u
      chain p q id o found =
          let (u, fu, eu) = p.at id o found in
          let (w, fw, ew) = q.at id u fu in (w, fw, Evolves-trans o u w eu ew)
