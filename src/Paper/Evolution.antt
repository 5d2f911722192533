-- ===== src/Paper/Evolution.antt =====
-- What becomes of one order of the paper exchange, and what may be stored for it.
use mathlib.Core.Path.{subst}
use aiquant_trader.Prelude.{
  ℕ, ◌≤◌, ◌≡◌, refl, sym, ap, ◌∙◌, Bool, true, false, some, List, ◌∷◌, ◌==◌, arith, ==→eq,
}
use aiquant_trader.Paper.Orders.{
  PaperOrder, is_filled, quantity, terminal_paper_state, put, find_paper_order,
}
use aiquant_trader.Paper.Snapshot.{
  Distinct, IsFound, IsSnapshot, find-put, Distinct-put, IsSnapshot-put,
}

-- Fills never exceed the quantity, and a filled order has all of it.
pub record IsBounded (o : PaperOrder) : Type 0 where
  pub bound : o.filled_quantity_base ≤ quantity o.intent
  pub whole : is_filled o.state ≡ true → o.filled_quantity_base ≡ quantity o.intent

-- A later version of an open order.
pub record Follows (o u : PaperOrder) : Type 0 where
  pub id : u.paper_order_id ≡ o.paper_order_id
  pub intent : u.intent ≡ o.intent
  pub grows : IsBounded o → o.filled_quantity_base ≤ u.filled_quantity_base
  pub bounded : IsBounded o → IsBounded u

-- The version of an order after any number of operations.
pub record Evolves (o u : PaperOrder) : Type 0 where
  pub intent : u.intent ≡ o.intent
  pub grows : IsBounded o → o.filled_quantity_base ≤ u.filled_quantity_base
  pub bounded : IsBounded o → IsBounded u
  pub final : terminal_paper_state o.state ≡ true → u ≡ o

pub Evolves-refl : (o : PaperOrder) → Evolves o o
Evolves-refl o = record {
  intent = refl;
  grows = λ b. omega arith;
  bounded = λ b. b;
  final = λ h. refl;
}

pub Evolves-trans : (o u w : PaperOrder) → Evolves o u → Evolves u w → Evolves o w
Evolves-trans o u w e f = record {
  intent = f.intent ∙ e.intent;
  grows = λ b. omega (arith, e.grows b, f.grows (e.bounded b));
  bounded = λ b. f.bounded (e.bounded b);
  final = λ h.
      f.final (ap (λ (x : PaperOrder). terminal_paper_state x.state) (e.final h) ∙ h) ∙ e.final h;
}

Evolves-of : (o u : PaperOrder) → terminal_paper_state o.state ≡ false → Follows o u → Evolves o u
Evolves-of o u still f = record {
  intent = f.intent;
  grows = f.grows;
  bounded = f.bounded;
  final = λ h. absurd (clash (sym h ∙ still));
}
  where
    clash : true ≡ false → ⊥
    clash q = cc

-- Any number of stores, each of a later version of an open order.
pub data Stores (os : List PaperOrder) : List PaperOrder → Type 0 where
  done : Stores os os
  stored :
      {ms : List PaperOrder}
      → Stores os ms
      → (o u : PaperOrder) → IsFound ms o
      → terminal_paper_state o.state ≡ false
      → Follows o u
      → Stores os (put u ms)

pub Stores-trans : {os ms ts : List PaperOrder} → Stores os ms → Stores ms ts → Stores os ts
Stores-trans s done = s
Stores-trans s (stored t o u f c e) = stored (Stores-trans s t) o u f c e

pub Stores-Distinct : {os ts : List PaperOrder} → Stores os ts → Distinct os → Distinct ts
Stores-Distinct done d = d
Stores-Distinct (stored {ms} s o u f c e) d = Distinct-put u ms (Stores-Distinct s d)

some_injective : {x y : PaperOrder} → some x ≡ some y → x ≡ y
some_injective q = cc

-- Every order is still found, in a later version.
pub Stores-Evolves :
    {os ts : List PaperOrder} (id : ℕ) (x : PaperOrder)
    → Stores os ts
    → find_paper_order id os ≡ some x
    → (y : PaperOrder) × (find_paper_order id ts ≡ some y) × Evolves x y
Stores-Evolves id x done found = (x, found, Evolves-refl x)
Stores-Evolves id x (stored {ms} s o u f still e) found =
    let (y, fy, ey) = Stores-Evolves id x s found in at (u.paper_order_id == id) refl y fy ey
  where
    at :
        (b : Bool)
        → (u.paper_order_id == id) ≡ b
        → (y : PaperOrder) → find_paper_order id ms ≡ some y
        → Evolves x y
        → (z : PaperOrder) × (find_paper_order id (put u ms) ≡ some z) × Evolves x z
    at true q y fy ey =
        let same : o ≡ y =
          some_injective
            (sym f ∙ subst (λ k. find_paper_order k ms ≡ some y) (sym (==→eq _ _ q) ∙ e.id) fy) in
        (
          u,
          rw (find-put id u ms, q),
          Evolves-trans x y u ey (subst (λ z. Evolves z u) same (Evolves-of o u still e)),
        )
    at false q y fy ey = (y, rw (find-put id u ms, q) fy, ey)

-- Storing the head of a snapshot.
pub store_head :
    (o u : PaperOrder) (rs os ts : List PaperOrder)
    → IsSnapshot os (o ∷ rs)
    → Follows o u
    → (IsSnapshot (put u os) rs → Stores (put u os) ts)
    → Stores os ts
store_head o u rs os ts s e next =
    Stores-trans (stored done o u s.found.0 s.open_still.0 e)
      (next (IsSnapshot-put o u rs os e.id s))

pub skip_head :
    (o : PaperOrder) (rs os : List PaperOrder) → IsSnapshot os (o ∷ rs) → IsSnapshot os rs
skip_head o rs os s = record { apart = s.apart.1; found = s.found.1; open_still = s.open_still.1 }
