-- ===== src/Paper/Snapshot.antt =====
-- `_orders` as a dictionary, and the snapshots of it that the loops of paper/simulator.py run over.
use mathlib.Core.Path.{subst}
use aiquant_trader.Prelude.{
  ℕ, ◌≡◌, refl, inl, inr, Bool, false, not, ◌&&◌, ◌||◌, some, List, [], ◌∷◌, ltb, leb, ◌==◌,
  if◌then◌else◌, keep, All, All-keep, arith, Bool-cases, ==→eq,
}
use aiquant_trader.Paper.Orders.{
  PaperOrder, put, find_paper_order, insert_by, sort_by, open_orders, terminal_paper_state,
}

-- No two orders have the same identifier.
abbrev pub Distinct : List PaperOrder → Type 0
Distinct [] = Unit
Distinct (o ∷ os) =
    All (λ (x : PaperOrder). (x.paper_order_id == o.paper_order_id) ≡ false) os × Distinct os

module _ (P : PaperOrder → Type 0) where
  All-insert_by :
      (key : PaperOrder → ℕ) (o : PaperOrder) (os : List PaperOrder)
      → P o
      → All P os
      → All P (insert_by key o os)
  unfolding insert_by
  All-insert_by key o [] a h = (a, tt)
  All-insert_by key o (x ∷ xs) a (b, h) =
      elim (Bool-cases
        (ltb (key o) (key x) || (key o == key x && leb o.paper_order_id x.paper_order_id))) [
          | inl q ↦ rw q (a, (b, h))
          | inr q ↦ rw q (b, All-insert_by key o xs a h)
        ]

  pub All-sort_by :
      (key : PaperOrder → ℕ) (os : List PaperOrder) → All P os → All P (sort_by key os)
  unfolding sort_by
  All-sort_by key [] h = tt
  All-sort_by key (o ∷ os) (a, h) = All-insert_by key o (sort_by key os) a (All-sort_by key os h)

Distinct-keep : (p : PaperOrder → Bool) (os : List PaperOrder) → Distinct os → Distinct (keep p os)
Distinct-keep p [] d = tt
Distinct-keep p (o ∷ os) (new, d) = elim (Bool-cases (p o)) [
  | inl q ↦ rw q (
    All-keep (λ (x : PaperOrder). (x.paper_order_id == o.paper_order_id) ≡ false) p os new,
    Distinct-keep p os d,
  )
  | inr q ↦ rw q (Distinct-keep p os d)
]

Distinct-insert_by :
    (key : PaperOrder → ℕ) (o : PaperOrder) (os : List PaperOrder)
    → All (λ (x : PaperOrder). (x.paper_order_id == o.paper_order_id) ≡ false) os
    → Distinct os
    → Distinct (insert_by key o os)
unfolding insert_by
Distinct-insert_by key o [] new d = (tt, tt)
Distinct-insert_by key o (x ∷ xs) (other, new) (apart, d) =
    elim (Bool-cases
      (ltb (key o) (key x) || (key o == key x && leb o.paper_order_id x.paper_order_id))) [
        | inl q ↦ rw q ((other, new), (apart, d))
        | inr q ↦ rw q (
          All-insert_by (λ (y : PaperOrder). (y.paper_order_id == x.paper_order_id) ≡ false) key o
              xs (ground (arith, other)) apart,
          Distinct-insert_by key o xs new d,
        )
      ]

Distinct-sort_by :
    (key : PaperOrder → ℕ) (os : List PaperOrder) → Distinct os → Distinct (sort_by key os)
unfolding sort_by
Distinct-sort_by key [] d = tt
Distinct-sort_by key (o ∷ os) (new, d) =
    Distinct-insert_by key o (sort_by key os)
      (All-sort_by (λ (x : PaperOrder). (x.paper_order_id == o.paper_order_id) ≡ false) key os new)
      (Distinct-sort_by key os d)

-- The element is the one that its identifier finds.
abbrev pub IsFound : List PaperOrder → PaperOrder → Type 0
IsFound os o = find_paper_order o.paper_order_id os ≡ some o

pub find-put :
    (id : ℕ) (u : PaperOrder) (os : List PaperOrder)
    → find_paper_order id (put u os)
      ≡ (if u.paper_order_id == id then some u else find_paper_order id os)
unfolding find_paper_order put
find-put id u [] = refl
find-put id u (x ∷ xs) = ground (arith, find-put id u xs)

Distinct-IsFound : (os : List PaperOrder) → Distinct os → All (IsFound os) os
unfolding find_paper_order
Distinct-IsFound [] d = tt
Distinct-IsFound (o ∷ os) (new, d) = (ground arith, behind os os new (Distinct-IsFound os d))
  where
    behind :
        (xs rest : List PaperOrder)
        → All (λ (x : PaperOrder). (x.paper_order_id == o.paper_order_id) ≡ false) rest
        → All (IsFound xs) rest
        → All
            (λ (x : PaperOrder).
              (if o.paper_order_id == x.paper_order_id
                then some o
                else find_paper_order x.paper_order_id xs)
              ≡ some x)
            rest
    behind xs [] n f = tt
    behind xs (x ∷ rest) (m, n) (g, f) = (ground (arith, m, g), behind xs rest n f)

pub Distinct-put : (u : PaperOrder) (os : List PaperOrder) → Distinct os → Distinct (put u os)
unfolding put
Distinct-put u [] d = (tt, tt)
Distinct-put u (x ∷ xs) (new, d) = elim (Bool-cases (x.paper_order_id == u.paper_order_id)) [
  | inl same ↦ rw same (
    subst (λ k. All (λ (y : PaperOrder). (y.paper_order_id == k) ≡ false) xs) (==→eq _ _ same) new,
    d,
  )
  | inr other ↦ rw other (
    All-put (λ (y : PaperOrder). (y.paper_order_id == x.paper_order_id) ≡ false) u xs (ground arith)
        new,
    Distinct-put u xs d,
  )
]
  where
    All-put :
        (P : PaperOrder → Type 0) (v : PaperOrder) (ys : List PaperOrder)
        → P v
        → All P ys
        → All P (put v ys)
    All-put P v [] a h = (a, tt)
    All-put P v (y ∷ ys) a (b, h) = elim (Bool-cases (y.paper_order_id == v.paper_order_id)) [
      | inl same ↦ rw same (a, h)
      | inr other ↦ rw other (b, All-put P v ys a h)
    ]

-- A snapshot: its orders are apart, still those of the dictionary, and open.
pub record IsSnapshot (os rs : List PaperOrder) : Type 0 where
  pub apart : Distinct rs
  pub found : All (IsFound os) rs
  pub open_still : All (λ (o : PaperOrder). terminal_paper_state o.state ≡ false) rs

keep-passes_not :
    (os : List PaperOrder)
    → All
        (λ (o : PaperOrder). terminal_paper_state o.state ≡ false)
        (keep (λ (o : PaperOrder). not (terminal_paper_state o.state)) os)
keep-passes_not [] = tt
keep-passes_not (o ∷ os) = elim (Bool-cases (terminal_paper_state o.state)) [
  | inl q ↦ rw q (keep-passes_not os)
  | inr q ↦ rw q (q, keep-passes_not os)
]

pub open_orders-IsSnapshot : (os : List PaperOrder) → Distinct os → IsSnapshot os (open_orders os)
unfolding open_orders
open_orders-IsSnapshot os d = record {
  apart = Distinct-sort_by (λ o. o.accepted_ts_ns) _ (Distinct-keep _ os d);
  found =
      All-sort_by (IsFound os) (λ o. o.accepted_ts_ns) _
        (All-keep (IsFound os) _ os (Distinct-IsFound os d));
  open_still =
      All-sort_by (λ (o : PaperOrder). terminal_paper_state o.state ≡ false) (λ o. o.accepted_ts_ns)
        _ (keep-passes_not os);
}

pub selected-IsSnapshot :
    (key : PaperOrder → ℕ) (p : PaperOrder → Bool) (os rs : List PaperOrder)
    → IsSnapshot os rs
    → IsSnapshot os (sort_by key (keep p rs))
selected-IsSnapshot key p os rs s = record {
  apart = Distinct-sort_by key _ (Distinct-keep p rs s.apart);
  found = All-sort_by (IsFound os) key _ (All-keep (IsFound os) p rs s.found);
  open_still =
      All-sort_by (λ (o : PaperOrder). terminal_paper_state o.state ≡ false) key _
        (All-keep (λ (o : PaperOrder). terminal_paper_state o.state ≡ false) p rs s.open_still);
}

-- Storing the head of a snapshot leaves a snapshot of the rest.
pub IsSnapshot-put :
    (o u : PaperOrder) (rs os : List PaperOrder)
    → u.paper_order_id ≡ o.paper_order_id
    → IsSnapshot os (o ∷ rs)
    → IsSnapshot (put u os) rs
IsSnapshot-put o u rs os same s = record {
  apart = s.apart.1;
  found = kept rs s.apart.0 s.found.1;
  open_still = s.open_still.1;
}
  where
    kept :
        (ys : List PaperOrder)
        → All (λ (x : PaperOrder). (x.paper_order_id == o.paper_order_id) ≡ false) ys
        → All (IsFound os) ys
        → All (IsFound (put u os)) ys
    kept [] n f = tt
    kept (y ∷ ys) (n, ns) (f, fs) =
        (rw (find-put y.paper_order_id u os, same) (ground (arith, n, f)), kept ys ns fs)
