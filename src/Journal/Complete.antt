-- ===== src/Journal/Complete.antt =====
-- `mark_stale_submissions_unknown` of execution/journal.py and the orders that it marks.
use mathlib.Core.Path.{subst}
use aiquant_trader.Prelude.{
  ℕ, ◌≡◌, refl, sym, ◌∙◌, inl, inr, true, false, Option, none, some, List, [], ◌∷◌, arith, ◌==◌,
  if◌then◌else◌, map, member, keep, length, Bool-cases,
}
use aiquant_trader.Journal.Table.{Row, Journal, find_order, set_unknown, update_order}
use aiquant_trader.Journal.Store.{
  Result, ok, insert_event, is_stale, mark_rows, mark_stale_submissions_unknown, make_event,
}
use aiquant_trader.Journal.Stale.{marked, find_order-marked}
use aiquant_trader.Journal.History.{insert_event-ok, bind-split}

not_stale : (cutoff now : ℕ) (q : Row) → is_stale cutoff (set_unknown now q) ≡ true → ⊥
unfolding is_stale set_unknown
not_stale cutoff now q h = cc

row_eq : {x y : Row} → some x ≡ some y → x ≡ y
row_eq q = cc

member-other :
    (id x : ℕ) (ks : List ℕ) → (x == id) ≡ false → member id (x ∷ ks) ≡ true → member id ks ≡ true
member-other id x ks h g = ground arith

member-here : (id x : ℕ) (ks : List ℕ) → (x == id) ≡ true → member id (x ∷ ks) ≡ true
member-here id x ks h = ground arith

member-there : (id x : ℕ) (ks : List ℕ) → member id ks ≡ true → member id (x ∷ ks) ≡ true
member-there id x ks h = ground arith

-- The stale orders of `j` are among the identifiers.
abbrev pub StaleAmong : ℕ → Journal → List ℕ → Type 0
StaleAmong cutoff j ks =
    (id : ℕ) (row : Row)
    → find_order id j.orders ≡ some row
    → is_stale cutoff row ≡ true
    → member id ks ≡ true

mark_rows-fresh :
    (ids : Row → ℕ) (now cutoff : ℕ) (rs : List Row) (j j' : Journal)
    → StaleAmong cutoff j (map (λ (r : Row). r.intent_id) rs)
    → mark_rows (make_event ids now) rs j ≡ ok j'
    → StaleAmong cutoff j' []
unfolding mark_rows make_event
mark_rows-fresh ids now cutoff [] j j' among h =
    subst (λ (k : Journal). StaleAmong cutoff k []) (ok_eq h) among
  where
    ok_eq : {x y : Journal} → ok x ≡ ok y → x ≡ y
    ok_eq q = cc
mark_rows-fresh ids now cutoff (r ∷ rs) j j' among h =
    let e = make_event ids now r in
    let (next, inserted, rest) =
      bind-split (mark_rows (make_event ids now) rs)
        (insert_event e
          (record j { orders = update_order e.intent_id (set_unknown e.event_ts_ns) j.orders }))
        h in
    mark_rows-fresh ids now cutoff rs next j'
      (subst (λ (k : Journal). StaleAmong cutoff k (map (λ (q : Row). q.intent_id) rs))
        (insert_event-ok e _ next inserted) fewer)
      rest
  where
    fewer : StaleAmong cutoff (marked (make_event ids now r) j) (map (λ (q : Row). q.intent_id) rs)
    fewer id row found stale =
        from (find_order id j.orders) refl
          (sym (find_order-marked (make_event ids now r) j id) ∙ found)
      where
        from :
            (o : Option Row)
            → find_order id j.orders ≡ o
            → (elim o [
              | none ↦ none
              | some q ↦ some (if r.intent_id == id then set_unknown now q else q)
            ])
              ≡ some row
            → member id (map (λ (q : Row). q.intent_id) rs) ≡ true
        from none was g = absurd (never g)
          where
            never : {x : Row} → none ≡ some x → ⊥
            never q = cc
        from (some q) was g = elim (Bool-cases (r.intent_id == id)) [
          | inl same ↦ absurd (
              not_stale cutoff now q
                (subst (λ z. is_stale cutoff z ≡ true) (sym (row_eq (rw same at g))) stale))
          | inr other ↦ member-other id r.intent_id _ other (
              among id q was
                (subst (λ z. is_stale cutoff z ≡ true) (sym (row_eq (rw other at g))) stale))
        ]

-- The rows that are selected hold every stale order.
keep-StaleAmong :
    (cutoff id : ℕ) (row : Row) (rs : List Row)
    → find_order id rs ≡ some row
    → is_stale cutoff row ≡ true
    → member id (map (λ (r : Row). r.intent_id) (keep (is_stale cutoff) rs)) ≡ true
unfolding find_order
keep-StaleAmong cutoff id row [] h s = absurd (never h)
  where
    never : {x : Row} → none ≡ some x → ⊥
    never q = cc
keep-StaleAmong cutoff id row (x ∷ rs) h s = elim (Bool-cases (x.intent_id == id)) [
  | inl same ↦
      let stale : is_stale cutoff x ≡ true =
        subst (λ z. is_stale cutoff z ≡ true) (sym (row_eq (rw same at h))) s in
      rw stale (member-here id x.intent_id _ same)
  | inr other ↦
      let rest = keep-StaleAmong cutoff id row rs (rw other at h) s in
      elim (Bool-cases (is_stale cutoff x)) [
        | inl stale ↦ rw stale (member-there id x.intent_id _ rest)
        | inr fresh ↦ rw fresh rest
      ]
]

-- A successful marking leaves no stale order: no row of the new journal is in an open submission
-- state with its last update at the cutoff or before. It reports the number of rows that were stale.
pub mark_stale_complete :
    (cutoff : ℕ) (ids : Row → ℕ) (now : ℕ) (j j' : Journal) (n : ℕ)
    → mark_stale_submissions_unknown cutoff (make_event ids now) j ≡ ok (j', n)
    → (n ≡ length (keep (is_stale cutoff) j.orders))
      × ((id : ℕ) (row : Row) → find_order id j'.orders ≡ some row → is_stale cutoff row ≡ false)
unfolding mark_stale_submissions_unknown
mark_stale_complete cutoff ids now j j' n h =
    let rows = keep (is_stale cutoff) j.orders in
    let (m, marks, e) =
      bind-split (λ (x : Journal). ok (x, length rows)) (mark_rows (make_event ids now) rows j) h in
    let among =
      mark_rows-fresh ids now cutoff rows j m
        (λ id row f s. keep-StaleAmong cutoff id row j.orders f s) marks in
    (
      sym (pair_eq e).1,
      λ id row found.
          fresh m id row among
            (subst (λ (k : Journal). find_order id k.orders ≡ some row) (sym (pair_eq e).0) found),
    )
  where
    pair_eq :
        {x y : Journal} {a b : ℕ}
        → ◌≡◌ {A = Result (Journal × ℕ)} (ok (x, a)) (ok (y, b))
        → (x ≡ y) × (a ≡ b)
    pair_eq q = (cc, cc)

    fresh :
        (k : Journal) (id : ℕ) (row : Row)
        → StaleAmong cutoff k []
        → find_order id k.orders ≡ some row
        → is_stale cutoff row ≡ false
    fresh k id row among found = elim (Bool-cases (is_stale cutoff row)) [
      | inl stale ↦ absurd (never (among id row found stale))
      | inr calm ↦ calm
    ]
      where
        never : false ≡ true → ⊥
        never q = cc
