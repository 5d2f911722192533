-- ===== src/Journal/Stale.antt =====
-- `mark_stale_submissions_unknown` over a journal whose orders are unique, and the life of a journal.
use mathlib.Core.Path.{subst}
use aiquant_trader.Prelude.{
  ℕ, ◌≡◌, refl, sym, ◌∙◌, inl, inr, Bool, true, false, none, some, List, [], ◌∷◌, ◌++◌, arith, ◌==◌,
  if◌then◌else◌, keep, All, ==→eq, ==_refl, Bool-cases,
}
use aiquant_trader.Journal.States.{unknown, may_follow}
use aiquant_trader.Journal.Table.{
  Row, Event, Journal, find_order, set_unknown, update_order, states_of, states_of-append,
  find_order-update,
}
use aiquant_trader.Journal.Store.{is_stale}
use aiquant_trader.Journal.Lifecycle.{IsConsistent, Agrees, find_order-append, Agrees-update}

none≢some : {A : Type 0} {x : A} → none ≡ some x → ⊥
none≢some h = cc

-- No two rows have the same intent.
abbrev pub UniqueOrders : List Row → Type 0
UniqueOrders [] = Unit
UniqueOrders (r ∷ rs) = (find_order r.intent_id rs ≡ none) × UniqueOrders rs

pub UniqueOrders-append :
    (r : Row) (rs : List Row)
    → find_order r.intent_id rs ≡ none
    → UniqueOrders rs
    → UniqueOrders (rs ++ r ∷ [])
unfolding find_order
UniqueOrders-append r [] h u = (refl, tt)
UniqueOrders-append r (x ∷ rs) h (new, u) =
    (absent (ground arith), UniqueOrders-append r rs (ground arith) u)
  where
    absent : (r.intent_id == x.intent_id) ≡ false → find_order x.intent_id (rs ++ r ∷ []) ≡ none
    absent other = rw (find_order-append x.intent_id r rs, new, other)

pub UniqueOrders-update :
    (id : ℕ) (f : Row → Row) (rs : List Row)
    → ((r : Row) → (f r).intent_id ≡ r.intent_id)
    → UniqueOrders rs
    → UniqueOrders (update_order id f rs)
unfolding update_order
UniqueOrders-update id f [] same u = tt
UniqueOrders-update id f (x ∷ rs) same (new, u) = (absent, UniqueOrders-update id f rs same u)
  where
    kept : (b : Bool) → (if b then f x else x).intent_id ≡ x.intent_id
    kept true = same x
    kept false = refl

    absent :
        find_order (if x.intent_id == id then f x else x).intent_id (update_order id f rs) ≡ none
    absent = rw (kept (x.intent_id == id), find_order-update id x.intent_id f rs same, new)

-- Among unique rows each is found under its own intent.
abbrev pub IsFound : List Row → Row → Type 0
IsFound rs r = find_order r.intent_id rs ≡ some r

IsFound-cons :
    (x : Row) (rs ys : List Row)
    → find_order x.intent_id rs ≡ none
    → All (IsFound rs) ys
    → All (IsFound (x ∷ rs)) ys
unfolding find_order
IsFound-cons x rs [] new h = tt
IsFound-cons x rs (y ∷ ys) new h = (found, IsFound-cons x rs ys new h.1)
  where
    found : find_order y.intent_id (x ∷ rs) ≡ some y
    found = elim (Bool-cases (x.intent_id == y.intent_id)) [
      | inl e ↦
          absurd (none≢some (sym (subst (λ k. find_order k rs ≡ none) (==→eq _ _ e) new) ∙ h.0))
      | inr e ↦ rw e h.0
    ]

pub keep-IsFound : (p : Row → Bool) (rs : List Row) → UniqueOrders rs → All (IsFound rs) (keep p rs)
keep-IsFound p [] u = tt
keep-IsFound p (x ∷ rs) (new, u) =
    let rest = IsFound-cons x rs (keep p rs) new (keep-IsFound p rs u) in
    elim (Bool-cases (p x)) [
      | inl e ↦ rw e (unfold find_order in rw ==_refl, rest)
      | inr e ↦ rw e rest
    ]

-- The order may still become unknown.
pub record IsMarkable (j : Journal) (r : Row) : Type 0 where
  pub row : Row
  pub found : find_order r.intent_id j.orders ≡ some row
  pub markable : may_follow row.state unknown ≡ true

stale_markable :
    (cutoff : ℕ) (r : Row) → is_stale cutoff r ≡ true → may_follow r.state unknown ≡ true
unfolding is_stale may_follow
stale_markable cutoff r h = ground arith

pub All-IsMarkable :
    (cutoff : ℕ) (j : Journal) (rs : List Row)
    → All (IsFound j.orders) rs
    → All (λ r. is_stale cutoff r ≡ true) rs
    → All (IsMarkable j) rs
All-IsMarkable cutoff j [] f h = tt
All-IsMarkable cutoff j (r ∷ rs) f h = (
  record { row = r; found = f.0; markable = stale_markable cutoff r h.0 },
  All-IsMarkable cutoff j rs f.1 h.1,
)

-- The journal after one row is marked: the update, and the event.
abbrev pub marked : Event → Journal → Journal
marked e j = record {
  orders = update_order e.intent_id (set_unknown e.event_ts_ns) j.orders;
  events = j.events ++ e ∷ [];
}

pub set_unknown-intent_id : (ts : ℕ) (r : Row) → (set_unknown ts r).intent_id ≡ r.intent_id
unfolding set_unknown
set_unknown-intent_id ts r = refl

pub find_order-marked :
    (e : Event) (j : Journal) (k : ℕ)
    → find_order k (marked e j).orders ≡ (elim (find_order k j.orders) [
      | none ↦ none
      | some r ↦ some (if e.intent_id == k then set_unknown e.event_ts_ns r else r)
    ])
find_order-marked e j k =
    find_order-update e.intent_id k (set_unknown e.event_ts_ns) j.orders
      (set_unknown-intent_id e.event_ts_ns)

pub IsMarkable-marked :
    (e : Event) (j : Journal) (r : Row) → IsMarkable j r → IsMarkable (marked e j) r
IsMarkable-marked e j r m = record {
  row = if e.intent_id == r.intent_id then set_unknown e.event_ts_ns m.row else m.row;
  found = rw (find_order-marked e j r.intent_id, m.found);
  markable = still (e.intent_id == r.intent_id);
}
  where
    still :
        (b : Bool)
        → may_follow (if b then set_unknown e.event_ts_ns m.row else m.row).state unknown ≡ true
    still true = unfold set_unknown may_follow in refl
    still false = m.markable

pub marked-IsConsistent :
    (e : Event) (j : Journal) (r : Row)
    → e.intent_id ≡ r.intent_id
    → e.state ≡ unknown
    → IsMarkable j r
    → IsConsistent j
    → IsConsistent (marked e j)
marked-IsConsistent e j r id st m c = record { at = at }
  where
    at : (k : ℕ) → Agrees (states_of k (marked e j).events) (find_order k (marked e j).orders)
    at k =
        rw (states_of-append, find_order-marked e j k, st)
          (Agrees-update unknown (set_unknown e.event_ts_ns) (states_of k j.events)
            (find_order k j.orders) (e.intent_id == k) (λ q. unfold set_unknown in refl)
            (λ same. (
              m.row,
              subst (λ n. find_order n j.orders ≡ some m.row) (sym id ∙ ==→eq _ _ same) m.found,
              m.markable,
            ))
            (c.at k))
