-- ===== src/Paper/Turns.antt =====
-- What the loops of paper/simulator.py store, turn by turn.
use aiquant_trader.Prelude.{
  ℕ, ◌*◌, ◌≡◌, refl, sym, ◌∙◌, inl, inr, Bool, true, false, not, ◌&&◌, Option, none, some, List, [],
  ◌∷◌, if◌then◌else◌, arith, Bool-cases,
}
use mathlib.Core.Path.{subst}
use aiquant_trader.Risk.Domain.{is_market, is_gtc}
use aiquant_trader.Paper.Orders.{
  PaperOrder, is_filled, PaperFill, ExecutionScenario, KernelMarketState, Result, ok,
}
use aiquant_trader.Paper.Exchange.{to_canceled, cancel_due}
use aiquant_trader.Paper.Matching.{
  crosses, displayed_size, own_side, to_rejected, to_resting, execute_taker, activate_limit,
  activate,
}
use aiquant_trader.Paper.Loops.{Frame, store, cancel_loop, is_activatable, activate_loop}
use aiquant_trader.Paper.Snapshot.{IsSnapshot}
use aiquant_trader.Paper.Evolution.{Follows, Stores, done, store_head, skip_head}
use aiquant_trader.Paper.Fills.{bind-inverse, ok_pair}
use aiquant_trader.Paper.Taker.{Follows-canceled, Follows-filled, execute_taker-IsExecuted}

-- A version with the same fills that is not filled.
pub Follows-same :
    (o u : PaperOrder)
    → u.paper_order_id ≡ o.paper_order_id
    → u.intent ≡ o.intent
    → u.filled_quantity_base ≡ o.filled_quantity_base
    → is_filled u.state ≡ false
    → Follows o u
Follows-same o u id intent same open_still =
    Follows-filled o u o.filled_quantity_base id intent same (λ b. (omega arith, b.bound))
      (λ h. absurd (clash (sym h ∙ open_still)))
  where
    clash : true ≡ false → ⊥
    clash q = cc

pub ok_injective : {X : Type 0} {x y : X} → ok x ≡ ok y → x ≡ y
ok_injective q = cc

activate_limit-Follows :
    (sc : ExecutionScenario) (o u : PaperOrder) (limit : Option ℕ) (m : KernelMarketState) (now : ℕ)
    (fs : List PaperFill)
    → activate_limit sc o limit m now ≡ ok (u, fs)
    → Follows o u
activate_limit-Follows sc o u none m now fs h = unfold activate_limit in ground arith
activate_limit-Follows sc o u (some limit) m now fs h =
    by_cross (o.intent.post_only && crosses o.intent.side limit m)
      (not (is_gtc o.intent.time_in_force)) (crosses o.intent.side limit m)
      (unfold activate_limit in h)
  where
    queued : ℕ
    queued = displayed_size (own_side o.intent.side m) limit * sc.book_liquidity_multiplier

    branch : Bool → Bool → Bool → Result (PaperOrder × List PaperFill)
    branch a b c =
        if a
        then ok (to_rejected now o, [])
        else if b
        then (if c then execute_taker sc o m now else ok (to_canceled now o, []))
        else ok (to_resting now queued o, [])

    by_cross : (a b c : Bool) → branch a b c ≡ ok (u, fs) → Follows o u
    by_cross true b c g =
        rw (sym (ok_pair g).0) (Follows-same o (to_rejected now o) refl refl refl refl)
    by_cross false true true g = (execute_taker-IsExecuted sc o u m now fs g).follows
    by_cross false true false g = rw (sym (ok_pair g).0) (Follows-canceled now o)
    by_cross false false c g =
        rw (sym (ok_pair g).0) (Follows-same o (to_resting now queued o) refl refl refl refl)

pub activate-Follows :
    (sc : ExecutionScenario) (o u : PaperOrder) (m : KernelMarketState) (now : ℕ)
    (fs : List PaperFill)
    → activate sc o m now ≡ ok (u, fs)
    → Follows o u
activate-Follows sc o u m now fs h = by_kind (is_market o.intent.kind) (unfold activate in h)
  where
    branch : Bool → Result (PaperOrder × List PaperFill)
    branch b =
        if b then execute_taker sc o m now else activate_limit sc o o.intent.limit_price m now

    by_kind : (b : Bool) → branch b ≡ ok (u, fs) → Follows o u
    by_kind true g = (execute_taker-IsExecuted sc o u m now fs g).follows
    by_kind false g = activate_limit-Follows sc o u o.intent.limit_price m now fs g

pub cancel_loop-Stores :
    (now : ℕ) (rs : List PaperOrder) (x : Frame)
    → IsSnapshot x.orders rs
    → Stores x.orders (cancel_loop now rs x).orders
unfolding cancel_loop
cancel_loop-Stores now [] x s = done
cancel_loop-Stores now (o ∷ rs) x s = elim (Bool-cases (cancel_due now o)) [
  | inl due ↦
      rw (cancel_loop, due)
        (store_head o (to_canceled now o) rs x.orders _ s (Follows-canceled now o)
          (λ t. cancel_loop-Stores now rs (store (to_canceled now o) [] x) t))
  | inr early ↦ rw (cancel_loop, early) (cancel_loop-Stores now rs x (skip_head o rs x.orders s))
]

pub activate_loop-Stores :
    (sc : ExecutionScenario) (m : KernelMarketState) (now : ℕ) (rs : List PaperOrder) (x y : Frame)
    → IsSnapshot x.orders rs
    → activate_loop sc m now rs x ≡ ok y
    → Stores x.orders y.orders
unfolding activate_loop
activate_loop-Stores sc m now [] x y s h =
    subst (λ (z : Frame). Stores x.orders z.orders) (ok_injective h) done
activate_loop-Stores sc m now (o ∷ rs) x y s h = elim (Bool-cases (is_activatable now o)) [
  | inl ready ↦
      let (made, e, rest) =
        bind-inverse {y = y}
          (λ (p : PaperOrder × List PaperFill). activate_loop sc m now rs (store p.0 p.1 x))
          (activate sc o m now) (rw ready at h) in
      store_head o made.0 rs x.orders y.orders s (activate-Follows sc o made.0 m now made.1 e)
        (λ t. activate_loop-Stores sc m now rs (store made.0 made.1 x) y t rest)
  | inr waiting ↦ activate_loop-Stores sc m now rs x y (skip_head o rs x.orders s) (rw waiting at h)
]
