-- ===== src/Paper/Taker.antt =====
-- `_execute_taker` of paper/simulator.py as a whole.
use aiquant_trader.Prelude.{
  ℕ, ◌+◌, ◌-◌, ◌≤◌, ◌≡◌, refl, sym, ◌⊎◌, inl, inr, min, Bool, true, false, not, ◌&&◌, ◌||◌, List,
  [], ltb, ◌==◌, if◌then◌else◌, All, arith,
}
use aiquant_trader.Paper.Orders.{
  PaperOrder, is_filled, quantity, remaining_quantity_base, PaperFill, ExecutionScenario,
  KernelMarketState, Result, ok, ◌>>=◌, terminal_paper_state,
}
use aiquant_trader.Paper.Exchange.{to_canceled}
use aiquant_trader.Paper.Matching.{
  total_liquidity, take_levels, eligible_levels, after_taking, execute_taker,
}
use aiquant_trader.Paper.Evolution.{IsBounded, Follows}
use aiquant_trader.Paper.Fills.{
  bind-inverse, ok_pair, total_quantity, IsAllowed, IsTaken, take_levels-IsTaken,
}

abbrev is_unfillable : ExecutionScenario → ℕ → ℕ → ℕ → Bool
is_unfillable sc target available requested =
    target == 0 || (not sc.allow_partial_fills && ltb available requested)

abbrev target_of : ExecutionScenario → ℕ → ℕ → ℕ
target_of sc requested available =
    if sc.allow_partial_fills then min requested available else requested

-- What a taker order ends with.
pub record IsExecuted (sc : ExecutionScenario) (o u : PaperOrder) (m : KernelMarketState)
    (fs : List PaperFill) : Type 0 where
  pub follows : Follows o u
  pub accounted : IsBounded o → u.filled_quantity_base ≡ o.filled_quantity_base + total_quantity fs
  pub ended : terminal_paper_state u.state ≡ true
  pub available : total_quantity fs ≤ total_liquidity sc (eligible_levels o.intent m)
  pub whole_or_none :
      IsBounded o
      → sc.allow_partial_fills ≡ false
      → (fs ≡ []) ⊎ (u.filled_quantity_base ≡ quantity o.intent)
  pub allowed : All (IsAllowed o.intent) fs

pub Follows-canceled : (now : ℕ) (o : PaperOrder) → Follows o (to_canceled now o)
Follows-canceled now o = record {
  id = refl;
  intent = refl;
  grows = λ b. omega arith;
  bounded = λ b. record { bound = b.bound; whole = λ h. absurd (clash h) };
}
  where
    clash : false ≡ true → ⊥
    clash q = cc

pub Follows-filled :
    (o u : PaperOrder) (total : ℕ)
    → u.paper_order_id ≡ o.paper_order_id
    → u.intent ≡ o.intent
    → u.filled_quantity_base ≡ total
    → (IsBounded o → (o.filled_quantity_base ≤ total) × (total ≤ quantity o.intent))
    → (is_filled u.state ≡ true → total ≡ quantity o.intent)
    → Follows o u
Follows-filled o u total id intent sets within whole = record {
  id = id;
  intent = intent;
  grows = λ b. omega (arith, (within b).0, sets);
  bounded = λ b. record {
    bound = rw (sets, intent) (within b).1;
    whole = λ h. rw (sets, intent) (whole h);
  };
}

after_taking-whole :
    (o : PaperOrder) (now total : ℕ)
    → is_filled (after_taking o now total).state ≡ true
    → total ≡ quantity o.intent
after_taking-whole o now total h = ground arith

after_taking-terminal :
    (o : PaperOrder) (now total : ℕ) → terminal_paper_state (after_taking o now total).state ≡ true
unfolding terminal_paper_state
after_taking-terminal o now total = ground arith

canceled-IsExecuted :
    (sc : ExecutionScenario) (o : PaperOrder) (m : KernelMarketState) (now : ℕ)
    → IsExecuted sc o (to_canceled now o) m []
canceled-IsExecuted sc o m now = record {
  follows = Follows-canceled now o;
  accounted = λ b. omega arith;
  ended = unfold terminal_paper_state in refl;
  available = omega arith;
  whole_or_none = λ b p. inl refl;
  allowed = tt;
}

taken-IsExecuted :
    (sc : ExecutionScenario) (o : PaperOrder) (m : KernelMarketState) (now left : ℕ)
    (fs : List PaperFill)
    → is_unfillable sc
        (target_of sc (remaining_quantity_base o) (total_liquidity sc (eligible_levels o.intent m)))
        (total_liquidity sc (eligible_levels o.intent m))
        (remaining_quantity_base o)
      ≡ false
    → IsTaken sc o
        (eligible_levels o.intent m)
        (target_of sc (remaining_quantity_base o) (total_liquidity sc (eligible_levels o.intent m)))
        left
        fs
    → IsExecuted sc o
        (after_taking o now (
          o.filled_quantity_base
          + target_of sc
              (remaining_quantity_base o)
              (total_liquidity sc (eligible_levels o.intent m))
          - left))
        m
        fs
unfolding remaining_quantity_base
taken-IsExecuted sc o m now left fs fillable (sum, all, good) = record {
  follows =
      Follows-filled o _ _ refl refl refl
        (λ b. (ground (arith, sum, b.bound), ground (arith, sum, b.bound)))
        (after_taking-whole o now _);
  accounted = λ b. ground (arith, sum);
  ended = after_taking-terminal o now _;
  available = ground (arith, sum, fillable);
  whole_or_none = λ b p. inr (ground (arith, sum, all, fillable, p, b.bound));
  allowed = good;
}

-- A taker order that is executed ends; its fills are what its filled quantity grows by, they never
-- exceed the quantity of the order nor the liquidity within its limit, without partial fills they
-- are all or nothing, and no fill is at a price beyond the limit.
pub execute_taker-IsExecuted :
    (sc : ExecutionScenario) (o u : PaperOrder) (m : KernelMarketState) (now : ℕ)
    (fs : List PaperFill)
    → execute_taker sc o m now ≡ ok (u, fs)
    → IsExecuted sc o u m fs
unfolding execute_taker
execute_taker-IsExecuted sc o u m now fs h =
    by_target (is_unfillable sc target available requested) refl h
  where
    available : ℕ
    available = total_liquidity sc (eligible_levels o.intent m)

    requested : ℕ
    requested = remaining_quantity_base o

    target : ℕ
    target = target_of sc requested available

    finish : ℕ × List PaperFill → Result (PaperOrder × List PaperFill)
    finish r = ok (after_taking o now (o.filled_quantity_base + target - r.0), r.1)

    branch : Bool → Result (PaperOrder × List PaperFill)
    branch b =
        if b
        then ok (to_canceled now o, [])
        else take_levels sc o now (eligible_levels o.intent m) target >>= finish

    by_target :
        (b : Bool)
        → is_unfillable sc target available requested ≡ b
        → branch b ≡ ok (u, fs)
        → IsExecuted sc o u m fs
    by_target true e g =
        let (order, none_filled) = ok_pair g in
        rw (sym order, sym none_filled) (canceled-IsExecuted sc o m now)
    by_target false e g =
        let (r, made, last) =
          bind-inverse finish (take_levels sc o now (eligible_levels o.intent m) target) g in
        let (order, taken) = ok_pair last in
        rw (sym order, sym taken)
          (taken-IsExecuted sc o m now r.0 r.1 e
            (take_levels-IsTaken sc o now (eligible_levels o.intent m) target r.0 r.1 made))
