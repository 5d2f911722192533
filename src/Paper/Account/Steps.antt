-- ===== src/Paper/Account/Steps.antt =====
-- One fill, mark or settlement of the account of paper/simulator.py.
use aiquant_trader.Prelude.{
  ℕ, ◌*◌, ◌≤◌, ◌≡◌, refl, sym, ap, true, false, not, ◌||◌, inl, inr, Option, some, List, [], ◌∷◌,
  leb, is_some, arith, Option-cases, if_cases, if_both,
}
use aiquant_trader.Prelude.Int.{ℤ, pos, ◌+ℤ◌, ◌-ℤ◌, ◌*ℤ◌, ◌≤ℤ◌, abs, +ℤ_parts, -ℤ_parts}
use aiquant_trader.Risk.Domain.{buy, sell}
use aiquant_trader.Paper.Orders.{PaperFill, ExecutionScenario}
use aiquant_trader.Paper.Account.{
  fill_unit, Average, PaperAccountState, is_zero, validate_account, same_direction,
  opposite_direction, signed_fill, fee_usd, booked_fill, opened, closed, remaining_average,
  apply_fill, max_ℤ, marked_equity, least_equity, mark_account, is_settled, cashflow,
  settle_funding, AccountEvent, account_fill, account_mark, account_funding,
}
use aiquant_trader.Paper.Account.Sums.{
  +ℤ_zero, max_ℤ_left, max_ℤ_right, ≤ℤ_trans, paid_cash, funded_cash, changed_cash,
  changed_position,
}

-- What an event adds to the position, and what it pays for that.
abbrev pub moved : AccountEvent → ℤ
moved (account_fill f) = signed_fill f
moved (account_mark mark now) = pos 0
moved (account_funding rate mark now) = pos 0

abbrev pub paid : AccountEvent → ℤ
paid (account_fill f) = signed_fill f *ℤ pos (f.price * fill_unit)
paid (account_mark mark now) = pos 0
paid (account_funding rate mark now) = pos 0

abbrev pub total : (AccountEvent → ℤ) → List AccountEvent → ℤ
total f [] = pos 0
total f (e ∷ es) = f e +ℤ total f es

-- The quantities are positive, and the settlements come one after the other.
abbrev pub InOrder : Option ℕ → List AccountEvent → Type 0
InOrder last [] = Unit
InOrder last (account_fill f ∷ es) = (1 ≤ f.quantity_base) × InOrder last es
InOrder last (account_mark mark now ∷ es) = InOrder last es
InOrder last (account_funding rate mark now ∷ es) =
    (is_settled now last ≡ false) × InOrder (some now) es

-- The parts of the account that hold whatever happens.
pub record IsSound (a : PaperAccountState) : Type 0 where
  pub flat : is_some a.average_entry_price ≡ not (is_zero a.position_base)
  pub high_water : a.equity_usd ≤ℤ a.high_water_equity_usd

pub record IsBooked (es : List AccountEvent) (a b : PaperAccountState) : Type 0 where
  pub position : b.position_base ≡ a.position_base +ℤ total moved es
  pub cash :
      b.cash_usd +ℤ b.fees_usd +ℤ total paid es +ℤ a.funding_pnl_usd
      ≡ a.cash_usd +ℤ a.fees_usd +ℤ b.funding_pnl_usd

pub joined_nonzero :
    (a b : ℤ) → 1 ≤ abs b → is_zero a || same_direction a b ≡ true → is_zero (a +ℤ b) ≡ false
joined_nonzero a b h q = ground (arith, +ℤ_parts a b, h, q)

pub signed_nonzero : (f : PaperFill) → 1 ≤ f.quantity_base → 1 ≤ abs (signed_fill f)
signed_nonzero f h = elim f.side as (λ side. 1 ≤ abs (signed_fill (record f { side = side }))) [
  | buy ↦ omega (arith, h)
  | sell ↦ omega (arith, h, -ℤ_parts (pos 0) (pos f.quantity_base))
]

pub mark_account-IsSound :
    (mark now : ℕ) (a : PaperAccountState) → IsSound a → IsSound (mark_account mark now a)
unfolding mark_account
mark_account-IsSound mark now a s = record { flat = s.flat; high_water = highest }
  where
    equity : ℤ
    equity = marked_equity a mark

    highest : equity ≤ℤ max_ℤ (max_ℤ a.high_water_equity_usd equity) least_equity
    highest =
        ≤ℤ_trans equity (max_ℤ a.high_water_equity_usd equity)
          (max_ℤ (max_ℤ a.high_water_equity_usd equity) least_equity)
          (max_ℤ_right a.high_water_equity_usd equity)
          (max_ℤ_left (max_ℤ a.high_water_equity_usd equity) least_equity)

pub mark_account-valid :
    (mark now : ℕ) (a : PaperAccountState)
    → IsSound a
    → validate_account (mark_account mark now a) ≡ true
unfolding mark_account validate_account
mark_account-valid mark now a s =
    let e = marked_equity a mark in
    let equal : leb (abs (e -ℤ e)) (abs least_equity) ≡ true = ground (arith, -ℤ_parts e e) in
    ground (arith, s.flat, equal, (mark_account-IsSound mark now a s).high_water)

pub record IsChange (e : AccountEvent) (a b : PaperAccountState) : Type 0 where
  pub position : b.position_base ≡ a.position_base +ℤ moved e
  pub cash :
      b.cash_usd +ℤ b.fees_usd +ℤ paid e +ℤ a.funding_pnl_usd
      ≡ a.cash_usd +ℤ a.fees_usd +ℤ b.funding_pnl_usd

pub IsBooked-cons :
    (e : AccountEvent) (es : List AccountEvent) (a b c : PaperAccountState)
    → IsChange e a b
    → IsBooked es b c
    → IsBooked (e ∷ es) a c
IsBooked-cons e es a b c h k = record {
  position =
      changed_position a.position_base b.position_base c.position_base (moved e) (total moved es)
        h.position k.position;
  cash =
      changed_cash (a.cash_usd +ℤ a.fees_usd) (b.cash_usd +ℤ b.fees_usd) (c.cash_usd +ℤ c.fees_usd)
        (paid e) (total paid es) a.funding_pnl_usd b.funding_pnl_usd c.funding_pnl_usd h.cash
        k.cash;
}

pub IsBooked-nil : (a : PaperAccountState) → IsBooked [] a a
IsBooked-nil a = record {
  position = sym (+ℤ_zero a.position_base);
  cash = ap (λ x. x +ℤ a.funding_pnl_usd) (+ℤ_zero (a.cash_usd +ℤ a.fees_usd));
}

-- What a step that does not raise has to be.
pub record IsStep (sc : ExecutionScenario) (e : AccountEvent) (a : PaperAccountState)
    (last : Option ℕ) (r : Option PaperAccountState) : Type 0 where
  pub after : PaperAccountState
  pub result : r ≡ some after
  pub change : IsChange e a after
  pub sound : IsSound after
  pub settled : after.last_funding_settlement_ns ≡ last

pub remaining_flat :
    (old new : ℤ) (v : Average) (price : ℕ)
    → is_some (remaining_average old new v price) ≡ not (is_zero new)
remaining_flat old new v price =
    if_cases (λ o. is_some o ≡ not (is_zero new)) (is_zero new) (λ q. ground (arith, q))
      (λ q.
        if_both (λ o. is_some o ≡ not (is_zero new)) (opposite_direction old new)
          (ground (arith, q)) (ground (arith, q)))

pub apply_fill-IsStep :
    (sc : ExecutionScenario) (f : PaperFill) (a : PaperAccountState)
    → 1 ≤ f.quantity_base
    → IsSound a
    → IsStep sc (account_fill f) a a.last_funding_settlement_ns (apply_fill sc f a)
unfolding apply_fill
apply_fill-IsStep sc f a positive s =
    if_cases (IsStep sc (account_fill f) a a.last_funding_settlement_ns)
      (is_zero a.position_base || same_direction a.position_base (signed_fill f))
      (λ q. record {
        after = record (booked_fill sc f a) { average_entry_price = some (opened f a) };
        result = refl;
        change = record { position = refl; cash = cash };
        sound = record {
          flat = sym (
              ap not
                (joined_nonzero a.position_base (signed_fill f) (signed_nonzero f positive) q));
          high_water = s.high_water;
        };
        settled = refl;
      })
      (λ q. elim (Option-cases a.average_entry_price) [
        | inl none_left ↦ absurd (ground (arith, ap is_some none_left, s.flat, q))
        | inr (v, has) ↦ rw has (record {
          after = record (booked_fill sc f a) {
            average_entry_price =
                remaining_average a.position_base (a.position_base +ℤ signed_fill f) v f.price;
            realized_trading_pnl_usd = closed f a v;
          };
          result = refl;
          change = record { position = refl; cash = cash };
          sound = record {
            flat = remaining_flat a.position_base (a.position_base +ℤ signed_fill f) v f.price;
            high_water = s.high_water;
          };
          settled = refl;
        })
      ])
  where
    cash :
        (a.cash_usd +ℤ ((pos 0 -ℤ signed_fill f *ℤ pos (f.price * fill_unit)) -ℤ fee_usd sc f))
          +ℤ (a.fees_usd +ℤ fee_usd sc f)
          +ℤ signed_fill f *ℤ pos (f.price * fill_unit)
          +ℤ a.funding_pnl_usd
        ≡ a.cash_usd +ℤ a.fees_usd +ℤ a.funding_pnl_usd
    cash =
        paid_cash a.cash_usd (signed_fill f *ℤ pos (f.price * fill_unit)) (fee_usd sc f) a.fees_usd
          a.funding_pnl_usd

pub settle_funding-IsStep :
    (sc : ExecutionScenario) (rate : ℤ) (mark now : ℕ) (a : PaperAccountState)
    → is_settled now a.last_funding_settlement_ns ≡ false
    → IsSound a
    → IsStep sc (account_funding rate mark now) a (some now) (settle_funding sc rate mark now a)
unfolding settle_funding mark_account
settle_funding-IsStep sc rate mark now a new s = rw new (record {
  after = mark_account mark now paid_account;
  result = refl;
  change = record {
    position = sym (+ℤ_zero a.position_base);
    cash = funded_cash a.cash_usd (cashflow sc rate mark a) a.fees_usd a.funding_pnl_usd;
  };
  sound =
      mark_account-IsSound mark now paid_account
        (record { flat = s.flat; high_water = s.high_water });
  settled = refl;
})
  where
    paid_account : PaperAccountState
    paid_account = record a {
      cash_usd = a.cash_usd +ℤ cashflow sc rate mark a;
      funding_pnl_usd = a.funding_pnl_usd +ℤ cashflow sc rate mark a;
      last_funding_settlement_ns = some now;
    }

pub mark_account-IsStep :
    (sc : ExecutionScenario) (mark now : ℕ) (a : PaperAccountState)
    → IsSound a
    → IsStep sc
        (account_mark mark now)
        a
        a.last_funding_settlement_ns
        (some (mark_account mark now a))
unfolding mark_account
mark_account-IsStep sc mark now a s = record {
  after = mark_account mark now a;
  result = refl;
  change = record {
    position = sym (+ℤ_zero a.position_base);
    cash = ap (λ x. x +ℤ a.funding_pnl_usd) (+ℤ_zero (a.cash_usd +ℤ a.fees_usd));
  };
  sound = mark_account-IsSound mark now a s;
  settled = refl;
}
