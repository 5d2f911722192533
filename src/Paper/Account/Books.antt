-- ===== src/Paper/Account/Books.antt =====
-- The books of the account of paper/simulator.py: what fills, marks and settlements leave of it.
use mathlib.Core.Path.{subst}
use aiquant_trader.Prelude.{
  ℕ, ◌≡◌, refl, sym, ap, ◌∙◌, true, not, Option, none, some, List, [], ◌∷◌, is_some, arith,
}
use aiquant_trader.Prelude.Int.{ℤ, pos, ◌+ℤ◌, +ℤ_parts, eq_of_parts}
use aiquant_trader.Paper.Orders.{ExecutionScenario}
use aiquant_trader.Paper.Account.{
  PaperAccountState, is_zero, validate_account, new_account, mark_account, AccountEvent,
  account_fill, account_mark, account_funding, change_account, run_account,
}
use aiquant_trader.Paper.Account.Sums.{+ℤ_zero}
use aiquant_trader.Paper.Account.Steps.{
  moved, paid, total, InOrder, IsSound, IsBooked, mark_account-valid, IsBooked-cons, IsBooked-nil,
  IsStep, apply_fill-IsStep, settle_funding-IsStep, mark_account-IsStep,
}

-- A run that does not raise, with the account that it leaves.
record IsRun (sc : ExecutionScenario) (es : List AccountEvent) (a : PaperAccountState)
    (r : Option PaperAccountState) : Type 0 where
  final : PaperAccountState
  result : r ≡ some final
  booked : IsBooked es a final
  sound : IsSound final

IsRun-cons :
    (sc : ExecutionScenario) (e : AccountEvent) (es : List AccountEvent) (a : PaperAccountState)
    (last : Option ℕ)
    → InOrder last es
    → IsStep sc e a last (change_account sc e a)
    → ((b : PaperAccountState)
        → InOrder b.last_funding_settlement_ns es
        → IsSound b
        → IsRun sc es b (run_account sc es b))
    → IsRun sc (e ∷ es) a (run_account sc (e ∷ es) a)
unfolding run_account
IsRun-cons sc e es a last order first rest =
    let next = rest first.after (subst (λ l. InOrder l es) (sym first.settled) order) first.sound in
    rw (run_account, first.result)
      (record {
        final = next.final;
        result = next.result;
        booked = IsBooked-cons e es a first.after next.final first.change next.booked;
        sound = next.sound;
      })

run_account-IsRun :
    (sc : ExecutionScenario) (es : List AccountEvent) (a : PaperAccountState)
    → InOrder a.last_funding_settlement_ns es
    → IsSound a
    → IsRun sc es a (run_account sc es a)
unfolding run_account change_account
run_account-IsRun sc [] a h s = record {
  final = a;
  result = refl;
  booked = IsBooked-nil a;
  sound = s;
}
run_account-IsRun sc (account_fill f ∷ es) a (positive, h) s =
    IsRun-cons sc (account_fill f) es a a.last_funding_settlement_ns h
      (apply_fill-IsStep sc f a positive s) (λ b. run_account-IsRun sc es b)
run_account-IsRun sc (account_mark mark now ∷ es) a h s =
    IsRun-cons sc (account_mark mark now) es a a.last_funding_settlement_ns h
      (mark_account-IsStep sc mark now a s) (λ b. run_account-IsRun sc es b)
run_account-IsRun sc (account_funding rate mark now ∷ es) a (new, h) s =
    IsRun-cons sc (account_funding rate mark now) es a (some now) h
      (settle_funding-IsStep sc rate mark now a new s) (λ b. run_account-IsRun sc es b)

-- The account that fills, marks and settlements leave of a new one with `equity`.
pub record IsReconciled (es : List AccountEvent) (equity : ℕ) (a : PaperAccountState) : Type 0 where
  pub position : a.position_base ≡ total moved es
  pub cash : a.cash_usd +ℤ a.fees_usd +ℤ total paid es ≡ pos equity +ℤ a.funding_pnl_usd
  pub flat : is_some a.average_entry_price ≡ not (is_zero a.position_base)
  pub valid : (mark now : ℕ) → validate_account (mark_account mark now a) ≡ true

-- If the quantities of the fills are positive and each settlement of funding is later than the one
-- before, a new account takes any sequence of fills, marks and settlements without raising. The
-- position is then the sum of the signed quantities; the cash with the fees and with what the fills
-- cost is the initial equity with the funding; there is an average entry price exactly if the
-- position is not zero; and the account passes its validator after any further mark.
pub run_account-IsReconciled :
    (sc : ExecutionScenario) (es : List AccountEvent) (equity mark started : ℕ)
    → InOrder none es
    → (a : PaperAccountState) × (run_account sc es (new_account equity mark started) ≡ some a)
      × IsReconciled es equity a
run_account-IsReconciled sc es equity mark started h =
    let r =
      run_account-IsRun sc es (new_account equity mark started) h
        (record { flat = refl; high_water = omega arith }) in
    (
      r.final,
      r.result,
      record {
        position = r.booked.position ∙ zero_left (total moved es);
        cash = from_zero _ _ r.booked.cash;
        flat = r.sound.flat;
        valid = λ m now. mark_account-valid m now r.final r.sound;
      },
    )
  where
    zero_left : (x : ℤ) → pos 0 +ℤ x ≡ x
    zero_left x = eq_of_parts _ _ (omega (arith, +ℤ_parts (pos 0) x))

    from_zero : (x f : ℤ) → x +ℤ pos 0 ≡ pos equity +ℤ pos 0 +ℤ f → x ≡ pos equity +ℤ f
    from_zero x f q = sym (+ℤ_zero x) ∙ q ∙ ap (λ y. y +ℤ f) (+ℤ_zero (pos equity))
