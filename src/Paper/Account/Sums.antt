-- ===== src/Paper/Account/Sums.antt =====
-- Sums and bounds of integers, for the books of the account of paper/simulator.py.
use aiquant_trader.Prelude.{◌≡◌, ap, arith, if_cases, leb→le, leb→lt}
use aiquant_trader.Prelude.Int.{
  ℤ, pos, negsuc, ◌+ℤ◌, ◌-ℤ◌, ◌≤ℤ◌, pos_part, neg_part, leb_ℤ, +ℤ_parts, eq_of_parts, int_laws,
}
use aiquant_trader.Paper.Account.{max_ℤ}

pub +ℤ_zero : (a : ℤ) → a +ℤ pos 0 ≡ a
+ℤ_zero a = eq_of_parts _ _ (omega (arith, +ℤ_parts a (pos 0)))

pub max_ℤ_left : (a b : ℤ) → a ≤ℤ max_ℤ a b
max_ℤ_left a b = if_cases (λ c. a ≤ℤ c) (leb_ℤ a b) (λ q. leb→le _ _ q) (λ q. omega arith)

pub max_ℤ_right : (a b : ℤ) → b ≤ℤ max_ℤ a b
max_ℤ_right a b =
    if_cases (λ c. b ≤ℤ c) (leb_ℤ a b) (λ q. omega arith) (λ q. omega (arith, leb→lt _ _ q))

pub ≤ℤ_trans : (a b c : ℤ) → a ≤ℤ b → b ≤ℤ c → a ≤ℤ c
≤ℤ_trans (pos a) (pos b) (pos c) h k = omega (arith, h, k)
≤ℤ_trans (pos a) (pos b) (negsuc c) h k = omega (arith, h, k)
≤ℤ_trans (pos a) (negsuc b) (pos c) h k = omega (arith, h, k)
≤ℤ_trans (pos a) (negsuc b) (negsuc c) h k = omega (arith, h, k)
≤ℤ_trans (negsuc a) (pos b) (pos c) h k = omega (arith, h, k)
≤ℤ_trans (negsuc a) (pos b) (negsuc c) h k = omega (arith, h, k)
≤ℤ_trans (negsuc a) (negsuc b) (pos c) h k = omega (arith, h, k)
≤ℤ_trans (negsuc a) (negsuc b) (negsuc c) h k = omega (arith, h, k)

pub paid_cash : (c p f s g : ℤ) → (c +ℤ ((pos 0 -ℤ p) -ℤ f)) +ℤ (s +ℤ f) +ℤ p +ℤ g ≡ c +ℤ s +ℤ g
paid_cash c p f s g = eq_of_parts _ _ (grind int_laws)

pub funded_cash : (c f s g : ℤ) → (c +ℤ f) +ℤ s +ℤ pos 0 +ℤ g ≡ c +ℤ s +ℤ (g +ℤ f)
funded_cash c f s g = eq_of_parts _ _ (grind int_laws)

pub changed_cash :
    (a b c p q g h j : ℤ)
    → b +ℤ p +ℤ g ≡ a +ℤ h
    → c +ℤ q +ℤ h ≡ b +ℤ j
    → c +ℤ (p +ℤ q) +ℤ g ≡ a +ℤ j
changed_cash a b c p q g h j x y =
    eq_of_parts _ _ (grind (int_laws, ap pos_part x, ap neg_part x, ap pos_part y, ap neg_part y))

pub changed_position : (a b c p q : ℤ) → b ≡ a +ℤ p → c ≡ b +ℤ q → c ≡ a +ℤ (p +ℤ q)
changed_position a b c p q x y =
    eq_of_parts _ _ (grind (int_laws, ap pos_part x, ap neg_part x, ap pos_part y, ap neg_part y))
