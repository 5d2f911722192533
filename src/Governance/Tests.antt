-- ===== src/Governance/Tests.antt =====
-- The promotion stages at concrete inputs.
use aiquant_trader.Prelude.{◌≡◌, refl, List, [], ◌∷◌, map}
use aiquant_trader.Governance.Promotion.{
  candidate, backtest_passed, automation, validate_stage_transition, Move, Promoted, drafted, moved,
  Promoted-trail,
}

abbrev two_moves : List Move
two_moves =
    record { stage = backtest_passed; actor = automation }
    ∷ record { stage = candidate; actor = automation }
    ∷ []

two_promotions : Promoted backtest_passed two_moves
unfolding validate_stage_transition
two_promotions = moved (moved drafted candidate automation refl) backtest_passed automation refl

Promoted-trail_example : map (λ (m : Move). m.stage) two_moves ≡ backtest_passed ∷ candidate ∷ []
Promoted-trail_example = Promoted-trail two_promotions refl
