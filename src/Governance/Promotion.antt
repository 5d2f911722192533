-- ===== src/Governance/Promotion.antt =====
-- domain/governance.py: the promotion stages and `validate_stage_transition`.
use aiquant_trader.Prelude.{
  ℕ, ◌≡◌, refl, ap, sym, ◌∙◌, Bool, true, false, not, ◌&&◌, Option, none, some, List, [], ◌∷◌,
  arith, if◌then◌else◌, member, map, All,
}

pub data PromotionStage : Type 0 where
  draft candidate backtest_passed walk_forward_passed paper_passed shadow_passed : PromotionStage
  awaiting_approval approved_canary production retired rejected rolled_back : PromotionStage

pub data ActorKind : Type 0 where
  automation human_approver safety_controller : ActorKind

abbrev pub stage_code : PromotionStage → ℕ
stage_code draft = 0
stage_code candidate = 1
stage_code backtest_passed = 2
stage_code walk_forward_passed = 3
stage_code paper_passed = 4
stage_code shadow_passed = 5
stage_code awaiting_approval = 6
stage_code approved_canary = 7
stage_code production = 8
stage_code retired = 9
stage_code rejected = 10
stage_code rolled_back = 11

-- `ADVANCE_TRANSITIONS`
unfoldable pub advance_transitions : PromotionStage → List PromotionStage
advance_transitions draft = candidate ∷ rejected ∷ []
advance_transitions candidate = backtest_passed ∷ rejected ∷ []
advance_transitions backtest_passed = walk_forward_passed ∷ rejected ∷ []
advance_transitions walk_forward_passed = paper_passed ∷ rejected ∷ []
advance_transitions paper_passed = shadow_passed ∷ rejected ∷ []
advance_transitions shadow_passed = awaiting_approval ∷ rejected ∷ []
advance_transitions awaiting_approval = approved_canary ∷ rejected ∷ []
advance_transitions approved_canary = production ∷ rolled_back ∷ []
advance_transitions production = retired ∷ rolled_back ∷ []
advance_transitions retired = []
advance_transitions rejected = []
advance_transitions rolled_back = []

abbrev pub among : PromotionStage → List PromotionStage → Bool
among s ss = member (stage_code s) (map stage_code ss)

abbrev pub is_human : ActorKind → Bool
is_human human_approver = true
is_human _ = false

abbrev pub is_safety : ActorKind → Bool
is_safety safety_controller = true
is_safety _ = false

pub data TransitionError : Type 0 where
  illegal needs_human safety_may_only_reduce : TransitionError

-- `validate_stage_transition`: the error that it raises, if any.
unfoldable pub validate_stage_transition :
    PromotionStage → PromotionStage → ActorKind → Option TransitionError
unfolding advance_transitions
validate_stage_transition current target actor =
    if not (among target (advance_transitions current))
    then some illegal
    else if among target (approved_canary ∷ production ∷ []) && not (is_human actor)
    then some needs_human
    else if is_safety actor && not (among target (rejected ∷ rolled_back ∷ retired ∷ []))
    then some safety_may_only_reduce
    else none

-- A stage with the actor who moved the strategy there; the newest comes first.
pub record Move : Type 0 where
  pub stage : PromotionStage
  pub actor : ActorKind

pub data Promoted : PromotionStage → List Move → Type 0 where
  drafted : Promoted draft []
  moved :
      {s : PromotionStage} {ms : List Move}
      → Promoted s ms
      → (t : PromotionStage) (actor : ActorKind) → validate_stage_transition s t actor ≡ none
      → Promoted t (record { stage = t; actor = actor } ∷ ms)

-- The stages on the way to production, newest first.
abbrev pub trail : PromotionStage → List PromotionStage
trail candidate = candidate ∷ []
trail backtest_passed = backtest_passed ∷ candidate ∷ []
trail walk_forward_passed = walk_forward_passed ∷ backtest_passed ∷ candidate ∷ []
trail paper_passed = paper_passed ∷ walk_forward_passed ∷ backtest_passed ∷ candidate ∷ []
trail shadow_passed =
    shadow_passed ∷ paper_passed ∷ walk_forward_passed ∷ backtest_passed ∷ candidate ∷ []
trail awaiting_approval =
    awaiting_approval ∷ shadow_passed ∷ paper_passed ∷ walk_forward_passed ∷ backtest_passed
    ∷ candidate ∷ []
trail approved_canary =
    approved_canary ∷ awaiting_approval ∷ shadow_passed ∷ paper_passed ∷ walk_forward_passed
    ∷ backtest_passed ∷ candidate ∷ []
trail production =
    production ∷ approved_canary ∷ awaiting_approval ∷ shadow_passed ∷ paper_passed
    ∷ walk_forward_passed ∷ backtest_passed ∷ candidate ∷ []
trail _ = []

abbrev pub is_ending : PromotionStage → Bool
is_ending s = among s (retired ∷ rejected ∷ rolled_back ∷ [])

trail-step :
    (s t : PromotionStage) (actor : ActorKind)
    → validate_stage_transition s t actor ≡ none
    → is_ending t ≡ false
    → (trail t ≡ t ∷ trail s) × (is_ending s ≡ false)
unfolding validate_stage_transition
trail-step s t actor h g = ground arith

-- A strategy that stands at a stage which is not an ending has passed every stage before it, each
-- once and in order: none was skipped, and none was entered from elsewhere.
pub Promoted-trail :
    {s : PromotionStage} {ms : List Move}
    → Promoted s ms
    → is_ending s ≡ false
    → map (λ (m : Move). m.stage) ms ≡ trail s
Promoted-trail drafted h = refl
Promoted-trail (moved {s} p t actor valid) h =
    let (path, open_still) = trail-step s t actor valid h in
    ap (λ ts. t ∷ ts) (Promoted-trail p open_still) ∙ sym path

-- What each actor was allowed to do.
abbrev pub IsAuthorized : Move → Type 0
IsAuthorized m =
    (among m.stage (approved_canary ∷ production ∷ []) ≡ true → m.actor ≡ human_approver)
    × (m.actor ≡ safety_controller → is_ending m.stage ≡ true)

step-IsAuthorized :
    (s t : PromotionStage) (actor : ActorKind)
    → validate_stage_transition s t actor ≡ none
    → IsAuthorized (record { stage = t; actor = actor })
unfolding validate_stage_transition
step-IsAuthorized s t actor h = (λ g. ground arith, λ g. ground arith)

-- Along any history, only a human approver moved the strategy to the canary or to production, and
-- the safety controller moved it only to an ending.
pub Promoted-IsAuthorized :
    {s : PromotionStage} {ms : List Move} → Promoted s ms → All IsAuthorized ms
Promoted-IsAuthorized drafted = tt
Promoted-IsAuthorized (moved {s} p t actor valid) =
    (step-IsAuthorized s t actor valid, Promoted-IsAuthorized p)

-- An ending is left by no transition of any actor.
pub ending_final :
    (s t : PromotionStage) (actor : ActorKind)
    → is_ending s ≡ true
    → validate_stage_transition s t actor ≡ some illegal
unfolding validate_stage_transition
ending_final s t actor h = ground arith
