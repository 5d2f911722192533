-- ===== src/Journal/States.antt =====
-- `ExecutionState` of domain/execution.py, and the transition table of execution/journal.py.
use aiquant_trader.Prelude.{
  ℕ, ◌≡◌, Bool, true, false, ◌||◌, List, [], ◌∷◌, arith, ◌==◌, member, map,
}

pub data ExecutionState : Type 0 where
  pending_submit submitted accepted partially_filled filled pending_modify : ExecutionState
  pending_cancel canceled rejected denied unknown : ExecutionState

abbrev pub state_code : ExecutionState → ℕ
state_code pending_submit = 0
state_code submitted = 1
state_code accepted = 2
state_code partially_filled = 3
state_code filled = 4
state_code pending_modify = 5
state_code pending_cancel = 6
state_code canceled = 7
state_code rejected = 8
state_code denied = 9
state_code unknown = 10

-- `TERMINAL_STATES`
unfoldable pub terminal : ExecutionState → Bool
terminal filled = true
terminal canceled = true
terminal rejected = true
terminal denied = true
terminal _ = false

-- `ALLOWED_TRANSITIONS.get(state, frozenset())`
unfoldable pub allowed_transitions : ExecutionState → List ExecutionState
allowed_transitions pending_submit = submitted ∷ denied ∷ unknown ∷ []
allowed_transitions submitted =
    accepted ∷ partially_filled ∷ filled ∷ canceled ∷ rejected ∷ denied ∷ unknown ∷ []
allowed_transitions accepted =
    pending_modify ∷ partially_filled ∷ filled ∷ pending_cancel ∷ canceled ∷ rejected ∷ unknown ∷ []
allowed_transitions partially_filled =
    pending_modify ∷ partially_filled ∷ filled ∷ pending_cancel ∷ canceled ∷ unknown ∷ []
allowed_transitions pending_cancel = canceled ∷ filled ∷ partially_filled ∷ accepted ∷ unknown ∷ []
allowed_transitions pending_modify =
    accepted ∷ partially_filled ∷ filled ∷ canceled ∷ rejected ∷ unknown ∷ []
allowed_transitions unknown =
    accepted ∷ partially_filled ∷ filled ∷ pending_cancel ∷ canceled ∷ rejected ∷ unknown
    ∷ pending_modify ∷ []
allowed_transitions _ = []

-- `event.state is current or event.state in allowed`
unfoldable pub may_follow : ExecutionState → ExecutionState → Bool
unfolding allowed_transitions
may_follow current next =
    state_code next == state_code current
    || member (state_code next) (map state_code (allowed_transitions current))

pub state_code-injective : (x y : ExecutionState) → state_code x ≡ state_code y → x ≡ y
state_code-injective x y h = ground arith

-- A terminal state is left by no transition.
pub terminal-stays : (x y : ExecutionState) → terminal x ≡ true → may_follow x y ≡ true → y ≡ x
unfolding terminal may_follow
terminal-stays x y h g = ground arith
