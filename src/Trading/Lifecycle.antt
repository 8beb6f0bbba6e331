-- ===== src/Trading/Lifecycle.antt =====
-- trading/lifecycle/trading-lifecycle.ts: the statuses of commands and orders, the tables of their
-- transitions and the checks by them.
use exchanger.Prelude.{ℕ, Bool, false, ◌||◌, List, [], ◌∷◌, ◌==◌, if◌then◌else◌}
use exchanger.Prelude.Exec.{Result, ok, err}

pub data CommandLifecycleStatus : Type 0 where
  received accepted processing applied rejected recovery_required : CommandLifecycleStatus

-- `PENDING`, `OPEN`, `PARTIALLY_FILLED`, `FILLED`, `CANCEL_PENDING`, `CANCELLED` and `REJECTED`
pub data OrderLifecycleStatus : Type 0 where
  order_pending order_open order_partially_filled order_filled : OrderLifecycleStatus
  order_cancel_pending order_cancelled order_rejected : OrderLifecycleStatus

-- The place in the catalogue, by which two statuses are compared.
abbrev pub command_index : CommandLifecycleStatus → ℕ
command_index received = 0
command_index accepted = 1
command_index processing = 2
command_index applied = 3
command_index rejected = 4
command_index recovery_required = 5

abbrev pub order_index : OrderLifecycleStatus → ℕ
order_index order_pending = 0
order_index order_open = 1
order_index order_partially_filled = 2
order_index order_filled = 3
order_index order_cancel_pending = 4
order_index order_cancelled = 5
order_index order_rejected = 6

unfoldable pub command_transitions : CommandLifecycleStatus → List CommandLifecycleStatus
command_transitions received = accepted ∷ rejected ∷ recovery_required ∷ []
command_transitions accepted = processing ∷ rejected ∷ recovery_required ∷ []
command_transitions processing = applied ∷ rejected ∷ recovery_required ∷ []
command_transitions applied = []
command_transitions rejected = []
command_transitions recovery_required = processing ∷ applied ∷ rejected ∷ []

unfoldable pub order_transitions : OrderLifecycleStatus → List OrderLifecycleStatus
order_transitions order_pending =
    order_open ∷ order_partially_filled ∷ order_filled ∷ order_rejected ∷ order_cancel_pending ∷ []
order_transitions order_open =
    order_partially_filled ∷ order_filled ∷ order_cancel_pending ∷ order_cancelled ∷ order_rejected
    ∷ []
order_transitions order_partially_filled =
    order_filled ∷ order_cancel_pending ∷ order_cancelled ∷ []
order_transitions order_filled = []
order_transitions order_cancel_pending = order_cancelled ∷ order_rejected ∷ []
order_transitions order_cancelled = []
order_transitions order_rejected = []

-- `list.includes(x)`, by the index of each
unfoldable pub includes : {A : Type 0} → (A → ℕ) → List A → A → Bool
includes index [] x = false
includes index (y ∷ ys) x = index y == index x || includes index ys x

pub data LifecycleError : Type 0 where
  invalid_command_transition : CommandLifecycleStatus → CommandLifecycleStatus → LifecycleError
  invalid_order_transition : OrderLifecycleStatus → OrderLifecycleStatus → LifecycleError

unfoldable pub assert_command_transition :
    CommandLifecycleStatus → CommandLifecycleStatus → Result LifecycleError (Unit {0})
unfolding command_transitions includes
assert_command_transition from to =
    if command_index from == command_index to
    then ok tt
    else if includes command_index (command_transitions from) to
    then ok tt
    else err (invalid_command_transition from to)

unfoldable pub assert_order_transition :
    OrderLifecycleStatus → OrderLifecycleStatus → Result LifecycleError (Unit {0})
unfolding order_transitions includes
assert_order_transition from to =
    if order_index from == order_index to
    then ok tt
    else if includes order_index (order_transitions from) to
    then ok tt
    else err (invalid_order_transition from to)
