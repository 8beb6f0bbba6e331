-- ===== src/Trading/Reachability.antt =====
-- Which statuses a command or an order can reach by transitions that the checks let pass.
use exchanger.Prelude.{ℕ, ◌≡◌, refl, sym, ◌∙◌, ◌≤◌, arith, [], ◌⊎◌, inl, inr, ◌+◌}
use exchanger.Prelude.Exec.{ok}
use exchanger.Trading.Lifecycle.{
  CommandLifecycleStatus, OrderLifecycleStatus, order_pending, order_open, order_partially_filled,
  order_filled, order_cancel_pending, order_cancelled, order_rejected, command_transitions,
  order_transitions, includes, assert_command_transition, assert_order_transition,
}

-- A sequence of transitions that the check lets pass.
pub data OrderPath : OrderLifecycleStatus → OrderLifecycleStatus → Type 0 where
  stays : (a : OrderLifecycleStatus) → OrderPath a a
  moves :
      (a b c : OrderLifecycleStatus)
      → assert_order_transition a b ≡ ok tt
      → OrderPath b c
      → OrderPath a c

pub data CommandPath : CommandLifecycleStatus → CommandLifecycleStatus → Type 0 where
  stays : (a : CommandLifecycleStatus) → CommandPath a a
  moves :
      (a b c : CommandLifecycleStatus)
      → assert_command_transition a b ≡ ok tt
      → CommandPath b c
      → CommandPath a c

-- How far an order has come.
abbrev rank : OrderLifecycleStatus → ℕ
rank order_pending = 0
rank order_open = 1
rank order_partially_filled = 2
rank order_cancel_pending = 3
rank order_filled = 4
rank order_cancelled = 4
rank order_rejected = 4

abbrev IsStep : OrderLifecycleStatus → OrderLifecycleStatus → Type 0
IsStep a b = (a ≡ b) ⊎ (rank a + 1 ≤ rank b)

transition-IsStep : (a b : OrderLifecycleStatus) → assert_order_transition a b ≡ ok tt → IsStep a b
unfolding assert_order_transition order_transitions includes
transition-IsStep a b h = ground arith

IsStep-trans : (a b c : OrderLifecycleStatus) → IsStep a b → IsStep b c → IsStep a c
IsStep-trans a b c (inl e) k = rw e k
IsStep-trans a b c (inr h) (inl e) = inr (ground arith)
IsStep-trans a b c (inr h) (inr k) = inr (omega arith)

path-IsStep : (a b : OrderLifecycleStatus) → OrderPath a b → IsStep a b
path-IsStep a b (OrderPath.stays _) = inl refl
path-IsStep a b (OrderPath.moves _ m _ h path) =
    IsStep-trans a m b (transition-IsStep a m h) (path-IsStep m b path)

IsStep-antisym : (a b : OrderLifecycleStatus) → IsStep a b → IsStep b a → a ≡ b
IsStep-antisym a b (inl e) k = e
IsStep-antisym a b (inr h) (inl e) = sym e
IsStep-antisym a b (inr h) (inr k) = absurd (omega arith)

-- An order that has left a status never comes back to it.
pub order_never_returns : (a b : OrderLifecycleStatus) → OrderPath a b → OrderPath b a → a ≡ b
order_never_returns a b p q = IsStep-antisym a b (path-IsStep a b p) (path-IsStep b a q)

last_step : (a b : OrderLifecycleStatus) → order_transitions a ≡ [] → IsStep a b → b ≡ a
unfolding order_transitions
last_step a b terminal (inl e) = sym e
last_step a b terminal (inr h) = ground arith

-- An order that is filled, cancelled or rejected, a status with no transition of its own, stays so.
pub order_terminal : (a b : OrderLifecycleStatus) → order_transitions a ≡ [] → OrderPath a b → b ≡ a
order_terminal a b terminal path = last_step a b terminal (path-IsStep a b path)

command_transition_terminal :
    (a b : CommandLifecycleStatus)
    → command_transitions a ≡ []
    → assert_command_transition a b ≡ ok tt
    → b ≡ a
unfolding assert_command_transition command_transitions includes
command_transition_terminal a b terminal h = ground arith

-- A command that is applied or rejected, a status with no transition of its own, stays so.
pub command_terminal :
    (a b : CommandLifecycleStatus) → command_transitions a ≡ [] → CommandPath a b → b ≡ a
command_terminal a b terminal (CommandPath.stays _) = refl
command_terminal a b terminal (CommandPath.moves _ m _ h path) =
    let same : m ≡ a = command_transition_terminal a m terminal h in
    command_terminal m b (rw same terminal) path ∙ same
