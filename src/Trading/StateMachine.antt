-- ===== src/Trading/StateMachine.antt =====
-- trading/state-machine/state-machine.ts: the machine of one instrument, which takes commands in strict
-- sequence. The transition and the clock are given to the constructor: parameters here.
use exchanger.Prelude.{
  ℕ, ◌+◌, String, Bool, true, false, not, ◌||◌, List, [], ◌∷◌, none, some, ltb, ◌==◌, str_eq,
}
use exchanger.Prelude.Dict.{Dict, get, put}
use exchanger.Prelude.Exec.{Result, ok, err, Exec, pure, lift, modify, raise_if, ◌>>=◌, ◌>>◌}

pub data MachineStatus : Type 0 where
  active paused : MachineStatus

-- A negative sequence would be refused as zero is.
pub record StateMachineCommand (P : Type 0) : Type 0 where
  pub command_id : String
  pub instrument_id : String
  pub sequence : ℕ
  pub payload : P

pub record StateMachineSnapshot (R : Type 0) : Type 0 where
  pub instrument_id : String
  pub sequence : ℕ
  pub status : MachineStatus
  pub processed_commands : List (String × R)
  pub captured_at : String

-- The codes of `StateMachineAdmissionError`, and the messages of `restoreSnapshot`.
pub data MachineError (F : Type 0) : Type 0 where
  admission_paused sequence_gap invalid_sequence : MachineError F
  invalid_snapshot snapshot_too_old : MachineError F
  transition_threw : F → MachineError F

pub record TradingStateMachine (R : Type 0) : Type 0 where
  pub instrument_id : String
  pub sequence : ℕ
  pub status : MachineStatus
  pub processed : Dict R

abbrev pub new_machine : {R : Type 0} → String → TradingStateMachine R
new_machine instrument_id = record {
  instrument_id = instrument_id;
  sequence = 0;
  status = active;
  processed = [];
}

unfoldable pub is_paused : MachineStatus → Bool
is_paused active = false
is_paused paused = true

module _ {P R F : Type 0} (transition : P → Result F R) where
  abbrev pub thrown : Result F R → Result (MachineError F) R
  thrown (ok result) = ok result
  thrown (err fault) = err (transition_threw fault)

  -- `apply` of a command whose id is new
  unfoldable pub admit : StateMachineCommand P → Exec (MachineError F) (TradingStateMachine R) R
  unfolding is_paused
  admit command m =
      (do
        raise_if (is_paused m.status) admission_paused
        raise_if (not (str_eq command.instrument_id m.instrument_id) || ltb command.sequence 1)
            invalid_sequence
        raise_if (not (command.sequence == m.sequence + 1)) sequence_gap
        result ← lift (thrown (transition command.payload))
        modify (λ s. record s {
          sequence = command.sequence;
          processed = put command.command_id result s.processed;
        })
        pure result)
        m

  -- A known command returns its result again: a result is never `undefined`.
  unfoldable pub apply : StateMachineCommand P → Exec (MachineError F) (TradingStateMachine R) R
  unfolding admit
  apply command m = elim (get command.command_id m.processed) [
    | some previous ↦ (ok previous, m)
    | none ↦ admit command m
  ]

module _ {R : Type 0} where
  unfoldable pub pause : TradingStateMachine R → TradingStateMachine R
  pause m = record m { status = paused }

  unfoldable pub resume : TradingStateMachine R → TradingStateMachine R
  resume m = record m { status = active }

  unfoldable pub create_snapshot : String → TradingStateMachine R → StateMachineSnapshot R
  create_snapshot now m = record {
    instrument_id = m.instrument_id;
    sequence = m.sequence;
    status = m.status;
    processed_commands = m.processed;
    captured_at = now;
  }

  -- `this.processed.set(commandId, result)` for each entry
  unfoldable pub set_all : List (String × R) → Dict R → Dict R
  set_all [] m = m
  set_all ((command_id, result) ∷ entries) m = set_all entries (put command_id result m)

  unfoldable pub restore_snapshot :
      {F : Type 0}
      → StateMachineSnapshot R
      → Exec (MachineError F) (TradingStateMachine R) (Unit {0})
  unfolding set_all
  restore_snapshot snapshot m =
      (do
        raise_if (not (str_eq snapshot.instrument_id m.instrument_id)) invalid_snapshot
        raise_if (ltb snapshot.sequence m.sequence) snapshot_too_old
        modify (λ s. record s {
          sequence = snapshot.sequence;
          status = snapshot.status;
          processed = set_all snapshot.processed_commands [];
        }))
        m
