-- ===== src/Trading/Sequencer.antt =====
-- trading/sequencer/sequencer.ts: one state machine for each instrument, and one owner. The factory
-- `createMachine` is given to the constructor: a parameter here. Logs and metrics only observe.
use exchanger.Prelude.{String, not, ◌&&◌, [], if◌then◌else◌, none, some, is_blank, str_eq}
use exchanger.Prelude.Dict.{Dict, get, put}
use exchanger.Prelude.Exec.{Result, ok, err, Exec, raise_if}
use exchanger.Trading.StateMachine
use exchanger.Trading.StateMachine.{
  StateMachineCommand, MachineError, MachineStatus, TradingStateMachine,
}

pub record SequencedCommand (P : Type 0) : Type 0 where
  pub owner_id : String
  pub command : StateMachineCommand P

-- The codes of `PartitionOwnershipError`, and what a machine throws.
pub data SequencerError (F : Type 0) : Type 0 where
  owner_required not_owner partition_unassigned : SequencerError F
  machine_threw : MachineError F → SequencerError F

pub record TradingSequencer (R : Type 0) : Type 0 where
  pub owners : Dict String
  pub machines : Dict (TradingStateMachine R)

abbrev pub new_sequencer : {R : Type 0} → TradingSequencer R
new_sequencer = record { owners = []; machines = [] }

module _ {R F : Type 0} where
  -- An owner that is the empty string counts as none; it is refused anyway.
  unfoldable pub assign_owner :
      String → String → Exec (SequencerError F) (TradingSequencer R) (Unit {0})
  assign_owner instrument_id owner_id s =
      if is_blank owner_id then (err owner_required, s) else elim (get instrument_id s.owners) [
        | some current ↦
            if not (str_eq current "") && not (str_eq current owner_id)
            then (err not_owner, s)
            else (ok tt, record s { owners = put instrument_id owner_id s.owners })
        | none ↦ (ok tt, record s { owners = put instrument_id owner_id s.owners })
      ]

  unfoldable pub require_owner :
      String → String → Exec (SequencerError F) (TradingSequencer R) (Unit {0})
  require_owner instrument_id owner_id s = elim (get instrument_id s.owners) [
    | none ↦ (err not_owner, s)
    | some owner ↦ raise_if (not (str_eq owner owner_id)) not_owner s
  ]

module _ {P R F : Type 0} (transition : P → Result F R)
    (create_machine : String → TradingStateMachine R) where
  -- `this.machines.get(instrumentId) ?? this.createMachine(instrumentId)`
  unfoldable pub machine_of : String → TradingSequencer R → TradingStateMachine R
  machine_of instrument_id s = elim (get instrument_id s.machines) [
    | some machine ↦ machine
    | none ↦ create_machine instrument_id
  ]

  -- The machine is changed in place.
  abbrev pub store : String → TradingStateMachine R → TradingSequencer R → TradingSequencer R
  store instrument_id machine s = record s { machines = put instrument_id machine s.machines }

  abbrev pub sequenced : Result (MachineError F) R → Result (SequencerError F) R
  sequenced (ok result) = ok result
  sequenced (err e) = err (machine_threw e)

  unfoldable pub apply_owned :
      StateMachineCommand P → Exec (SequencerError F) (TradingSequencer R) R
  unfolding machine_of StateMachine.apply
  apply_owned command s =
      let (result, machine) =
        StateMachine.apply transition command (machine_of command.instrument_id s) in
      (sequenced result, store command.instrument_id machine s)

  unfoldable pub submit : SequencedCommand P → Exec (SequencerError F) (TradingSequencer R) R
  unfolding apply_owned
  submit c s = elim (get c.command.instrument_id s.owners) [
    | none ↦ (err partition_unassigned, s)
    | some owner ↦
        if str_eq owner ""
        then (err partition_unassigned, s)
        else if not (str_eq owner c.owner_id)
        then (err not_owner, s)
        else apply_owned c.command s
  ]

  unfoldable pub pause : String → String → Exec (SequencerError F) (TradingSequencer R) (Unit {0})
  unfolding require_owner machine_of StateMachine.pause
  pause instrument_id owner_id s =
      let (allowed, _) = require_owner instrument_id owner_id s in
      elim allowed [
        | err e ↦ (err e, s)
        | ok _ ↦ (ok tt, store instrument_id (StateMachine.pause (machine_of instrument_id s)) s)
      ]

  unfoldable pub resume : String → String → Exec (SequencerError F) (TradingSequencer R) (Unit {0})
  unfolding require_owner machine_of StateMachine.resume
  resume instrument_id owner_id s =
      let (allowed, _) = require_owner instrument_id owner_id s in
      elim allowed [
        | err e ↦ (err e, s)
        | ok _ ↦ (ok tt, store instrument_id (StateMachine.resume (machine_of instrument_id s)) s)
      ]
